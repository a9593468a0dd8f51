-- ===== src/CacheMgr/Removing.antt =====
-- src/cache.cpp: Cache_Mgr::remove deletes the entry of a key, under the same test of the cache id.
use xixi.Prelude.{
  ℕ, ◌≡◌, refl, inl, inr, false, ◌&&◌, Option, none, some, List, if◌then◌else◌, Bool-cases,
  Option-cases,
}
use xixi.CacheMgr.Effects.{Stores-Keeps, do_unlink-Unlinks}
use xixi.CacheMgr.Items.{do_unlink, do_release_reference}
use xixi.CacheMgr.Linking.{do_get-none, do_get-some}
use xixi.CacheMgr.State.{Key, Mgr, Reason, success, not_found, mismatch, key_eq, find, deleted}
use xixi.CacheMgr.Store.{agrees, remove, remove_found}
use xixi.CacheMgr.Storing.{is_success, held, held-Touches, held_id, let_go, report-Keeps}
use xixi.CacheMgr.View.{
  Content, read, entry, IsLinked, Keeps, Keeps-entry, Keeps-IsLinked, release-Keeps,
}
use xixi.Stats.{StatsCall}

abbrev pub remove_reason : Option Content → ℕ → Reason
remove_reason none wanted = not_found
remove_reason (some old) wanted = if agrees wanted old.cache_id then success else mismatch

-- On success nothing stands under the key, and otherwise no entry has changed.
pub record Removal (m : Mgr) (k : Key) (reason : Reason) (r : Reason × Mgr) : Type 0 where
  pub answer : r.0 ≡ reason
  pub gone : (q : Key) → entry r.1 q ≡ (if is_success reason && key_eq k q then none else entry m q)
  pub linked : IsLinked r.1

Keeps-Removal :
    {m n : Mgr} (k : Key) (reason : Reason)
    → is_success reason ≡ false
    → IsLinked m
    → Keeps m n
    → Removal m k reason (reason, n)
Keeps-Removal k reason e v h = record {
  answer = refl;
  gone = λ q. rw e (Keeps-entry h q);
  linked = Keeps-IsLinked h v;
}

unlinked-Removal :
    (m : Mgr) (k : Key) {a : ℕ} (s : List StatsCall)
    → IsLinked m
    → find k m.cache_hash_map ≡ some a
    → Removal m k success (success, do_release_reference (do_unlink (held m a s) a deleted) a)
unlinked-Removal m k {a} s v e =
    let u = do_unlink-Unlinks m (held m a s) k a deleted v e (held-Touches m a s) in
    let stores =
      Stores-Keeps u.stores (release-Keeps (do_unlink (held m a s) a deleted) a u.away) in
    record { answer = refl; gone = stores.at_key; linked = stores.linked }

-- `remove` deletes the entry of its key, and no other, exactly if there is one and the caller wants
-- its cache id or none.
pub remove-Removal :
    (m : Mgr) (k : Key) (cache_id : ℕ)
    → IsLinked m
    → Removal m k (remove_reason (entry m k) cache_id) (remove m k cache_id)
unfolding remove remove_found entry read
remove-Removal m k cache_id v = elim (Option-cases (find k m.cache_hash_map)) [
  | inl e ↦ rw (e, do_get-none m k e) (Keeps-Removal k not_found refl v (report-Keeps m _))
  | inr (a, e) ↦
      rw (e, do_get-some m k e, held_id m a m.stats)
        (elim (Bool-cases (agrees cache_id (m.items a).cache_id)) [
          | inl t ↦ rw t (unlinked-Removal m k _ v e)
          | inr t ↦ rw t (Keeps-Removal k mismatch refl v (let_go m k _ v e))
        ])
]
