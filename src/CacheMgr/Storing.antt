-- ===== src/CacheMgr/Storing.antt =====
-- src/cache.cpp: add, set and replace store an item's content under its key, or change nothing that a
-- client sees, as the key, the cache id and the watch id demand.
use xixi.Prelude.{
  ℕ, ◌≡◌, refl, inl, inr, Bool, true, false, ◌&&◌, Option, none, some, List, arith, if◌then◌else◌,
  Bool-cases, Option-cases, update,
}
use xixi.CacheMgr.Effects.{Touches, bounce-Keeps, linked_at}
use xixi.CacheMgr.Items.{is_valid_watch_id, inc_ref, do_release_reference}
use xixi.CacheMgr.Linking.{
  watch_ok, watch_reason, admit_lem, do_get-none, do_get-some, IsReady, stamped, Links,
  link_new-Links, link_over-Links, link_over_fails, link_new_fails,
}
use xixi.CacheMgr.State.{
  Key, Mgr, Reason, success, not_found, exists, mismatch, watch_not_found, key_of, key_eq, find,
  report,
}
use xixi.CacheMgr.Store.{
  link_new, link_over, agrees, add, set, add_found, set_found, replace, replace_found,
}
use xixi.CacheMgr.View.{
  Content, read, entry, IsLinked, Keeps, Keeps-entry, Keeps-IsLinked, stored-Keeps,
}
use xixi.Stats.{StatsCall}

abbrev pub is_success : Reason → Bool
is_success success = true
is_success _ = false

-- The result of an operation that answers with `reason`: on success the content `c` stands under the
-- key `k` and its cache id is returned, and otherwise no entry has changed. The state stays linked.
pub record Outcome (m : Mgr) (k : Key) (c : Content) (cache_id : ℕ) (reason : Reason)
    (r : Reason × ℕ × Mgr) : Type 0 where
  pub answer : r.0 ≡ reason
  pub issued : r.1 ≡ (if is_success reason then c.cache_id else cache_id)
  pub stored :
      (q : Key) → entry r.2 q ≡ (if is_success reason && key_eq k q then some c else entry m q)
  pub linked : IsLinked r.2

Links-Outcome :
    {m : Mgr} {k : Key} {a : ℕ} (cache_id : ℕ) {r : Reason × ℕ × Mgr}
    → Links m k a r
    → Outcome m k (stamped m a) cache_id success r
Links-Outcome cache_id h = record {
  answer = h.answer;
  issued = h.issued;
  stored = h.stores.at_key;
  linked = h.stores.linked;
}

-- An answer other than success goes with a state that a client cannot tell from the first.
Keeps-Outcome :
    {m n : Mgr} (k : Key) (c : Content) (cache_id : ℕ) (reason : Reason)
    → is_success reason ≡ false
    → IsLinked m
    → Keeps m n
    → Outcome m k c cache_id reason (reason, cache_id, n)
Keeps-Outcome k c cache_id reason e v h = record {
  answer = refl;
  issued = rw e;
  stored = λ q. rw e (Keeps-entry h q);
  linked = Keeps-IsLinked h v;
}

pub report-Keeps : (m : Mgr) (s : List StatsCall) → Keeps m (record m { stats = s })
report-Keeps m s =
    stored-Keeps m (record m { stats = s }) refl refl
      (λ b. record { contents = refl; keys = refl; refs = refl })

-- The state after `do_get` found an item, and reports.
abbrev pub held : Mgr → ℕ → List StatsCall → Mgr
held m old s = record m { items = update m.items old (inc_ref (m.items old)); stats = s }

pub held-Touches : (m : Mgr) (old : ℕ) (s : List StatsCall) → Touches old m (held m old s)
held-Touches m old s = record {
  entries = refl;
  ids = refl;
  others = λ b h. ground arith;
  keys = ground arith;
}

watch_ok-held :
    (m : Mgr) (old watch_id : ℕ) → watch_ok (held m old m.stats) watch_id ≡ watch_ok m watch_id
unfolding is_valid_watch_id
watch_ok-held m old watch_id = refl

-- The reference that `do_get` took, given back.
pub let_go :
    (m : Mgr) (k : Key) {old : ℕ} (s : List StatsCall)
    → IsLinked m
    → find k m.cache_hash_map ≡ some old
    → Keeps m (do_release_reference (held m old s) old)
let_go m k {old} s v e =
    let h = linked_at k v e in bounce-Keeps m (held m old s) old refl refl (λ b. refl) h.1 h.2

pub let_go_report :
    (m : Mgr) (k : Key) {old : ℕ} (c : StatsCall)
    → IsLinked m
    → find k m.cache_hash_map ≡ some old
    → Keeps m (report c (do_release_reference (held m old m.stats) old))
let_go_report m k {old} c v e =
    let h = let_go m k m.stats v e in record { entries = h.entries; items = h.items; ids = h.ids }

pub held_id :
    (m : Mgr) (old : ℕ) (s : List StatsCall)
    → ((held m old s).items old).cache_id ≡ (m.items old).cache_id
held_id m old s = ground arith

-- Linking for an absent key, whatever the watch test says.
absent-Outcome :
    (m : Mgr) (s : List StatsCall) (a watch_id cache_id : ℕ) (ok : Bool)
    → IsLinked m
    → IsReady m a
    → find (key_of (m.items a)) m.cache_hash_map ≡ none
    → Outcome m
        (key_of (m.items a))
        (stamped m a)
        cache_id
        (watch_reason ok)
        (link_new (watch_reason ok, record m { stats = s }) a watch_id cache_id)
absent-Outcome m s a watch_id cache_id true v ready e =
    Links-Outcome cache_id (link_new-Links m s a watch_id cache_id v ready e)
absent-Outcome m s a watch_id cache_id false v ready e =
    rw (link_new_fails (record m { stats = s }) a watch_id cache_id) (
      Keeps-Outcome (key_of (m.items a)) (stamped m a) cache_id watch_not_found refl v
        (report-Keeps m s))

-- Linking in the place of an old item, whatever the watch test says.
present-Outcome :
    (m : Mgr) (s : List StatsCall) (old a watch_id cache_id : ℕ) (ok : Bool)
    → IsLinked m
    → IsReady m a
    → find (key_of (m.items a)) m.cache_hash_map ≡ some old
    → Outcome m
        (key_of (m.items a))
        (stamped m a)
        cache_id
        (watch_reason ok)
        (link_over (watch_reason ok, held m old s) old a watch_id cache_id)
present-Outcome m s old a watch_id cache_id true v ready e =
    Links-Outcome cache_id
      (link_over-Links m (held m old s) old a watch_id cache_id v ready e (held-Touches m old s))
present-Outcome m s old a watch_id cache_id false v ready e =
    rw (link_over_fails (held m old s) old a watch_id cache_id) (
      Keeps-Outcome (key_of (m.items a)) (stamped m a) cache_id watch_not_found refl v
        (let_go m (key_of (m.items a)) s v e))

-- The answer of `set`: an old entry has to have the cache id that the caller wants, if any.
abbrev pub set_reason : Option Content → Bool → ℕ → Reason
set_reason none ok wanted = watch_reason ok
set_reason (some old) ok wanted = if agrees wanted old.cache_id then watch_reason ok else mismatch

-- `set` stores the item's content under its key, in the place of an old one if there is one, unless
-- the caller wants another cache id than the old one has, or names a watch that is not known.
pub set-Outcome :
    (m : Mgr) (a watch_id cache_id : ℕ)
    → IsLinked m
    → IsReady m a
    → let k = key_of (m.items a) in
      Outcome m k
        (stamped m a)
        cache_id
        (set_reason (entry m k) (watch_ok m watch_id) (m.items a).cache_id)
        (set m a watch_id cache_id)
unfolding set set_found entry read is_valid_watch_id
set-Outcome m a watch_id cache_id v ready =
    let k = key_of (m.items a) in
    elim (Option-cases (find k m.cache_hash_map)) [
      | inl e ↦
          rw (e, do_get-none m k e, admit_lem)
            (absent-Outcome m _ a watch_id cache_id (watch_ok m watch_id) v ready e)
      | inr (old, e) ↦
          rw (e, do_get-some m k e, admit_lem, held_id m old m.stats)
            (elim (Bool-cases (agrees (m.items a).cache_id (m.items old).cache_id)) [
              | inl t ↦
                  rw t (present-Outcome m _ old a watch_id cache_id (watch_ok m watch_id) v ready e)
              | inr t ↦
                  rw t (Keeps-Outcome k (stamped m a) cache_id mismatch refl v (let_go m k _ v e))
            ])
    ]

-- The answer of `add`.
abbrev pub add_reason : Option Content → Bool → Reason
add_reason none ok = watch_reason ok
add_reason (some old) ok = exists

-- `add` stores the item's content under its key if nothing stands there and the watch is known, and
-- changes no entry otherwise.
pub add-Outcome :
    (m : Mgr) (a watch_id cache_id : ℕ)
    → IsLinked m
    → IsReady m a
    → let k = key_of (m.items a) in
      Outcome m k
        (stamped m a)
        cache_id
        (add_reason (entry m k) (watch_ok m watch_id))
        (add m a watch_id cache_id)
unfolding add add_found entry read is_valid_watch_id
add-Outcome m a watch_id cache_id v ready =
    let k = key_of (m.items a) in
    elim (Option-cases (find k m.cache_hash_map)) [
      | inl e ↦
          rw (e, do_get-none m k e, admit_lem)
            (absent-Outcome m _ a watch_id cache_id (watch_ok m watch_id) v ready e)
      | inr (old, e) ↦
          rw (e, do_get-some m k e)
            (Keeps-Outcome k (stamped m a) cache_id exists refl v (
              let_go_report m k (StatsCall.add_fail (m.items a).group_id (m.items a).class_id) v e))
    ]

-- The answer of `replace`: like that of `set`, but the key has to be there.
abbrev pub replace_reason : Option Content → Bool → ℕ → Reason
replace_reason none ok wanted = not_found
replace_reason (some old) ok wanted =
    if agrees wanted old.cache_id then watch_reason ok else mismatch

-- `replace` stores the item's content under its key if an entry stands there with the cache id that the
-- caller wants, if any, and the watch is known, and changes no entry otherwise.
pub replace-Outcome :
    (m : Mgr) (a watch_id cache_id : ℕ)
    → IsLinked m
    → IsReady m a
    → let k = key_of (m.items a) in
      Outcome m k
        (stamped m a)
        cache_id
        (replace_reason (entry m k) (watch_ok m watch_id) (m.items a).cache_id)
        (replace m a watch_id cache_id)
unfolding replace replace_found entry read is_valid_watch_id
replace-Outcome m a watch_id cache_id v ready =
    let k = key_of (m.items a) in
    elim (Option-cases (find k m.cache_hash_map)) [
      | inl e ↦
          rw (e, do_get-none m k e)
            (Keeps-Outcome k (stamped m a) cache_id not_found refl v (report-Keeps m _))
      | inr (old, e) ↦
          rw (e, do_get-some m k e, admit_lem, held_id m old m.stats)
            (elim (Bool-cases (agrees (m.items a).cache_id (m.items old).cache_id)) [
              | inl t ↦
                  rw t (present-Outcome m _ old a watch_id cache_id (watch_ok m watch_id) v ready e)
              | inr t ↦
                  rw t (Keeps-Outcome k (stamped m a) cache_id mismatch refl v (let_go m k _ v e))
            ])
    ]
