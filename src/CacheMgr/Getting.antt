-- ===== src/CacheMgr/Getting.antt =====
-- src/cache.cpp: what Cache_Mgr::get answers, and what it leaves.
use xixi.Prelude.{
  ℕ, ◌-◌, ◌≡◌, refl, sym, ap, ◌∙◌, inl, inr, Bool, true, false, ◌||◌, Option, none, some, List,
  arith, ltb, ◌==◌, if◌then◌else◌, Bool-cases, Option-cases,
}
use xixi.CacheMgr.Access.{get, get_found}
use xixi.CacheMgr.Changing.{HasRoom, held-IsLinked, held-entry}
use xixi.CacheMgr.Effects.{do_unlink-Unlinks}
use xixi.CacheMgr.Items.{is_valid_watch_id, add_watch, do_get_fresh, do_unlink}
use xixi.CacheMgr.Linking.{watch_ok, watch_reason}
use xixi.CacheMgr.State.{
  Item, Key, Mgr, Reason, success, not_found, watch_not_found, key_eq, key_eq_sound, find, report,
  expired,
}
use xixi.CacheMgr.Storing.{is_success, held, let_go, report-Keeps}
use xixi.CacheMgr.View.{
  Content, content, read, entry, IsLinked, Keeps-entry, Keeps-IsLinked, add_watch-Keeps,
  add_watch_same,
}
use xixi.Stats.{StatsCall}

-- An entry whose deadline has passed counts as absent.
abbrev pub drop_stale : ℕ → Option Content → Option Content
drop_stale now none = none
drop_stale now (some c) = if c.expire_time == 0 || ltb now c.expire_time then some c else none

abbrev pub get_reason : Option Content → Bool → Reason
get_reason none ok = not_found
get_reason (some c) ok = watch_reason ok

-- The item that `get` returns has the content of the entry, if it answers with success; the entry of
-- the key is dropped if its deadline has passed, and no other entry has changed.
pub record Lookup (m : Mgr) (k : Key) (ok : Bool) (r : Option ℕ × ℕ × Reason × Mgr) : Type 0 where
  pub answer : r.2 ≡ get_reason (drop_stale m.current_time (entry m k)) ok
  pub item :
      read r.3.items r.0 ≡ (if is_success r.2 then drop_stale m.current_time (entry m k) else none)
  pub stored :
      (q : Key)
      → entry r.3 q ≡ (if key_eq k q then drop_stale m.current_time (entry m k) else entry m q)
  pub linked : IsLinked r.3

same_view :
    (m n : Mgr) (k q : Key) (o : Option Content)
    → o ≡ entry m k
    → entry n q ≡ entry m q
    → entry n q ≡ (if key_eq k q then o else entry m q)
same_view m n k q o e h = elim (Bool-cases (key_eq k q)) [
  | inl t ↦ rw t (h ∙ rw (key_eq_sound k q t) at (sym e))
  | inr t ↦ rw t h
]

-- The deadline test of `do_get`.
abbrev is_fresh : Mgr → ℕ → Bool
is_fresh m a = (m.items a).expire_time == 0 || ltb m.current_time (m.items a).expire_time

abbrev life : Mgr → ℕ → ℕ
life m a = if (m.items a).expire_time == 0 then 0 else (m.items a).expire_time - m.current_time

do_get_fresh-none :
    (m : Mgr) (k : Key) (expiration : ℕ)
    → find k m.cache_hash_map ≡ none
    → do_get_fresh m k expiration ≡ (none, expiration, m)
unfolding do_get_fresh
do_get_fresh-none m k expiration e = rw (e, do_get_fresh)

do_get_fresh_hit :
    (m : Mgr) (k : Key) {a : ℕ} (expiration : ℕ)
    → find k m.cache_hash_map ≡ some a
    → is_fresh m a ≡ true
    → do_get_fresh m k expiration ≡ (some a, life m a, held m a m.stats)
unfolding do_get_fresh
do_get_fresh_hit m k {a} expiration e t =
    rw (e, do_get_fresh)
      (elim (Bool-cases ((m.items a).expire_time == 0)) [
        | inl z ↦ rw z
        | inr nz ↦ rw (nz, rw nz at t)
      ])

do_get_fresh_stale :
    (m : Mgr) (k : Key) {a : ℕ} (expiration : ℕ)
    → find k m.cache_hash_map ≡ some a
    → is_fresh m a ≡ false
    → do_get_fresh m k expiration ≡ (none, expiration, do_unlink m a expired)
unfolding do_get_fresh
do_get_fresh_stale m k {a} expiration e t =
    rw (e, do_get_fresh)
      (elim (Bool-cases ((m.items a).expire_time == 0)) [
        | inl z ↦ absurd (cc (rw z at t))
        | inr nz ↦ rw (nz, rw nz at t)
      ])

-- A hit that leaves a state in which nothing has changed.
hit_Lookup :
    (m : Mgr) (k : Key) (ok : Bool) (n : Mgr) (o : Option ℕ) (reason : Reason) (expiration : ℕ)
    → drop_stale m.current_time (entry m k) ≡ entry m k
    → reason ≡ get_reason (entry m k) ok
    → read n.items o ≡ (if is_success reason then entry m k else none)
    → ((q : Key) → entry n q ≡ entry m q)
    → IsLinked n
    → Lookup m k ok (o, expiration, reason, n)
hit_Lookup m k ok n o reason expiration e r i h w = record {
  answer = rw (e, r);
  item = rw e i;
  stored = λ q. rw e (same_view m n k q (entry m k) refl (h q));
  linked = w;
}

content-held :
    (m : Mgr) (a : ℕ) (s : List StatsCall) → content ((held m a s).items a) ≡ content (m.items a)
content-held m a s = ground arith

read_item : (f : ℕ → Item) (a : ℕ) → read f (some a) ≡ some (content (f a))
unfolding read
read_item f a = refl

read_null : (f : ℕ → Item) → read f none ≡ none
unfolding read
read_null f = refl

module _ (m : Mgr) (k : Key) (watch_id : ℕ) (is_base : Bool) (v : IsLinked m) where
  miss_Lookup :
      (n : Mgr) (expiration : ℕ)
      → drop_stale m.current_time (entry m k) ≡ none
      → ((q : Key) → entry n q ≡ (if key_eq k q then none else entry m q))
      → IsLinked n
      → Lookup m k (watch_ok m watch_id) (get_found k watch_id is_base (none, expiration, n))
  unfolding get_found entry read
  miss_Lookup n expiration e h w = record {
    answer = rw e;
    item = refl;
    stored = λ q. rw e (h q);
    linked = Keeps-IsLinked (report-Keeps n _) w;
  }

  module _ {a : ℕ} (e : find k m.cache_hash_map ≡ some a) (room : HasRoom m) where
    entry_at : entry m k ≡ some (content (m.items a))
    unfolding entry read
    entry_at = rw e

    held-Lookup :
        (expiration : ℕ)
        → drop_stale m.current_time (entry m k) ≡ entry m k
        → Lookup m k
            (watch_ok m watch_id)
            (get_found k watch_id is_base (some a, expiration, held m a m.stats))
    unfolding get_found is_valid_watch_id
    held-Lookup expiration t = elim (Bool-cases (watch_id == 0)) [
      | inl z ↦ rw z (
          hit_Lookup m k true (held m a _) (some a) success expiration t (rw entry_at)
            (read_item (held m a m.stats).items a
              ∙ ap some (content-held m a m.stats)
              ∙ sym entry_at)
            (λ q. held-entry m a _ q) (held-IsLinked m a _ room v))
      | inr nz ↦ elim (Bool-cases (is_valid_watch_id m watch_id)) [
        | inl s ↦
            let n = held m a m.stats in
            let w = add_watch n a watch_id in
            rw (nz, s)
              (hit_Lookup m k true (report _ w) (some a) success expiration t (rw entry_at)
                (read_item w.items a
                  ∙ ap some ((add_watch_same n a watch_id a).contents ∙ content-held m a m.stats)
                  ∙ sym entry_at)
                (λ q.
                  Keeps-entry (report-Keeps w _) q
                  ∙ Keeps-entry (add_watch-Keeps n a watch_id) q
                  ∙ held-entry m a m.stats q)
                (Keeps-IsLinked (report-Keeps w _) (
                  Keeps-IsLinked (add_watch-Keeps n a watch_id)
                    (held-IsLinked m a m.stats room v))))
        | inr f ↦
            let g = let_go m k _ v e in
            rw (nz, f)
              (hit_Lookup m k false _ none watch_not_found expiration t (rw entry_at) (read_null _)
                (λ q. Keeps-entry g q) (Keeps-IsLinked g v))
      ]
    ]

entry-none : (m : Mgr) (k : Key) → find k m.cache_hash_map ≡ none → entry m k ≡ none
unfolding entry read
entry-none m k e = rw e

stale_or_fresh :
    (m : Mgr) (k : Key) {a : ℕ}
    → find k m.cache_hash_map ≡ some a
    → drop_stale m.current_time (entry m k) ≡ (if is_fresh m a then entry m k else none)
unfolding entry read
stale_or_fresh m k e = rw e

-- `get` answers with the item of the key if its deadline has not passed and the watch is known, drops
-- the entry if its deadline has passed, and changes no entry else.
pub get-Lookup :
    (m : Mgr) (k : Key) (watch_id : ℕ) (is_base : Bool) (expiration : ℕ)
    → HasRoom m
    → IsLinked m
    → Lookup m k (watch_ok m watch_id) (get m k watch_id is_base expiration)
unfolding get
get-Lookup m k watch_id is_base expiration room v = elim (Option-cases (find k m.cache_hash_map)) [
  | inl e ↦ rw (do_get_fresh-none m k expiration e) (
      miss_Lookup m k watch_id is_base v m expiration (rw (entry-none m k e))
        (λ q. same_view m m k q none (sym (entry-none m k e)) refl) v)
  | inr (a, e) ↦ elim (Bool-cases (is_fresh m a)) [
    | inl t ↦
        rw (do_get_fresh_hit m k expiration e t)
          (held-Lookup m k watch_id is_base v e room (life m a) (stale_or_fresh m k e ∙ rw t))
    | inr f ↦
        let u =
          do_unlink-Unlinks m m k a expired v e
            (record { entries = refl; ids = refl; others = λ b h. refl; keys = refl }) in
        rw (do_get_fresh_stale m k expiration e f) (
          miss_Lookup m k watch_id is_base v (do_unlink m a expired) expiration
            (stale_or_fresh m k e ∙ rw f) u.stores.at_key u.stores.linked)
  ]
]
