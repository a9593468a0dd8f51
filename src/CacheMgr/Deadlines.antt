-- ===== src/CacheMgr/Deadlines.antt =====
-- src/cache.cpp: what the sweep of the expiring items does to an entry, and where get_touch departs
-- from the deadlines.
use xixi.Prelude.{
  ℕ, ◌-◌, ◌≤◌, ◌<◌, ◌≡◌, refl, ◌∙◌, inl, inr, true, false, ◌&&◌, Option, none, some, arith, leb,
  if◌then◌else◌, Bool-cases,
}
use xixi.CacheMgr.Access.{get, get_touch, get_touch_found}
use xixi.CacheMgr.Changing.{HasRoom}
use xixi.CacheMgr.Effects.{Touches, do_unlink-Unlinks}
use xixi.CacheMgr.Getting.{get-Lookup}
use xixi.CacheMgr.Items.{do_get_touch, inc_ref}
use xixi.CacheMgr.State.{Key, Mgr, success, not_found, key_eq, key_eq_refl, find, write, expired}
use xixi.CacheMgr.Sweep.{sweep_item, shift_item, slot_down}
use xixi.CacheMgr.View.{read, entry, IsLinked, Keeps, Keeps-entry, Keeps-IsLinked, stored-Keeps}
use xixi.CurrTime.{realtime}

shift_item-Keeps : (m : Mgr) (i j a : ℕ) → Keeps m (shift_item m i j a)
unfolding shift_item
shift_item-Keeps m i j a = stored-Keeps m (shift_item m i j a) refl refl (λ b. ground arith)

move-Keeps :
    (m : Mgr) (i a : ℕ) (o : Option ℕ) → Keeps m (elim o [ none ↦ m | some j ↦ shift_item m i j a ])
move-Keeps m i a none =
    stored-Keeps m m refl refl (λ b. record { contents = refl; keys = refl; refs = refl })
move-Keeps m i a (some j) = shift_item-Keeps m i j a

-- A round of the sweep drops the entry of its item if the deadline has passed, and changes no entry
-- otherwise, whichever list the item moves to.
pub sweep_item-stored :
    (m : Mgr) (k : Key) (i curr_time a : ℕ)
    → IsLinked m
    → find k m.cache_hash_map ≡ some a
    → ((q : Key)
        → entry (sweep_item m i curr_time a) q
          ≡ (if leb (m.items a).expire_time curr_time && key_eq k q then none else entry m q))
      × IsLinked (sweep_item m i curr_time a)
unfolding sweep_item
sweep_item-stored m k i curr_time a v e =
    elim (Bool-cases (leb (m.items a).expire_time curr_time)) [
      | inl t ↦
          let u =
            do_unlink-Unlinks m m k a expired v e
              (record { entries = refl; ids = refl; others = λ b h. refl; keys = refl }) in
          rw t (u.stores.at_key, u.stores.linked)
      | inr f ↦
          let h = move-Keeps m i a (slot_down i ((m.items a).expire_time - curr_time)) in
          rw f (Keeps-entry h, Keeps-IsLinked h v)
    ]

touched : Mgr → ℕ → ℕ → Mgr
touched m a expiration =
    write a (record (inc_ref (m.items a)) { expire_time = realtime m.current_time expiration }) m

do_get_touch-some :
    (m : Mgr) (k : Key) {a : ℕ} (expiration : ℕ)
    → find k m.cache_hash_map ≡ some a
    → do_get_touch m k expiration ≡ (some a, touched m a expiration)
unfolding do_get_touch touched
do_get_touch-some m k expiration e = rw (e, do_get_touch)

-- For an entry whose deadline has passed, `get` answers that there is none, and `get_touch` answers
-- with the item, whatever the new expiration.
pub get_touch_stale :
    (m : Mgr) (k : Key) (a expiration : ℕ)
    → HasRoom m
    → IsLinked m
    → find k m.cache_hash_map ≡ some a
    → 0 < (m.items a).expire_time
    → (m.items a).expire_time ≤ m.current_time
    → ((get m k 0 false expiration).2 ≡ not_found)
      × ((get_touch m k 0 expiration).0 ≡ some a)
      × ((get_touch m k 0 expiration).1 ≡ success)
unfolding get_touch get_touch_found entry read
get_touch_stale m k a expiration room v e pos past = (
  (get-Lookup m k 0 false expiration room v).answer ∙ rw e (ground arith),
  rw (do_get_touch-some m k expiration e),
  rw (do_get_touch-some m k expiration e),
)

touched-Touches : (m : Mgr) (a expiration : ℕ) → Touches a m (touched m a expiration)
unfolding touched
touched-Touches m a expiration = record {
  entries = refl;
  ids = refl;
  others = λ b h. ground arith;
  keys = ground arith;
}

touched_never : (m : Mgr) (a : ℕ) → ((touched m a 0).items a).expire_time ≡ 0
unfolding touched realtime
touched_never m a = ground arith

zero_drops :
    (m n : Mgr) (k : Key) (a i curr_time : ℕ)
    → IsLinked m
    → find k m.cache_hash_map ≡ some a
    → Touches a m n
    → (n.items a).expire_time ≡ 0
    → entry (sweep_item n i curr_time a) k ≡ none
unfolding sweep_item
zero_drops m n k a i curr_time v e t z =
    let passed : leb (n.items a).expire_time curr_time ≡ true = ground arith in
    rw passed ((do_unlink-Unlinks m n k a expired v e t).stores.at_key k ∙ rw (key_eq_refl k))

-- An item that `get_touch` told never to expire is dropped by the next sweep of the list that it still
-- stands in: the deadline 0 counts as passed there.
pub get_touch_forever :
    (m : Mgr) (k : Key) (a i curr_time : ℕ)
    → IsLinked m
    → find k m.cache_hash_map ≡ some a
    → let m' = (get_touch m k 0 0).2 in
      ((m'.items a).expire_time ≡ 0)
      × (m'.expire_list ≡ m.expire_list)
      × (entry (sweep_item m' i curr_time a) k ≡ none)
unfolding get_touch get_touch_found
get_touch_forever m k a i curr_time v e =
    let t = touched-Touches m a 0 in
    rw (do_get_touch-some m k 0 e) (
      touched_never m a,
      unfold touched in refl,
      zero_drops m _ k a i curr_time v e
          (record { entries = t.entries; ids = t.ids; others = t.others; keys = t.keys })
          (touched_never m a),
    )
