-- ===== src/CacheMgr/Expirations.antt =====
-- src/cache.cpp, Cache_Mgr::get_expiration_id: the list of expiring items that an item stands in. List
-- i holds items with a remaining life of at least 2 ^ i seconds, list 33 those that never expire.
use xixi.Prelude.{
  ℕ, zero, suc, ◌+◌, ◌-◌, ◌^◌, ◌≤◌, ◌<◌, ◌≡◌, refl, ◌⊎◌, inl, inr, arith, ltb, ◌==◌, if◌then◌else◌,
  ltb→lt, Bool-cases,
}

-- The table `expiration_time_` that the constructor of Cache_Mgr fills.
unfoldable pub expiration_time : ℕ → ℕ
expiration_time i = if ltb i 32 then 2 ^ i else 0xffff_ffff

-- `for (; i < 33; i++)`, with the rounds left.
unfoldable pub slot_from : ℕ → ℕ → ℕ → ℕ
slot_from zero i expiration = i
slot_from (suc rounds) i expiration =
    let rest = slot_from rounds (i + 1) expiration in
    if ltb expiration (expiration_time i) then i else rest

unfoldable pub get_expiration_id : ℕ → ℕ → ℕ
unfolding slot_from
get_expiration_id curr_time expire_time =
    if expire_time == 0
    then 33
    else if ltb curr_time expire_time
    then slot_from 32 1 (expire_time - curr_time) - 1
    else 0

-- The slot is the last whose time the remaining life reaches.
pub record IsSlot (expiration slot : ℕ) : Type 0 where
  pub in_range : slot ≤ 32
  pub reached : expiration_time slot ≤ expiration
  pub last : (slot ≡ 32) ⊎ (expiration < expiration_time (slot + 1))

pred_add : (p : ℕ) → p + 1 - 1 ≡ p
pred_add p = omega arith

slot_from_lem :
    (rounds p expiration : ℕ)
    → rounds + p ≡ 32
    → expiration_time p ≤ expiration
    → IsSlot expiration (slot_from rounds (p + 1) expiration - 1)
unfolding slot_from
slot_from_lem zero p expiration e h = record {
  in_range = omega arith;
  reached = rw (pred_add p) h;
  last = inl (omega arith);
}
slot_from_lem (suc rounds) p expiration e h =
    elim (Bool-cases (ltb expiration (expiration_time (p + 1)))) [
      | inl t ↦
          rw (t, pred_add p)
            (record { in_range = omega arith; reached = h; last = inr (ltb→lt _ _ t) })
      | inr t ↦ rw t (slot_from_lem rounds (p + 1) expiration (omega arith) (ground arith))
    ]

-- An item with a deadline to come stands in the slot of its remaining life; one without a deadline in
-- list 33, and one whose deadline has passed in list 0.
pub get_expiration_id_lem :
    (curr_time expire_time : ℕ)
    → ((expire_time ≡ 0) × (get_expiration_id curr_time expire_time ≡ 33))
      ⊎ ((curr_time < expire_time)
          × IsSlot (expire_time - curr_time) (get_expiration_id curr_time expire_time))
      ⊎ ((0 < expire_time)
          × (expire_time ≤ curr_time)
          × (get_expiration_id curr_time expire_time ≡ 0))
unfolding get_expiration_id
get_expiration_id_lem curr_time expire_time = elim (Bool-cases (expire_time == 0)) [
  | inl z ↦ inl (ground arith, rw z)
  | inr p ↦ elim (Bool-cases (ltb curr_time expire_time)) [
    | inl t ↦ inr (
        inl (
          ltb→lt _ _ t,
          rw (p, t)
              (slot_from_lem 32 0 (expire_time - curr_time) refl
                (unfold expiration_time in omega (arith, ltb→lt _ _ t))),
        ))
    | inr t ↦ inr (inr (ground arith, ground arith, rw (p, t)))
  ]
]
