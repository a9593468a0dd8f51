-- ===== src/CacheMgr/Classes.antt =====
-- src/cache.cpp, Cache_Mgr::get_class_id: the size class of an item, found from the last one used.
use xixi.Prelude.{
  ℕ, zero, suc, ◌+◌, ◌-◌, ◌≤◌, ◌<◌, ◌≡◌, refl, ◌⊎◌, inl, inr, arith, ltb, leb, ◌==◌, if◌then◌else◌,
  Bool-cases,
}
use xixi.CacheMgr.State.{Mgr}

-- `for (--class_id; class_id >= CLASSID_MIN; --class_id)`, from the value after the first decrement.
unfoldable pub class_down : (ℕ → ℕ) → ℕ → ℕ → ℕ
class_down max_size size zero = 0
class_down max_size size (suc c) =
    let rest = class_down max_size size c in if ltb (max_size c) size then suc c else rest

-- `for (; class_id <= class_id_max_; ++class_id)`, with the rounds left; none is the end of the loop.
unfoldable pub class_up : (ℕ → ℕ) → ℕ → ℕ → ℕ → ℕ
class_up max_size size zero class_id = 0
class_up max_size size (suc rounds) class_id =
    let rest = class_up max_size size rounds (class_id + 1) in
    if leb size (max_size class_id) then class_id else rest

-- The class, and the new `last_class_id_`.
unfoldable pub get_class_id : Mgr → ℕ → ℕ × ℕ
unfolding class_down class_up
get_class_id m size =
    let class_id = m.last_class_id in
    if ltb size (m.max_size class_id)
    then (if ltb (m.max_size (class_id - 1)) size
        then (class_id, class_id)
        else (let c = class_down m.max_size size (class_id - 1) in (c, c)))
    else (let c = class_up m.max_size size (m.class_id_max + 1 - class_id) class_id in
        (c, if c == 0 then m.last_class_id else c))

-- The table as `init` leaves it: increasing up to the largest class, with 0 below the first.
pub record HasClasses (m : Mgr) : Type 0 where
  pub bottom : m.max_size 0 ≡ 0
  pub rising : (c : ℕ) → c < m.class_id_max → m.max_size c < m.max_size (c + 1)
  pub last_pos : 1 ≤ m.last_class_id
  pub last_le : m.last_class_id ≤ m.class_id_max

-- The class is the least one that holds the size.
pub record IsClassOf (m : Mgr) (size c : ℕ) : Type 0 where
  pub at_least : 1 ≤ c
  pub at_most : c ≤ m.class_id_max
  pub above : m.max_size (c - 1) < size
  pub fits : size ≤ m.max_size c

pred_add : (p : ℕ) → p + 1 - 1 ≡ p
pred_add p = omega arith

module _ (m : Mgr) (size : ℕ) where
  class_down_lem :
      (n : ℕ)
      → m.max_size 0 ≡ 0
      → 0 < size
      → size ≤ m.max_size n
      → n ≤ m.class_id_max
      → IsClassOf m size (class_down m.max_size size n)
  unfolding class_down
  class_down_lem zero b p h le = absurd (omega arith)
  class_down_lem (suc n) b p h le = elim (Bool-cases (ltb (m.max_size n) size)) [
    | inl e ↦
        rw e
          (record { at_least = omega arith; at_most = omega arith; above = ground arith; fits = h })
    | inr e ↦ rw e (class_down_lem n b p (ground arith) (omega arith))
  ]

  class_up_lem :
      (rounds p : ℕ)
      → rounds + p ≡ m.class_id_max
      → m.max_size p < size
      → IsClassOf m size (class_up m.max_size size rounds (p + 1))
        ⊎ ((class_up m.max_size size rounds (p + 1) ≡ 0) × (m.max_size m.class_id_max < size))
  unfolding class_up
  class_up_lem zero p e h = let e' : p ≡ m.class_id_max = omega arith in inr (refl, rw e' at h)
  class_up_lem (suc rounds) p e h = elim (Bool-cases (leb size (m.max_size (p + 1)))) [
    | inl t ↦ rw t (
        inl (record {
          at_least = omega arith;
          at_most = omega arith;
          above = rw (pred_add p) h;
          fits = ground arith;
        }))
    | inr t ↦ rw t (class_up_lem rounds (p + 1) (omega arith) (ground arith))
  ]

  -- What a search may answer: the class and the class to remember.
  abbrev pub Answers : ℕ × ℕ → Type 0
  Answers r =
      (IsClassOf m size r.0 × (r.1 ≡ r.0))
      ⊎ ((r.0 ≡ 0) × (r.1 ≡ m.last_class_id) × (m.max_size m.class_id_max < size))

  remember :
      (c : ℕ)
      → IsClassOf m size c ⊎ ((c ≡ 0) × (m.max_size m.class_id_max < size))
      → Answers (c, if c == 0 then m.last_class_id else c)
  remember c (inl h) = inl (h, ground arith)
  remember c (inr h) = inr (h.0, ground arith, h.1)

  -- The search answers with the least class that holds the size and remembers it; it answers 0 and
  -- remembers what it did exactly if no class holds the size.
  pub get_class_id_lem : HasClasses m → 0 < size → Answers (get_class_id m size)
  unfolding get_class_id
  get_class_id_lem v pos =
      let l = m.last_class_id in
      let back : l - 1 + 1 ≡ l = omega (arith, v.last_pos) in
      let step : m.max_size (l - 1) < m.max_size l =
        rw back at (v.rising (l - 1) (omega (arith, v.last_pos, v.last_le))) in
      elim (Bool-cases (ltb size (m.max_size l))) [
        | inl t ↦ rw t (elim (Bool-cases (ltb (m.max_size (l - 1)) size)) [
          | inl s ↦ rw s (
              inl (
                record {
                  at_least = v.last_pos;
                  at_most = v.last_le;
                  above = ground arith;
                  fits = ground arith;
                },
                refl,
              ))
          | inr s ↦ rw s (
              inl (
                class_down_lem (l - 1) v.bottom pos (ground arith) (omega (arith, v.last_le)),
                refl,
              ))
        ])
        | inr t ↦ rw t (
            remember _ (
              rw back at (
                class_up_lem (m.class_id_max + 1 - l) (l - 1) (omega (arith, v.last_pos, v.last_le))
                  (ground arith))))
      ]
