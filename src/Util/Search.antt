-- ===== src/Util/Search.antt =====
-- `memfind` of src/util.cpp.
use mathlib.Core.Bool.{true≢false}
use mathlib.Core.Path.{subst}
use xixi.Util.{starts_with, memfind_from, memfind}
use xixi.Prelude.{
  ℕ, zero, suc, ◌+◌, ◌≤◌, ◌<◌, ◌≡◌, refl, sym, ap, ◌∙◌, inl, inr, true, false, Option, none, some,
  List, [], ◌∷◌, arith, ltb, ltb→lt, Bool-cases, length,
}

-- The bytes from a position on.
unfoldable pub drop : ℕ → List ℕ → List ℕ
drop zero bytes = bytes
drop (suc n) [] = []
drop (suc n) (b ∷ bytes) = drop n bytes

abbrev pub Occurs : List ℕ → List ℕ → ℕ → Type 0
Occurs bytes sub i = starts_with (drop i bytes) sub ≡ true

-- A position at which `sub` stands and before which it does not stand, or none where there is none.
pub IsFirst : List ℕ → List ℕ → Option ℕ → Type 0
IsFirst bytes sub none = (k : ℕ) → ¬ Occurs bytes sub k
IsFirst bytes sub (some i) = Occurs bytes sub i × ((k : ℕ) → k < i → ¬ Occurs bytes sub k)

abbrev shifted : ℕ → Option ℕ → Option ℕ
shifted n none = none
shifted n (some i) = some (n + i)

too_short : (bytes sub : List ℕ) → length bytes < length sub → starts_with bytes sub ≡ false
unfolding starts_with
too_short bytes [] h = absurd (omega arith)
too_short [] (s ∷ sub) h = refl
too_short (b ∷ bytes) (s ∷ sub) h =
    let rest = too_short bytes sub (omega arith) in ground (arith, rest)

length-drop : (n : ℕ) (bytes : List ℕ) → length (drop n bytes) ≤ length bytes
unfolding drop
length-drop zero bytes = omega arith
length-drop (suc n) [] = omega arith
length-drop (suc n) (b ∷ bytes) = omega (arith, length-drop n bytes)

drop-empty : (n : ℕ) → drop n [] ≡ []
unfolding drop
drop-empty zero = refl
drop-empty (suc n) = refl

not_before :
    (b : ℕ) (bytes sub : List ℕ) (bound : ℕ → Type 0)
    → starts_with (b ∷ bytes) sub ≡ false
    → ((k : ℕ) → bound (suc k) → ¬ Occurs bytes sub k)
    → (k : ℕ) → bound k
    → ¬ Occurs (b ∷ bytes) sub k
unfolding drop
not_before b bytes sub bound fails none_later zero h at = true≢false (sym at ∙ fails)
not_before b bytes sub bound fails none_later (suc k) h at = none_later k h at

later :
    (n b : ℕ) (bytes sub : List ℕ)
    → starts_with (b ∷ bytes) sub ≡ false
    → (found : Option ℕ) × ((memfind_from (n + 1) bytes sub ≡ shifted (n + 1) found)
        × IsFirst bytes sub found)
    → (found : Option ℕ) × ((memfind_from n (b ∷ bytes) sub ≡ shifted n found)
        × IsFirst (b ∷ bytes) sub found)
unfolding memfind_from drop IsFirst
later n b bytes sub fails (none, (result, first)) = (
  none,
  (
    ground (arith, result, fails),
    λ k at. not_before b bytes sub (λ k. Unit {0}) fails (λ k h. first k) k tt at,
  ),
)
later n b bytes sub fails (some i, (result, (occurs, before))) = (
  some (suc i),
  (
    ground (arith, result, fails),
    (occurs, not_before b bytes sub (λ k. k < suc i) fails (λ k h. before k (omega arith))),
  ),
)

-- The search from the front of a buffer, with the positions counted from `n`.
memfind_from_lem :
    (n : ℕ) (bytes sub : List ℕ)
    → (found : Option ℕ) × ((memfind_from n bytes sub ≡ shifted n found) × IsFirst bytes sub found)
unfolding memfind_from drop IsFirst
memfind_from_lem n [] sub = elim (Bool-cases (starts_with [] sub)) [
  | inl holds ↦ (some 0, (ground (arith, holds), (holds, λ k h. absurd (omega arith))))
  | inr fails ↦ (
    none,
    (
      ground (arith, fails),
      λ k at. true≢false (sym at ∙ ap (λ t. starts_with t sub) (drop-empty k) ∙ fails),
    ),
  )
]
memfind_from_lem n (b ∷ bytes) sub = elim (Bool-cases (starts_with (b ∷ bytes) sub)) [
  | inl holds ↦ (some 0, (ground (arith, holds), (holds, λ k h. absurd (omega arith))))
  | inr fails ↦ later n b bytes sub fails (memfind_from_lem (n + 1) bytes sub)
]

never : (bytes sub : List ℕ) → length bytes < length sub → IsFirst bytes sub none
unfolding IsFirst
never bytes sub h k at =
    true≢false (sym at ∙ too_short (drop k bytes) sub (omega (arith, length-drop k bytes)))

unshifted : (found : Option ℕ) → shifted 0 found ≡ found
unshifted none = refl
unshifted (some i) = ap some (omega arith)

-- `memfind` returns the first position at which `sub` stands in the buffer, and none exactly if it
-- stands nowhere.
pub memfind-IsFirst : (bytes sub : List ℕ) → IsFirst bytes sub (memfind bytes sub)
unfolding memfind
memfind-IsFirst bytes sub = elim (Bool-cases (ltb (length bytes) (length sub))) [
  | inl short ↦
      subst (IsFirst bytes sub) (sym (ground (arith, short)))
        (never bytes sub (ltb→lt (length bytes) (length sub) short))
  | inr long ↦
      let (found, (result, first)) = memfind_from_lem 0 bytes sub in
      subst (IsFirst bytes sub) (sym (ground (arith, long, result, unshifted found))) first
]
