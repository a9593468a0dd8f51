-- ===== src/Util/Decimal.antt =====
-- The decimal parsers of src/util.cpp.
use xixi.Util.{skip_spaces, digits_from, unsigned_from, safe_toui64}
use native.Mathlib.Nat.{mod-eq_of_lt}
use xixi.Prelude.{ℕ, ◌+◌, ◌-◌, ◌*◌, ◌%◌, ◌^◌, ◌≤◌, ◌<◌, ◌≡◌, refl, some, List, [], ◌∷◌, arith, All}

-- The number that a list of digits writes after the digits of `n`.
unfoldable pub decimal : ℕ → List ℕ → ℕ
decimal n [] = n
decimal n (c ∷ text) = decimal (n * 10 + (c - 48)) text

abbrev pub IsDigit : ℕ → Type 0
IsDigit c = (48 ≤ c) × (c ≤ 57)

grows : (n : ℕ) (text : List ℕ) → n ≤ decimal n text
unfolding decimal
grows n [] = omega arith
grows n (c ∷ text) = omega (arith, grows (n * 10 + (c - 48)) text)

digits_from_lem :
    (width n : ℕ) (text : List ℕ)
    → All IsDigit text
    → decimal n text < 2 ^ width
    → digits_from width n text ≡ some (decimal n text)
unfolding decimal digits_from
digits_from_lem width n [] _ h = refl
digits_from_lem width n (c ∷ text) ((low, high), digits) h =
    let fits = grows (n * 10 + (c - 48)) text in
    let whole : (n * 10 + (c - 48)) % 2 ^ width ≡ n * 10 + (c - 48) = mod-eq_of_lt (omega arith) in
    let rest = digits_from_lem width (n * 10 + (c - 48)) text digits h in
    rw whole (ground (arith, rest))

no_space : (c : ℕ) (data_left : List ℕ) → IsDigit c → skip_spaces (c ∷ data_left) ≡ c ∷ data_left
unfolding skip_spaces
no_space c data_left (low, high) = ground arith

unsigned_from_lem :
    (width c : ℕ) (data_left : List ℕ)
    → IsDigit c
    → unsigned_from width (c ∷ data_left) ≡ digits_from width 0 (c ∷ data_left)
unfolding unsigned_from
unsigned_from_lem width c data_left (low, high) = ground arith

-- A non-empty text of digits whose value fits 64 bits is read as that value.
pub safe_toui64_digits :
    (c : ℕ) (text : List ℕ)
    → All IsDigit (c ∷ text)
    → decimal 0 (c ∷ text) < 2 ^ 64
    → safe_toui64 (c ∷ text) ≡ some (decimal 0 (c ∷ text))
unfolding safe_toui64
safe_toui64_digits c text (first, digits) h =
    rw (no_space c text first, unsigned_from_lem 64 c text first)
      (digits_from_lem 64 0 (c ∷ text) (first, digits) h)
