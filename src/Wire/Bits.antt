-- ===== src/Wire/Bits.antt =====
-- `|` on fields that do not overlap is a sum, at every width: what the swaps of src/util.h rest on.
use Prim.Native.Nat.{bit_or, bit_or-bitwise, digits, max}
use native.Mathlib.Nat.{pow-suc}
use xixi.Prelude.{ℕ, zero, suc, ◌+◌, ◌*◌, ◌/◌, ◌%◌, ◌^◌, ◌≤◌, ◌<◌, ◌≡◌, refl, sym, ap, ◌∙◌, arith}

-- The recursion on binary digits that `bit_or` stands for, with its fuel.
abbrev or_digits : ℕ → ℕ → ℕ → ℕ
or_digits n a b = digits (λ y. y) max n a b

no_digits : (n b : ℕ) → or_digits n zero b ≡ b
no_digits zero b = refl
no_digits (suc n) b = refl

-- Two fuels that reach the number give the same.
same_fuel : (n m a b : ℕ) → a ≤ n → a ≤ m → or_digits n a b ≡ or_digits m a b
same_fuel n m zero b p q = no_digits n b ∙ sym (no_digits m b)
same_fuel (suc n) (suc m) (suc a) b p q =
    omega (arith, same_fuel n m (suc a / 2) (b / 2) (omega arith) (omega arith))
same_fuel zero m (suc a) b p q = absurd (omega arith)
same_fuel (suc n) zero (suc a) b p q = absurd (omega arith)

or_zero_left : (b : ℕ) → bit_or 0 b ≡ b
or_zero_left b = bit_or-bitwise 0 b

or_halves : (a b : ℕ) → bit_or a b ≡ bit_or (a / 2) (b / 2) * 2 + max (a % 2) (b % 2)
or_halves zero b = omega (arith, or_zero_left b, or_zero_left (b / 2))
or_halves (suc a) b = omega (
  arith,
  bit_or-bitwise (suc a) b,
  bit_or-bitwise (suc a / 2) (b / 2),
  same_fuel a (suc a / 2) (suc a / 2) (b / 2) (omega arith) (omega arith),
)

or_zero_fuel : (n a : ℕ) → a ≤ n → bit_or a 0 ≡ a
or_zero_fuel n zero h = or_zero_left 0
or_zero_fuel zero (suc a) h = absurd (omega arith)
or_zero_fuel (suc n) (suc a) h =
    omega (arith, or_halves (suc a) 0, or_zero_fuel n (suc a / 2) (omega arith))

-- A high field and a low one.
pub or_fields :
    (width high low : ℕ) → low < 2 ^ width → bit_or (high * 2 ^ width) low ≡ high * 2 ^ width + low
or_fields zero high low fits =
    let z : low ≡ 0 = omega arith in
    rw z (or_zero_fuel (high * 1) (high * 1) (omega arith) ∙ omega arith)
or_fields (suc width) high low fits =
    let double : high * 2 ^ suc width ≡ 2 * (high * 2 ^ width) =
      omega (arith, ap (λ (t : ℕ). high * t) (pow-suc 2 width)) in
    let half = or_fields width high (low / 2) (omega (arith, pow-suc 2 width)) in
    rw double (ground (arith, or_halves (2 * (high * 2 ^ width)) low, half))
