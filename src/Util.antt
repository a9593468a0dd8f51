-- ===== src/Util.antt =====
-- src/util.cpp: the decimal parsers, the search in a buffer and the letter cases. A buffer is a list
-- of character codes, as long as the length that goes with it.
pub mod Decimal
pub mod Search
pub mod Text
use xixi.Prelude.{
  ℕ, ◌+◌, ◌-◌, ◌*◌, ◌%◌, ◌^◌, Bool, true, false, ◌&&◌, ◌||◌, Option, none, some, List, [], ◌∷◌, ltb,
  leb, ◌==◌, if◌then◌else◌, length,
}

-- `isspace` and `isdigit` of the C locale.
abbrev pub is_space : ℕ → Bool
is_space c = (c == 32) || (leb 9 c && leb c 13)

abbrev pub is_digit : ℕ → Bool
is_digit c = leb 48 c && leb c 57

unfoldable pub skip_spaces : List ℕ → List ℕ
skip_spaces [] = []
skip_spaces (c ∷ data_left) = if is_space c then skip_spaces data_left else c ∷ data_left

-- The loop over the digits, in unsigned numbers of `width` bits; it stops at the first other
-- character, and fails where the sum is less than what it was.
unfoldable pub digits_from : ℕ → ℕ → List ℕ → Option ℕ
digits_from width ret [] = some ret
digits_from width ret (c ∷ data_left) =
    let temp = (ret * 10 + (c - 48)) % 2 ^ width in
    let rest = digits_from width temp data_left in
    if is_digit c then if ltb temp ret then none else rest else some ret

-- `safe_toui64` and `safe_toui32` after the spaces. At the end of the text the source reads one character
-- more, past the given length; it is taken for one that is no sign.
unfoldable pub unsigned_from : ℕ → List ℕ → Option ℕ
unsigned_from width [] = some 0
unsigned_from width (c ∷ data_left) =
    if c == 45
    then none
    else if c == 43
    then digits_from width 0 data_left
    else digits_from width 0 (c ∷ data_left)

-- None stands for `return false`.
unfoldable pub safe_toui64 : List ℕ → Option ℕ
safe_toui64 [] = none
safe_toui64 (c ∷ data_left) = unsigned_from 64 (skip_spaces (c ∷ data_left))

unfoldable pub safe_toui32 : List ℕ → Option ℕ
safe_toui32 [] = none
safe_toui32 (c ∷ data_left) = unsigned_from 32 (skip_spaces (c ∷ data_left))

-- The loop of `safe_toi64`, in signed numbers of 64 bits that wrap; the sum so far is never negative.
unfoldable pub signed_digits_from : ℕ → List ℕ → Option ℕ
signed_digits_from ret [] = some ret
signed_digits_from ret (c ∷ data_left) =
    let temp = (ret * 10 + (c - 48)) % 2 ^ 64 in
    let rest = signed_digits_from temp data_left in
    if is_digit c then if leb (2 ^ 63) temp || ltb temp ret then none else rest else some ret

-- The 64 bits of the negated number.
abbrev pub negate : ℕ → ℕ
negate x = (2 ^ 64 - x % 2 ^ 64) % 2 ^ 64

abbrev negated : Option ℕ → Option ℕ
negated none = none
negated (some x) = some (negate x)

unfoldable pub signed_from : List ℕ → Option ℕ
unfolding signed_digits_from
signed_from [] = some 0
signed_from (c ∷ data_left) =
    if c == 45
    then negated (signed_digits_from 0 data_left)
    else if c == 43
    then signed_digits_from 0 data_left
    else signed_digits_from 0 (c ∷ data_left)

-- The 64 bits of `out` in two's complement; none stands for `return false`.
unfoldable pub safe_toi64 : List ℕ → Option ℕ
unfolding skip_spaces signed_from
safe_toi64 [] = none
safe_toi64 (c ∷ data_left) = signed_from (skip_spaces (c ∷ data_left))

unfoldable pub starts_with : List ℕ → List ℕ → Bool
starts_with bytes [] = true
starts_with [] (s ∷ sub) = false
starts_with (b ∷ bytes) (s ∷ sub) = if b == s then starts_with bytes sub else false

-- The loop of `memfind` over the positions `i` that leave room for `sub`.
unfoldable pub memfind_from : ℕ → List ℕ → List ℕ → Option ℕ
memfind_from i [] sub = if starts_with [] sub then some i else none
memfind_from i (b ∷ bytes) sub =
    if starts_with (b ∷ bytes) sub then some i else memfind_from (i + 1) bytes sub

-- The offset that `memfind` returns; none for NULL.
unfoldable pub memfind : List ℕ → List ℕ → Option ℕ
memfind bytes sub = if ltb (length bytes) (length sub) then none else memfind_from 0 bytes sub

unfoldable pub to_lower : List ℕ → List ℕ
to_lower [] = []
to_lower (c ∷ buf) = (if leb 65 c && leb c 90 then c + 32 else c) ∷ to_lower buf
