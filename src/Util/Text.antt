-- ===== src/Util/Text.antt =====
-- src/util.cpp: `strcasecmp` and `get_suffix`, with the calls of the C library that the HTTP session
-- makes on text. A text ends with its list, or with a 0 in it.
use Prim.Native.Nat.{Ordering}
use xixi.Prelude.{
  ℕ, zero, suc, ◌+◌, ◌-◌, ◌%◌, Bool, true, false, ◌&&◌, Option, none, some, List, [], ◌∷◌, ltb, leb,
  ◌==◌, if◌then◌else◌,
}
use xixi.Util.{memfind_from}

-- The bytes before the first `c`, and those behind it: `memchr`, with what the callers make of it.
unfoldable pub memchr : ℕ → List ℕ → Option (List ℕ × List ℕ)
memchr c [] = none
memchr c (x ∷ xs) =
    let rest = memchr c xs in
    if x == c
    then some ([], xs)
    else elim rest [ none ↦ none | some (before, after) ↦ some (x ∷ before, after) ]

-- The bytes before the end of a C string.
unfoldable pub c_string : List ℕ → List ℕ
c_string [] = []
c_string (c ∷ text) = if c == 0 then [] else c ∷ c_string text

-- The offset that `strstr` returns.
unfoldable pub strstr : List ℕ → List ℕ → Option ℕ
unfolding memfind_from c_string
strstr text sub = memfind_from 0 (c_string text) sub

-- The offset of the last `c`, if there is one.
unfoldable pub last_of : ℕ → List ℕ → Option ℕ
last_of c [] = none
last_of c (x ∷ xs) = elim (last_of c xs) [
  | some i ↦ some (suc i)
  | none ↦ if x == c then some 0 else none
]

unfoldable pub strrchr : ℕ → List ℕ → Option ℕ
unfolding last_of c_string
strrchr c text = last_of c (c_string text)

abbrev pub upper : ℕ → ℕ
upper c = if leb 97 c && leb c 122 then c - 32 else c

-- `char` is signed: the bytes from 128 on come first.
abbrev pub signed_order : ℕ → ℕ
signed_order c = (c + 128) % 256

-- The result 0 is `eq`, 1 is `gt` and -1 is `lt`. The texts hold at least `length` bytes.
unfoldable pub strcasecmp : List ℕ → List ℕ → ℕ → Ordering
strcasecmp text1 text2 zero = Ordering.eq
strcasecmp [] text2 (suc n) = Ordering.eq
strcasecmp (c1 ∷ text1) [] (suc n) = Ordering.eq
strcasecmp (c1 ∷ text1) (c2 ∷ text2) (suc n) =
    let rest = strcasecmp text1 text2 n in
    if upper c1 == upper c2
    then rest
    else if ltb (signed_order (upper c2)) (signed_order (upper c1))
    then Ordering.gt
    else Ordering.lt

-- `strcasecmp(...) == 0`
abbrev pub is_same : Ordering → Bool
is_same Ordering.eq = true
is_same _ = false

-- The loop of `get_suffix` over the bytes from the last one back, at most ten of them; the suffix so
-- far goes along.
unfoldable pub suffix_from : ℕ → List ℕ → List ℕ → Option (List ℕ)
suffix_from zero back suffix = none
suffix_from (suc count) [] suffix = none
suffix_from (suc count) (c ∷ back) suffix =
    let rest = suffix_from count back (c ∷ suffix) in if c == 46 then some suffix else rest

unfoldable pub reversed_onto : List ℕ → List ℕ → List ℕ
reversed_onto [] back = back
reversed_onto (c ∷ text) back = reversed_onto text (c ∷ back)

-- The suffix behind the last dot; none for NULL.
unfoldable pub get_suffix : List ℕ → Option (List ℕ)
unfolding suffix_from reversed_onto
get_suffix key = suffix_from 10 (reversed_onto key []) []
