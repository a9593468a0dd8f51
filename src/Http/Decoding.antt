-- ===== src/Http/Decoding.antt =====
-- src/peer_http.cpp: `decode_uri` reads back what a client encodes with percent signs.
use xixi.Prelude.{
  ℕ, zero, suc, ◌+◌, ◌*◌, ◌/◌, ◌%◌, ◌≤◌, ◌<◌, ◌≡◌, refl, inl, inr, Bool, true, ◌&&◌, ◌||◌, List, [],
  ◌∷◌, arith, ltb, leb, ◌==◌, if◌then◌else◌, Bool-cases, length, All,
}
use xixi.Http.Text.{hex_value, escape_length, decode_from}

-- Letters, digits and the marks that a URI holds as they are.
abbrev pub is_unreserved : ℕ → Bool
is_unreserved c =
    (leb b'0' c && leb c b'9')
    || (leb b'A' c && leb c b'Z')
    || (leb b'a' c && leb c b'z')
    || c == b'-'
    || c == b'.'
    || c == b'_'
    || c == b'~'

-- The hexadecimal digit of a number below 16, in capitals.
abbrev hex_digit : ℕ → ℕ
hex_digit n = if ltb n 10 then n + 48 else n + 55

-- The encoding of a text by the rules for URIs.
unfoldable pub percent_encode : List ℕ → List ℕ
percent_encode [] = []
percent_encode (c ∷ text) =
    if is_unreserved c
    then c ∷ percent_encode text
    else b'%' ∷ hex_digit (c / 16) ∷ hex_digit (c % 16) ∷ percent_encode text

abbrev pub IsByte : ℕ → Type 0
IsByte c = c < 256

hex_value-hex_digit : (n : ℕ) → n < 16 → hex_value (hex_digit n) ≡ n
hex_value-hex_digit n h = ground (arith, h)

decode_plain :
    (c : ℕ) (rest : List ℕ)
    → is_unreserved c ≡ true
    → decode_from 0 (c ∷ rest) ≡ c ∷ decode_from 0 rest
unfolding decode_from
decode_plain c rest h = ground (arith, h)

decode_escape :
    (h l : ℕ) (rest : List ℕ)
    → decode_from 0 (37 ∷ h ∷ l ∷ rest)
      ≡ ((hex_value h * 16 + hex_value l % 16) % 256) ∷ decode_from 0 rest
unfolding decode_from
decode_escape h l rest = refl

decode_empty : decode_from 0 [] ≡ []
unfolding decode_from
decode_empty = refl

joined : (x y c : ℕ) → x ≡ c / 16 → y ≡ c % 16 → c < 256 → (x * 16 + y % 16) % 256 ≡ c
joined x y c high low h = omega (arith, high, low, h)

escape_value :
    (c : ℕ)
    → c < 256
    → (hex_value (hex_digit (c / 16)) * 16 + hex_value (hex_digit (c % 16)) % 16) % 256 ≡ c
escape_value c h =
    joined (hex_value (hex_digit (c / 16))) (hex_value (hex_digit (c % 16))) c
      (hex_value-hex_digit (c / 16) (omega (arith, h))) (hex_value-hex_digit (c % 16) (omega arith))
      h

-- A text of bytes, encoded and decoded, is the text again.
pub decode_from-percent_encode :
    (text : List ℕ) → All IsByte text → decode_from 0 (percent_encode text) ≡ text
unfolding percent_encode
decode_from-percent_encode [] all = decode_empty
decode_from-percent_encode (c ∷ text) (byte, bytes) = elim (Bool-cases (is_unreserved c)) [
  | inl e ↦ simp (e, decode_plain c (percent_encode text) e, decode_from-percent_encode text bytes)
  | inr e ↦ simp (
    e,
    decode_escape (hex_digit (c / 16)) (hex_digit (c % 16)) (percent_encode text),
    escape_value c byte,
    decode_from-percent_encode text bytes,
  )
]

-- A decoded text is at most as long as what it is read from, so that its region has room for it.
pub length-decode_from :
    (skipped : ℕ) (uri : List ℕ) → length (decode_from skipped uri) ≤ length uri
unfolding decode_from
length-decode_from skipped [] = omega arith
length-decode_from (suc skipped) (c ∷ uri) = omega (arith, length-decode_from skipped uri)
length-decode_from zero (c ∷ uri) =
    ground (arith, length-decode_from (if c == 37 then escape_length uri else 0) uri)
