-- ===== src/Http/Text.antt =====
-- src/peer_http.cpp: the parts of Peer_Http that only read text: the arguments of a request, the
-- decoding of a URI, and the lines of a header.
use xixi.Prelude.{
  ℕ, zero, suc, ◌+◌, ◌-◌, ◌*◌, ◌%◌, ◌&&◌, Option, none, some, List, [], ◌∷◌, leb, ◌==◌,
  if◌then◌else◌,
}
use xixi.Util.Text.{memchr}

-- The argument before an ampersand, or all that is left.
abbrev pub arg_or_all : List ℕ → Option (List ℕ × List ℕ) → Option (List ℕ × List ℕ)
arg_or_all args none = some (args, [])
arg_or_all args (some (arg, rest)) = some (arg, rest)

-- The next argument and the text behind it, of the text up to the end of the C string; none for NULL.
unfoldable pub get_arg : List ℕ → Option (List ℕ × List ℕ)
unfolding memchr
get_arg [] = none
get_arg (c ∷ args) = arg_or_all (c ∷ args) (memchr 38 (c ∷ args))

-- The value of a hexadecimal digit, in `char` arithmetic, and what the code makes of any other byte.
abbrev pub hex_value : ℕ → ℕ
hex_value c =
    if leb 48 c && leb c 57
    then c - 48
    else if leb 97 c && leb c 102
    then c - 97 + 10
    else (c + 256 - 65 + 10) % 256

-- The byte that `%` stands for, with the two bytes behind it.
abbrev pub escaped : List ℕ → ℕ
escaped (c1 ∷ c2 ∷ rest) = (hex_value c1 * 16 + hex_value c2 % 16) % 256
escaped _ = 37

-- How many bytes behind `%` belong to it.
abbrev pub escape_length : List ℕ → ℕ
escape_length (c1 ∷ c2 ∷ rest) = 2
escape_length _ = 0

abbrev pub decoded_byte : ℕ → List ℕ → ℕ
decoded_byte c rest = if c == 43 then 32 else if c == 37 then escaped rest else c

-- The loop of `decode_uri`; the number says how many bytes still belong to an escape.
unfoldable pub decode_from : ℕ → List ℕ → List ℕ
decode_from skipped [] = []
decode_from (suc skipped) (c ∷ uri) = decode_from skipped uri
decode_from zero (c ∷ uri) =
    let rest = decode_from (if c == 37 then escape_length uri else 0) uri in
    if c == 0 then [] else decoded_byte c uri ∷ rest

-- The value of a header field, without the `\r` before the end of its line.
unfoldable pub without_cr : List ℕ → List ℕ
without_cr [] = []
without_cr (c ∷ []) = if c == 13 then [] else c ∷ []
without_cr (c ∷ d ∷ line) = c ∷ without_cr (d ∷ line)

-- `while (*p == ' ') p++`
unfoldable pub skip_blanks : List ℕ → List ℕ
skip_blanks [] = []
skip_blanks (c ∷ text) = if c == 32 then skip_blanks text else c ∷ text

-- A header field's name and value, and the lines behind it; none where no line follows.
pub record Field : Type 0 where
  pub name : List ℕ
  pub value : List ℕ
  pub rest : Option (List ℕ)

abbrev field_value : List ℕ → List ℕ → Option (List ℕ × List ℕ) → Field
field_value name value none = record { name = name; value = value; rest = none }
field_value name value (some (line, rest)) = record {
  name = name;
  value = without_cr line;
  rest = some rest;
}

abbrev field_at : Option (List ℕ × List ℕ) → Option Field
field_at none = none
field_at (some (name, after)) =
    some (field_value name (skip_blanks after) (memchr 10 (skip_blanks after)))

-- What the loop of `process_request_header_fields` takes from the front of the fields.
unfoldable pub next_field : List ℕ → Option Field
unfolding memchr skip_blanks without_cr
next_field fields = field_at (memchr 58 fields)
