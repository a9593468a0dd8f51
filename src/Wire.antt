-- ===== src/Wire.antt =====
-- src/util.h: the byte swaps and the ENCODE and DECODE macros of a little-endian host, on which the
-- wire carries the big-endian bytes of a number. A buffer is a list of bytes.
pub mod Bits
pub mod RoundTrip
use Prim.Native.Nat.{bit_or}
use xixi.Prelude.{ℕ, zero, suc, ◌+◌, ◌*◌, ◌/◌, ◌%◌, ◌^◌, Option, none, some, List, [], ◌∷◌}

-- `(t << 8) | (t >> 8)`, cut to 16 bits by the return type.
unfoldable pub swap16 : ℕ → ℕ
swap16 t = bit_or (t * 2 ^ 8) (t / 2 ^ 8) % 2 ^ 16

-- `t2 | (t1 << 16)`
unfoldable pub swap32 : ℕ → ℕ
swap32 t =
    let t1 = swap16 (t % 2 ^ 16) in
    let t2 = swap16 (t / 2 ^ 16 % 2 ^ 16) in bit_or (t1 * 2 ^ 16) t2 % 2 ^ 32

unfoldable pub swap64 : ℕ → ℕ
swap64 t =
    let t1 = swap32 (t % 2 ^ 32) in
    let t2 = swap32 (t / 2 ^ 32 % 2 ^ 32) in bit_or (t1 * 2 ^ 32) t2 % 2 ^ 64

-- The bytes that a little-endian host stores for a number, the lowest first.
unfoldable pub store : ℕ → ℕ → List ℕ
store zero x = []
store (suc n) x = x % 2 ^ 8 ∷ store n (x / 2 ^ 8)

-- The number that it loads, and the rest of the buffer; none past the end of the buffer.
unfoldable pub load : ℕ → List ℕ → Option (ℕ × List ℕ)
load zero bytes = some (0, bytes)
load (suc n) [] = none
load (suc n) (b ∷ bytes) = elim (load n bytes) [
  | none ↦ none
  | some (x, rest) ↦ some (b + x * 2 ^ 8, rest)
]

unfoldable pub encode_uint8 : ℕ → List ℕ
encode_uint8 x = store 1 x

unfoldable pub encode_uint16 : ℕ → List ℕ
encode_uint16 x = store 2 (swap16 (x % 2 ^ 16))

unfoldable pub encode_uint32 : ℕ → List ℕ
encode_uint32 x = store 4 (swap32 (x % 2 ^ 32))

unfoldable pub encode_uint64 : ℕ → List ℕ
encode_uint64 x = store 8 (swap64 (x % 2 ^ 64))

-- What a decoder reads from the front of a buffer.
abbrev pub Decoder : Type 0 → Type 0
Decoder A = List ℕ → Option (A × List ℕ)

abbrev pub pure : {A : Type 0} → A → Decoder A
pure a bytes = some (a, bytes)

infixl 5 ◌>>=◌
abbrev pub ◌>>=◌ : {A B : Type 0} → Decoder A → (A → Decoder B) → Decoder B
◌>>=◌ d f bytes = elim (d bytes) [ none ↦ none | some (a, rest) ↦ f a rest ]

unfoldable pub decode_uint8 : Decoder ℕ
decode_uint8 = load 1

unfoldable pub decode_uint16 : Decoder ℕ
decode_uint16 = load 2 >>= λ x. pure (swap16 x)

unfoldable pub decode_uint32 : Decoder ℕ
decode_uint32 = load 4 >>= λ x. pure (swap32 x)

unfoldable pub decode_uint64 : Decoder ℕ
decode_uint64 = load 8 >>= λ x. pure (swap64 x)
