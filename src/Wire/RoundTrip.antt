-- ===== src/Wire/RoundTrip.antt =====
-- The macros of src/util.h against the big-endian bytes of a number.
use native.Mathlib.Nat.{pow-suc}
use xixi.Wire.{
  swap16, swap32, swap64, store, load, encode_uint8, encode_uint16, encode_uint32, encode_uint64,
  Decoder, pure, ◌>>=◌, decode_uint8, decode_uint16, decode_uint32, decode_uint64,
}
use xixi.Wire.Bits.{or_fields}
use xixi.Prelude.{
  ℕ, zero, suc, ◌+◌, ◌*◌, ◌/◌, ◌%◌, ◌^◌, ◌<◌, ◌≡◌, refl, sym, ap, ◌∙◌, some, List, [], ◌∷◌, ◌++◌,
  append-nil, append_assoc, arith, length, length-append,
}

-- The `n` bytes of a number, the highest first.
unfoldable pub big_endian : ℕ → ℕ → List ℕ
big_endian zero x = []
big_endian (suc n) x = big_endian n (x / 256) ++ (x % 256 ∷ [])

grow : (n x : ℕ) → x < 256 ^ suc n → x / 256 < 256 ^ n
grow n x h = omega (arith, pow-suc 256 n)

split : (n high low : ℕ) → high * 256 ^ suc n + low ≡ 256 * (high * 256 ^ n) + low
split n high low = omega (arith, ap (λ (t : ℕ). high * t) (pow-suc 256 n))

tail : (n high low : ℕ) → (high * 256 ^ suc n + low) / 256 ≡ high * 256 ^ n + low / 256
tail n high low = omega (arith, split n high low)

last : (n high low : ℕ) → (high * 256 ^ suc n + low) % 256 ≡ low % 256
last n high low = omega (arith, split n high low)

big_endian-add :
    (n m high low : ℕ)
    → low < 256 ^ n
    → big_endian (n + m) (high * 256 ^ n + low) ≡ big_endian m high ++ big_endian n low
unfolding big_endian
big_endian-add zero m high low h =
    let none_left : zero + m ≡ m = omega arith in
    let value : high * 256 ^ zero + low ≡ high = omega arith in
    rw (none_left, value) (sym (append-nil (big_endian m high)))
big_endian-add (suc n) m high low h =
    let longer : suc n + m ≡ suc (n + m) = omega arith in
    rw
      (longer, tail n high low, last n high low, big_endian-add n m high (low / 256) (grow n low h))
      (append_assoc (big_endian m high) (big_endian n (low / 256)) (low % 256 ∷ []))

store-add :
    (n m high low : ℕ)
    → low < 256 ^ n
    → store (n + m) (high * 256 ^ n + low) ≡ store n low ++ store m high
unfolding store
store-add zero m high low h =
    let none_left : zero + m ≡ m = omega arith in
    let value : high * 256 ^ zero + low ≡ high = omega arith in rw (none_left, value) refl
store-add (suc n) m high low h =
    let longer : suc n + m ≡ suc (n + m) = omega arith in
    rw (longer, tail n high low, last n high low, store-add n m high (low / 256) (grow n low h))
      refl

load-store : (n x : ℕ) → (rest : List ℕ) → x < 256 ^ n → load n (store n x ++ rest) ≡ some (x, rest)
unfolding store load
load-store zero x rest h = ap (λ (t : ℕ). some (t, rest)) (omega arith)
load-store (suc n) x rest h =
    rw (load-store n (x / 256) rest (grow n x h)) (ap (λ (t : ℕ). some (t, rest)) (omega arith))

swap16_fields : (t : ℕ) → t < 65536 → swap16 t ≡ t % 256 * 256 + t / 256
unfolding swap16
swap16_fields t h = omega (arith, or_fields 8 t (t / 256) (omega arith))

swap16_fits : (t : ℕ) → t < 65536 → swap16 t < 65536
swap16_fits t h = omega (arith, swap16_fields t h)

swap16_twice : (t : ℕ) → t < 65536 → swap16 (swap16 t) ≡ t
swap16_twice t h = omega (arith, swap16_fields t h, swap16_fields (swap16 t) (swap16_fits t h))

swap32_fields : (t : ℕ) → t < 2 ^ 32 → swap32 t ≡ swap16 (t % 65536) * 65536 + swap16 (t / 65536)
unfolding swap32
swap32_fields t h =
    let high = swap16_fits (t / 65536) (omega arith) in
    let field : t / 2 ^ 16 % 2 ^ 16 ≡ t / 65536 = omega arith in
    let low = swap16_fits (t % 65536) (omega arith) in
    rw field (omega (arith, or_fields 16 (swap16 (t % 65536)) (swap16 (t / 65536)) high))

swap32_fits : (t : ℕ) → t < 2 ^ 32 → swap32 t < 2 ^ 32
swap32_fits t h = omega (
  arith,
  swap32_fields t h,
  swap16_fits (t % 65536) (omega arith),
  swap16_fits (t / 65536) (omega arith),
)

swap32_pair :
    (a b : ℕ) → a < 65536 → b < 65536 → swap32 (a * 65536 + b) ≡ swap16 b * 65536 + swap16 a
swap32_pair a b p q =
    let low : (a * 65536 + b) % 65536 ≡ b = omega arith in
    let high : (a * 65536 + b) / 65536 ≡ a = omega arith in
    swap32_fields (a * 65536 + b) (omega arith) ∙ rw (low, high) refl

swap32_twice : (t : ℕ) → t < 2 ^ 32 → swap32 (swap32 t) ≡ t
swap32_twice t h =
    let a = t / 65536 in
    let b = t % 65536 in
    let p : a < 65536 = omega arith in
    let q : b < 65536 = omega arith in
    rw
      (
        swap32_fields t h,
        swap32_pair (swap16 b) (swap16 a) (swap16_fits b q) (swap16_fits a p),
        swap16_twice a p,
        swap16_twice b q,
      )
      (omega arith)

swap64_fields :
    (t : ℕ) → t < 2 ^ 64 → swap64 t ≡ swap32 (t % 4294967296) * 4294967296 + swap32 (t / 4294967296)
unfolding swap64
swap64_fields t h =
    let high = swap32_fits (t / 4294967296) (omega arith) in
    let field : t / 2 ^ 32 % 2 ^ 32 ≡ t / 4294967296 = omega arith in
    let low = swap32_fits (t % 4294967296) (omega arith) in
    rw field (omega (arith, or_fields 32 (swap32 (t % 4294967296)) (swap32 (t / 4294967296)) high))

swap64_fits : (t : ℕ) → t < 2 ^ 64 → swap64 t < 2 ^ 64
swap64_fits t h = omega (
  arith,
  swap64_fields t h,
  swap32_fits (t % 4294967296) (omega arith),
  swap32_fits (t / 4294967296) (omega arith),
)

swap64_pair :
    (a b : ℕ)
    → a < 2 ^ 32
    → b < 2 ^ 32
    → swap64 (a * 4294967296 + b) ≡ swap32 b * 4294967296 + swap32 a
swap64_pair a b p q =
    let low : (a * 4294967296 + b) % 4294967296 ≡ b = omega arith in
    let high : (a * 4294967296 + b) / 4294967296 ≡ a = omega arith in
    swap64_fields (a * 4294967296 + b) (omega arith) ∙ rw (low, high) refl

swap64_twice : (t : ℕ) → t < 2 ^ 64 → swap64 (swap64 t) ≡ t
swap64_twice t h =
    let a = t / 4294967296 in
    let b = t % 4294967296 in
    let p : a < 2 ^ 32 = omega arith in
    let q : b < 2 ^ 32 = omega arith in
    rw
      (
        swap64_fields t h,
        swap64_pair (swap32 b) (swap32 a) (swap32_fits b q) (swap32_fits a p),
        swap32_twice a p,
        swap32_twice b q,
      )
      (omega arith)

-- What the host stores for a swapped number is the number, the highest byte first.
store-swap16 : (t : ℕ) → t < 65536 → store 2 (swap16 t) ≡ big_endian 2 t
unfolding store big_endian
store-swap16 t h =
    let first : swap16 t % 256 ≡ t / 256 % 256 = omega (arith, swap16_fields t h) in
    let second : swap16 t / 256 % 256 ≡ t % 256 = omega (arith, swap16_fields t h) in
    rw (first, second) refl

store-swap32 : (t : ℕ) → t < 2 ^ 32 → store 4 (swap32 t) ≡ big_endian 4 t
store-swap32 t h =
    let a = t / 65536 in
    let b = t % 65536 in
    let p : a < 65536 = omega arith in
    let q : b < 65536 = omega arith in
    let whole : t ≡ a * 65536 + b = omega arith in
    ap (store 4) (swap32_fields t h)
    ∙ store-add 2 2 (swap16 b) (swap16 a) (swap16_fits a p)
    ∙ rw (store-swap16 a p, store-swap16 b q) (sym (big_endian-add 2 2 a b q))
    ∙ ap (big_endian 4) (sym whole)

store-swap64 : (t : ℕ) → t < 2 ^ 64 → store 8 (swap64 t) ≡ big_endian 8 t
store-swap64 t h =
    let a = t / 4294967296 in
    let b = t % 4294967296 in
    let p : a < 2 ^ 32 = omega arith in
    let q : b < 2 ^ 32 = omega arith in
    let whole : t ≡ a * 4294967296 + b = omega arith in
    ap (store 8) (swap64_fields t h)
    ∙ store-add 4 4 (swap32 b) (swap32 a) (swap32_fits a p)
    ∙ rw (store-swap32 a p, store-swap32 b q) (sym (big_endian-add 4 4 a b q))
    ∙ ap (big_endian 8) (sym whole)

-- What follows a decoder gets the value it read and the rest of the buffer.
pub bind_some :
    {A B : Type 0} (d : Decoder A) (f : A → Decoder B) (bytes : List ℕ) (a : A) (rest : List ℕ)
    → d bytes ≡ some (a, rest)
    → (d >>= f) bytes ≡ f a rest
bind_some d f bytes a rest h = rw (h, ◌>>=◌) refl

pub encode_uint8_lem : (x : ℕ) → x < 2 ^ 8 → encode_uint8 x ≡ big_endian 1 x
unfolding encode_uint8 store big_endian
encode_uint8_lem x h = refl

pub encode_uint16_lem : (x : ℕ) → x < 2 ^ 16 → encode_uint16 x ≡ big_endian 2 x
unfolding encode_uint16
encode_uint16_lem x h = let whole : x % 2 ^ 16 ≡ x = omega arith in rw whole (store-swap16 x h)

pub encode_uint32_lem : (x : ℕ) → x < 2 ^ 32 → encode_uint32 x ≡ big_endian 4 x
unfolding encode_uint32
encode_uint32_lem x h = let whole : x % 2 ^ 32 ≡ x = omega arith in rw whole (store-swap32 x h)

pub encode_uint64_lem : (x : ℕ) → x < 2 ^ 64 → encode_uint64 x ≡ big_endian 8 x
unfolding encode_uint64
encode_uint64_lem x h = let whole : x % 2 ^ 64 ≡ x = omega arith in rw whole (store-swap64 x h)

pub decode_uint8_lem :
    (x : ℕ) → (rest : List ℕ) → x < 2 ^ 8 → decode_uint8 (big_endian 1 x ++ rest) ≡ some (x, rest)
unfolding decode_uint8 store big_endian
decode_uint8_lem x rest h = load-store 1 x rest h

pub decode_uint16_lem :
    (x : ℕ) → (rest : List ℕ) → x < 2 ^ 16 → decode_uint16 (big_endian 2 x ++ rest) ≡ some (x, rest)
unfolding decode_uint16
decode_uint16_lem x rest h =
    let stored = ap (λ (t : List ℕ). load 2 (t ++ rest)) (sym (store-swap16 x h)) in
    let loaded = stored ∙ load-store 2 (swap16 x) rest (swap16_fits x h) in
    bind_some (load 2) (λ t. pure (swap16 t)) (big_endian 2 x ++ rest) (swap16 x) rest loaded
    ∙ ap (λ (t : ℕ). some (t, rest)) (swap16_twice x h)

pub decode_uint32_lem :
    (x : ℕ) → (rest : List ℕ) → x < 2 ^ 32 → decode_uint32 (big_endian 4 x ++ rest) ≡ some (x, rest)
unfolding decode_uint32
decode_uint32_lem x rest h =
    let stored = ap (λ (t : List ℕ). load 4 (t ++ rest)) (sym (store-swap32 x h)) in
    let loaded = stored ∙ load-store 4 (swap32 x) rest (swap32_fits x h) in
    bind_some (load 4) (λ t. pure (swap32 t)) (big_endian 4 x ++ rest) (swap32 x) rest loaded
    ∙ ap (λ (t : ℕ). some (t, rest)) (swap32_twice x h)

pub decode_uint64_lem :
    (x : ℕ) → (rest : List ℕ) → x < 2 ^ 64 → decode_uint64 (big_endian 8 x ++ rest) ≡ some (x, rest)
unfolding decode_uint64
decode_uint64_lem x rest h =
    let stored = ap (λ (t : List ℕ). load 8 (t ++ rest)) (sym (store-swap64 x h)) in
    let loaded = stored ∙ load-store 8 (swap64 x) rest (swap64_fits x h) in
    bind_some (load 8) (λ t. pure (swap64 t)) (big_endian 8 x ++ rest) (swap64 x) rest loaded
    ∙ ap (λ (t : ℕ). some (t, rest)) (swap64_twice x h)

-- A number of 64 bits that is encoded and decoded comes back, with what follows it in the buffer.
pub decode_uint64-encode_uint64 :
    (x : ℕ) (rest : List ℕ) → x < 2 ^ 64 → decode_uint64 (encode_uint64 x ++ rest) ≡ some (x, rest)
decode_uint64-encode_uint64 x rest h = rw (encode_uint64_lem x h) (decode_uint64_lem x rest h)

-- `n` bytes.
pub length-big_endian : (n x : ℕ) → length (big_endian n x) ≡ n
unfolding big_endian
length-big_endian zero x = refl
length-big_endian (suc n) x =
    omega
      (arith, length-append (big_endian n (x / 256)) (x % 256 ∷ []), length-big_endian n (x / 256))
