-- ===== src/CacheBuffer/Regions.antt =====
-- src/cache_buffer.hpp: the regions that Cache_Buffer hands out fit their blocks and do not overlap.
use xixi.Prelude.{
  ℕ, zero, suc, ◌+◌, ◌%◌, ◌^◌, ◌≤◌, ◌<◌, ◌≡◌, refl, ◌∙◌, ◌≢◌, ◌⊎◌, inl, inr, Bool, true, false,
  Option, none, some, List, [], ◌∷◌, arith, ltb, leb, ◌==◌, leb→le, Bool-cases, update, length,
}
use xixi.CacheBuffer.{CacheBuffer, extend, extended, prepare, store_bytes, load_bytes, put}

-- The block that regions come from.
abbrev current : List (ℕ × ℕ) → ℕ
current [] = 0
current ((block, buf_size) ∷ older) = block

-- The built-in block is in use up to its size, and after it only blocks from `malloc`.
abbrev Fits : ℕ → List (ℕ × ℕ) → ℕ → ℕ → ℕ → Type 0
Fits base_size [] total offset next = (offset ≡ total) × (total ≤ base_size) × (0 < next)
Fits base_size ((block, buf_size) ∷ older) total offset next =
    (base_size < total) × (0 < block) × (block < next) × (offset ≤ buf_size) × (offset ≤ total)

abbrev pub IsSound : ℕ → CacheBuffer → Type 0
IsSound base_size b = Fits base_size b.extends b.total_size b.offset b.next_block

-- A region that was handed out: in the current block below the offset, or in an earlier block.
abbrev pub IsTaken : CacheBuffer → ℕ → ℕ → ℕ → Type 0
IsTaken b block offset size =
    ((block ≡ current b.extends) × (offset + size ≤ b.offset))
    ⊎ ((block ≢ current b.extends) × (block < b.next_block))

-- The region at `block` and `offset` is new, and all that was handed out before lies elsewhere.
pub record Gives (base_size size : ℕ) (b c : CacheBuffer) (block offset : ℕ) : Type 0 where
  pub sound : IsSound base_size c
  pub contents : c.contents ≡ b.contents
  pub taken : IsTaken c block offset size
  pub still : (k o n : ℕ) → IsTaken b k o n → IsTaken c k o n
  pub apart : (k o n : ℕ) → IsTaken b k o n → (k ≢ block) ⊎ (o + n ≤ offset)

-- Nothing was handed out.
pub record Refuses (base_size : ℕ) (b c : CacheBuffer) : Type 0 where
  pub sound : IsSound base_size c
  pub contents : c.contents ≡ b.contents
  pub still : (k o n : ℕ) → IsTaken b k o n → IsTaken c k o n

abbrev pub Prepares : ℕ → ℕ → CacheBuffer → Option (ℕ × ℕ) × CacheBuffer → Type 0
Prepares base_size size b (none, c) = Refuses base_size b c
Prepares base_size size b (some (block, offset), c) = Gives base_size size b c block offset

-- A buffer whose blocks are these.
abbrev with_blocks : List (ℕ × ℕ) → CacheBuffer → CacheBuffer
with_blocks blocks b = record b { extends = blocks }

extend-Prepares :
    (base_size size : ℕ) (blocks : List (ℕ × ℕ)) (answers : List Bool) (b : CacheBuffer)
    → IsSound base_size (record b { extends = blocks; mallocs = answers })
    → b.total_size + size < 2 ^ 32
    → base_size < b.total_size + size
    → Prepares base_size size
        (record b { extends = blocks; mallocs = answers })
        (extend base_size size (record b { extends = blocks; mallocs = answers }))
unfolding extend
extend-Prepares base_size size blocks [] b v h more = record {
  sound = v;
  contents = refl;
  still = λ k o n t. t;
}
extend-Prepares base_size size blocks (false ∷ rest) b v h more = record {
  sound = v;
  contents = refl;
  still = λ k o n t. t;
}
extend-Prepares base_size size [] (true ∷ rest) b v h more = record {
  sound = ground (arith, v, h, more);
  contents = refl;
  taken = ground (arith, v, h);
  still = λ k o n t. ground (arith, v, t);
  apart = λ k o n t. ground (arith, v, t);
}
extend-Prepares base_size size ((block, buf_size) ∷ older) (true ∷ rest) b v h more = record {
  sound = ground (arith, v, h, more);
  contents = refl;
  taken = ground (arith, v, h);
  still = λ k o n t. ground (arith, v, t);
  apart = λ k o n t. ground (arith, v, t);
}

-- A region of the block that is in use.
hand_out-Gives :
    (base_size size : ℕ) (b : CacheBuffer)
    → IsSound base_size b
    → b.total_size + size < 2 ^ 32
    → IsSound base_size (record b {
      offset = (b.offset + size) % 2 ^ 32;
      total_size = (b.total_size + size) % 2 ^ 32;
    })
    → b.offset + size < 2 ^ 32
    → Gives base_size size b
        (record b {
          offset = (b.offset + size) % 2 ^ 32;
          total_size = (b.total_size + size) % 2 ^ 32;
        })
        (current b.extends)
        b.offset
hand_out-Gives base_size size b v h w fits = record {
  sound = w;
  contents = refl;
  taken = inl (refl, omega (arith, fits));
  still = λ k o n t. ground (arith, fits, t);
  apart = λ k o n t. ground (arith, t);
}

-- `prepare` of a sound buffer keeps it sound. The region that it hands out is taken from then on, lies apart
-- from all regions taken before, and those stay taken with their bytes; or memory has run out, and no
-- region changes.
pub prepare-Prepares :
    (base_size size : ℕ) (b : CacheBuffer)
    → IsSound base_size b
    → b.total_size + size < 2 ^ 32
    → Prepares base_size size b (prepare base_size size b)
unfolding prepare extended
prepare-Prepares base_size size b v h =
    elim (Bool-cases (leb ((size + b.total_size) % 2 ^ 32) base_size)) [
      | inl t ↦ rw t (base b.extends v (leb→le _ _ t))
      | inr f ↦ rw f (beyond b.extends v (ground (arith, f, h)))
    ]
  where
    base :
        (blocks : List (ℕ × ℕ))
        → IsSound base_size (record b { extends = blocks })
        → (size + b.total_size) % 2 ^ 32 ≤ base_size
        → Gives base_size size
            (record b { extends = blocks })
            (record b {
              extends = blocks;
              offset = (b.offset + size) % 2 ^ 32;
              total_size = (b.total_size + size) % 2 ^ 32;
            })
            0
            b.offset
    base [] v t =
        hand_out-Gives base_size size (record b { extends = [] }) v h (ground (arith, v, t, h))
          (ground (arith, v, h))
    base (x ∷ older) v t = ground (arith, v, t, h)

    beyond :
        (blocks : List (ℕ × ℕ))
        → IsSound base_size (record b { extends = blocks })
        → base_size < b.total_size + size
        → Prepares base_size size
            (record b { extends = blocks })
            (extended base_size size blocks (record b { extends = blocks }))
    beyond [] v more = extend-Prepares base_size size [] b.mallocs b v h more
    beyond ((block, buf_size) ∷ older) v more =
        elim (Bool-cases (ltb buf_size ((size + b.offset) % 2 ^ 32))) [
          | inl t ↦
              rw t (extend-Prepares base_size size ((block, buf_size) ∷ older) b.mallocs b v h more)
          | inr f ↦ rw f (
              hand_out-Gives base_size size (record b { extends = (block, buf_size) ∷ older }) v h
                (ground (arith, v, f, h)) (ground (arith, v, h)))
        ]

store_before :
    (offset : ℕ) (bytes : List ℕ) (memory : ℕ → ℕ) (i : ℕ)
    → i < offset
    → store_bytes offset bytes memory i ≡ memory i
unfolding store_bytes
store_before offset [] memory i h = refl
store_before offset (x ∷ bytes) memory i h =
    store_before (offset + 1) bytes (update memory offset x) i (omega (arith, h))
    ∙ ground (arith, h)

load_same :
    (offset size : ℕ) (f g : ℕ → ℕ)
    → ((i : ℕ) → i < offset + size → g i ≡ f i)
    → load_bytes offset size g ≡ load_bytes offset size f
unfolding load_bytes
load_same offset zero f g h = refl
load_same offset (suc size) f g h =
    rw (h offset (omega arith), load_same (offset + 1) size f g λ i l. h i (omega (arith, l)))

load-store :
    (offset : ℕ) (bytes : List ℕ) (memory : ℕ → ℕ)
    → load_bytes offset (length bytes) (store_bytes offset bytes memory) ≡ bytes
unfolding load_bytes store_bytes
load-store offset [] memory = refl
load-store offset (x ∷ bytes) memory =
    rw
      (
        store_before (offset + 1) bytes (update memory offset x) offset (omega arith),
        load-store (offset + 1) bytes (update memory offset x),
      )
      (ground arith)

-- The bytes of a region.
abbrev pub region : CacheBuffer → ℕ → ℕ → ℕ → List ℕ
region b block offset size = load_bytes offset size (b.contents block)

-- Bytes put in a region are read there.
pub region-put :
    (block offset : ℕ) (bytes : List ℕ) (b : CacheBuffer)
    → region (put block offset bytes b) block offset (length bytes) ≡ bytes
unfolding put
region-put block offset bytes b =
    let here : (block == block) ≡ true = ground arith in
    rw here (load-store offset bytes (b.contents block))

-- They do not change a region that lies before, or in another block.
pub region-put_apart :
    (block offset : ℕ) (bytes : List ℕ) (b : CacheBuffer) (k o n : ℕ)
    → (k ≢ block) ⊎ (o + n ≤ offset)
    → region (put block offset bytes b) k o n ≡ region b k o n
unfolding put
region-put_apart block offset bytes b k o n h = elim (Bool-cases (block == k)) [
  | inl t ↦
      let same : k ≡ block = ground (arith, t) in
      rw t (
        load_same o n (b.contents k) (store_bytes offset bytes (b.contents block)) λ i l.
          store_before offset bytes (b.contents block) i (ground (arith, h, same, l)) ∙ rw same)
  | inr f ↦ rw f
]
