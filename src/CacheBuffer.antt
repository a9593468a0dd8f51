-- ===== src/CacheBuffer.antt =====
-- src/cache_buffer.hpp: Cache_Buffer, which hands out the memory of the replies. BASE_SIZE is an
-- argument. The built-in buffer is block 0, and the blocks from `malloc` are numbered as they come.
pub mod Regions
use xixi.Prelude.{
  ℕ, zero, suc, ◌+◌, ◌%◌, ◌^◌, Bool, Option, none, some, List, [], ◌∷◌, ltb, leb, if◌then◌else◌,
  update,
}

-- `extends` is the chain of `extend_`: each block with its size, the current one first. `contents` is the memory
-- of the blocks, and `mallocs` holds whether the coming calls of `malloc` succeed.
pub record CacheBuffer : Type 0 where
  pub total_size : ℕ
  pub offset : ℕ
  pub extends : List (ℕ × ℕ)
  pub next_block : ℕ
  pub contents : ℕ → ℕ → ℕ
  pub mallocs : List Bool

-- The region at the offset, which the call takes.
abbrev pub hand_out : ℕ → ℕ → CacheBuffer → Option (ℕ × ℕ) × CacheBuffer
hand_out block size b = (
  some (block, b.offset),
  record b { offset = (b.offset + size) % 2 ^ 32; total_size = (b.total_size + size) % 2 ^ 32 },
)

-- A new block for `size` bytes; nothing is handed out where `malloc` fails.
unfoldable pub extend : ℕ → ℕ → CacheBuffer → Option (ℕ × ℕ) × CacheBuffer
extend base_size size b = elim b.mallocs [
  | [] ↦ (none, b)
  | answer ∷ rest ↦
      if answer
      then hand_out b.next_block size (record b {
        mallocs = rest;
        extends = (b.next_block, if ltb base_size size then size else base_size) ∷ b.extends;
        next_block = b.next_block + 1;
        offset = 0;
      })
      else (none, record b { mallocs = rest })
]

-- A region of the current block from `malloc`, if there is one with room, or of a new one.
unfoldable pub extended : ℕ → ℕ → List (ℕ × ℕ) → CacheBuffer → Option (ℕ × ℕ) × CacheBuffer
unfolding extend
extended base_size size [] b = extend base_size size b
extended base_size size ((block, buf_size) ∷ older) b =
    if ltb buf_size ((size + b.offset) % 2 ^ 32)
    then extend base_size size b
    else hand_out block size b

-- The block and the offset of the region; none for NULL.
unfoldable pub prepare : ℕ → ℕ → CacheBuffer → Option (ℕ × ℕ) × CacheBuffer
unfolding extended
prepare base_size size b =
    if leb ((size + b.total_size) % 2 ^ 32) base_size
    then hand_out 0 size b
    else extended base_size size b.extends b

-- The blocks are freed.
unfoldable pub reset : CacheBuffer → CacheBuffer
reset b = record b { extends = []; total_size = 0; offset = 0 }

-- Bytes written from an offset on.
unfoldable pub store_bytes : ℕ → List ℕ → (ℕ → ℕ) → ℕ → ℕ
store_bytes offset [] memory = memory
store_bytes offset (x ∷ bytes) memory = store_bytes (offset + 1) bytes (update memory offset x)

unfoldable pub load_bytes : ℕ → ℕ → (ℕ → ℕ) → List ℕ
load_bytes offset zero memory = []
load_bytes offset (suc size) memory = memory offset ∷ load_bytes (offset + 1) size memory

unfoldable pub put : ℕ → ℕ → List ℕ → CacheBuffer → CacheBuffer
unfolding store_bytes
put block offset bytes b = record b {
  contents = update b.contents block (store_bytes offset bytes (b.contents block));
}
