-- ===== src/Http/Gzip.antt =====
-- src/peer_http.cpp: `gzip_encode`.
use xixi.Prelude.{
  ℕ, ◌+◌, ◌/◌, ◌%◌, ◌^◌, Bool, not, ◌&&◌, ◌||◌, Option, none, some, List, [], ◌∷◌, ◌++◌, ltb, ◌==◌,
  if◌then◌else◌, length,
}
use xixi.CacheBuffer.{put}
use xixi.Http.State.{Env, PeerHttp, Chunk, literal, region, prepare_buf}

abbrev pub gzip_header : List ℕ
gzip_header = 31 ∷ 139 ∷ 8 ∷ 0 ∷ 0 ∷ 0 ∷ 0 ∷ 0 ∷ 0 ∷ 3 ∷ []

-- `out_uint32`
unfoldable pub out_uint32 : ℕ → List ℕ
out_uint32 x = x % 256 ∷ x / 256 % 256 ∷ x / 65536 % 256 ∷ x / 16777216 % 256 ∷ []

-- `data_out_size` and `data_out`, with the session; the size is 0 where the encoding failed.
abbrev pub Encoded : Type 0
Encoded = ℕ × List Chunk × PeerHttp

-- Bytes written to a region, of which a chunk shows the first `size`.
abbrev pub stored : List ℕ → ℕ × ℕ → PeerHttp → PeerHttp
stored bytes (block, offset) p = record p { request_buf = put block offset bytes p.request_buf }

abbrev pub shown : ℕ → ℕ × ℕ → Chunk
shown size (block, offset) = region block offset size

-- The checksum and the length behind the chunks.
abbrev pub validated : Env → List ℕ → ℕ → List Chunk → Option (ℕ × ℕ) × PeerHttp → Encoded
validated env data_in size chunks (none, p) = (0, chunks, p)
validated env data_in size chunks (some at, p) = (
  (size + 8) % 2 ^ 32,
  chunks ++ shown 8 at ∷ [],
  stored (out_uint32 (env.crc32 data_in) ++ out_uint32 (env.total_in data_in)) at p,
)

-- The last chunk. What `deflate` returned is overwritten by the test, so that each end counts as a good one.
abbrev pub ended : Env → List ℕ → ℕ → List Chunk → List ℕ → ℕ × ℕ → PeerHttp → Encoded
ended env data_in size chunks bytes at p =
    validated env data_in ((size + length bytes) % 2 ^ 32) (chunks ++ shown (length bytes) at ∷ [])
      (prepare_buf 8 (stored bytes at p))

-- A region for the next call of `deflate`.
abbrev pub next_chunk :
    List Chunk → Option (ℕ × ℕ) × PeerHttp → (ℕ × ℕ → PeerHttp → Encoded) → Encoded
next_chunk chunks (none, p) next = (0, chunks, p)
next_chunk chunks (some at, p) next = next at p

-- The loop over the results of `deflate`; a full chunk is followed by another.
unfoldable pub deflated :
    Env → List ℕ → ℕ → List (Bool × List ℕ) → ℕ → List Chunk → ℕ × ℕ → PeerHttp → Encoded
unfolding prepare_buf out_uint32
deflated env data_in chunk_size [] size chunks at p = ended env data_in size chunks [] at p
deflated env data_in chunk_size ((ok, bytes) ∷ results) size chunks at p =
    if ok && (length bytes == chunk_size)
    then next_chunk (chunks ++ shown chunk_size at ∷ [])
        (prepare_buf chunk_size (stored bytes at p))
        (λ at' q.
          deflated env data_in chunk_size results ((size + chunk_size) % 2 ^ 32)
            (chunks ++ shown chunk_size at ∷ []) at' q)
    else ended env data_in size chunks bytes at p

unfoldable pub gzip_encode : Env → List ℕ → PeerHttp → Encoded
unfolding deflated prepare_buf
gzip_encode env data_in p =
    let chunk_size = if ltb (length data_in) 4096 then length data_in else 4096 in
    if length data_in == 0 || not env.deflate_init
    then (0, [], p)
    else next_chunk (literal gzip_header ∷ []) (prepare_buf chunk_size p) (λ at q.
      deflated env data_in chunk_size (env.deflate data_in chunk_size) 10 (literal gzip_header ∷ [])
        at q)
