-- ===== src/Http/Sizes.antt =====
-- src/peer_http.cpp: the size that `gzip_encode` returns is that of the chunks that it leaves.
use xixi.Prelude.{
  ℕ, ◌+◌, ◌%◌, ◌^◌, ◌≡◌, refl, ◌⊎◌, inl, inr, Bool, true, false, not, ◌&&◌, ◌||◌, Option, none,
  some, List, [], ◌∷◌, ◌++◌, arith, ltb, ◌==◌, if◌then◌else◌, length,
}
use xixi.Http.Gets.{chunk_size}
use xixi.Http.Gzip.{
  Encoded, validated, ended, next_chunk, deflated, gzip_encode, stored, shown, gzip_header,
}
use xixi.Http.State.{Env, PeerHttp, Chunk, literal, region, prepare_buf}

-- The bytes of all chunks.
unfoldable pub chunks_size : List Chunk → ℕ
chunks_size [] = 0
chunks_size (chunk ∷ chunks) = chunk_size chunk + chunks_size chunks

chunks_size-append :
    (chunks more : List Chunk)
    → chunks_size (chunks ++ more) ≡ chunks_size chunks + chunks_size more
unfolding chunks_size
chunks_size-append [] more = omega arith
chunks_size-append (chunk ∷ chunks) more = omega (arith, chunks_size-append chunks more)

-- The size is 0, which stands for a failure, or it is that of the chunks, in 32 bits.
abbrev pub IsSized : Encoded → Type 0
IsSized (size, chunks, p) = (size ≡ 0) ⊎ (size ≡ chunks_size chunks % 2 ^ 32)

added :
    (chunks : List Chunk) (n size : ℕ) (at : ℕ × ℕ)
    → size ≡ chunks_size chunks % 2 ^ 32
    → (size + n) % 2 ^ 32 ≡ chunks_size (chunks ++ shown n at ∷ []) % 2 ^ 32
unfolding chunks_size
added chunks n size (block, offset) h =
    omega (arith, h, chunks_size-append chunks (region block offset n ∷ []))

validated-IsSized :
    (env : Env) (data_in : List ℕ) (size : ℕ) (chunks : List Chunk) (r : Option (ℕ × ℕ) × PeerHttp)
    → size ≡ chunks_size chunks % 2 ^ 32
    → IsSized (validated env data_in size chunks r)
validated-IsSized env data_in size chunks (none, p) h = inl refl
validated-IsSized env data_in size chunks (some at, p) h = inr (added chunks 8 size at h)

ended-IsSized :
    (env : Env) (data_in : List ℕ) (size : ℕ) (chunks : List Chunk) (bytes : List ℕ) (at : ℕ × ℕ)
    (p : PeerHttp)
    → size ≡ chunks_size chunks % 2 ^ 32
    → IsSized (ended env data_in size chunks bytes at p)
ended-IsSized env data_in size chunks bytes at p h =
    validated-IsSized env data_in ((size + length bytes) % 2 ^ 32)
      (chunks ++ shown (length bytes) at ∷ []) (prepare_buf 8 (stored bytes at p))
      (added chunks (length bytes) size at h)

next_chunk-IsSized :
    (chunks : List Chunk) (r : Option (ℕ × ℕ) × PeerHttp) (next : ℕ × ℕ → PeerHttp → Encoded)
    → ((at : ℕ × ℕ) (q : PeerHttp) → IsSized (next at q))
    → IsSized (next_chunk chunks r next)
next_chunk-IsSized chunks (none, p) next h = inl refl
next_chunk-IsSized chunks (some at, p) next h = h at p

IsSized-if : (b : Bool) (r s : Encoded) → IsSized r → IsSized s → IsSized (if b then r else s)
IsSized-if true r s h k = h
IsSized-if false r s h k = k

deflated-IsSized :
    (env : Env) (data_in : List ℕ) (room : ℕ) (results : List (Bool × List ℕ)) (size : ℕ)
    (chunks : List Chunk) (at : ℕ × ℕ) (p : PeerHttp)
    → size ≡ chunks_size chunks % 2 ^ 32
    → IsSized (deflated env data_in room results size chunks at p)
unfolding deflated
deflated-IsSized env data_in room [] size chunks at p h =
    ended-IsSized env data_in size chunks [] at p h
deflated-IsSized env data_in room ((ok, bytes) ∷ results) size chunks at p h =
    let more = chunks ++ shown room at ∷ [] in
    let r = prepare_buf room (stored bytes at p) in
    let next : ℕ × ℕ → PeerHttp → Encoded =
      λ at' q. deflated env data_in room results ((size + room) % 2 ^ 32) more at' q in
    IsSized-if (ok && (length bytes == room)) (next_chunk more r next)
      (ended env data_in size chunks bytes at p)
      (next_chunk-IsSized more r next (λ at' q.
        deflated-IsSized env data_in room results ((size + room) % 2 ^ 32) more at' q
          (added chunks room size at h)))
      (ended-IsSized env data_in size chunks bytes at p h)

-- The size that an encoding returns, which the header tells the client, is that of the chunks that are sent, whatever
-- `deflate` does, or it is 0.
pub gzip_encode-IsSized :
    (env : Env) (data_in : List ℕ) (p : PeerHttp) → IsSized (gzip_encode env data_in p)
unfolding gzip_encode chunks_size
gzip_encode-IsSized env data_in p =
    let room : ℕ = if ltb (length data_in) 4096 then length data_in else 4096 in
    let next : ℕ × ℕ → PeerHttp → Encoded = λ at q.
      deflated env data_in room (env.deflate data_in room) 10 (literal gzip_header ∷ []) at q in
    IsSized-if (length data_in == 0 || not env.deflate_init) (0, [], p)
      (next_chunk (literal gzip_header ∷ []) (prepare_buf room p) next) (inl refl)
      (next_chunk-IsSized (literal gzip_header ∷ []) (prepare_buf room p) next (λ at q.
        deflated-IsSized env data_in room (env.deflate data_in room) 10 (literal gzip_header ∷ [])
          at q refl))
