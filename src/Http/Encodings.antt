-- ===== src/Http/Encodings.antt =====
-- src/peer_http.cpp: `gzip_encode` keeps the bytes that have come and the chunks in line.
use xixi.Prelude.{
  ℕ, ◌+◌, ◌%◌, ◌^◌, Bool, true, false, not, ◌&&◌, ◌||◌, Option, none, some, List, [], ◌∷◌, ◌++◌,
  ltb, ◌==◌, if◌then◌else◌, length,
}
use xixi.Http.Answering.{Kept, Kept-refl, Kept-trans, prepare_buf-Kept}
use xixi.Http.Gzip.{
  Encoded, validated, ended, next_chunk, deflated, gzip_encode, stored, shown, gzip_header,
}
use xixi.Http.State.{Env, PeerHttp, Chunk, literal, prepare_buf}

abbrev pub EncodedKept : PeerHttp → Encoded → Type 0
EncodedKept p (size, chunks, q) = Kept p q

pub either_encoded :
    (p : PeerHttp) (b : Bool) (r s : Encoded)
    → EncodedKept p r
    → EncodedKept p s
    → EncodedKept p (if b then r else s)
either_encoded p true r s h k = h
either_encoded p false r s h k = k

validated-Kept :
    (env : Env) (data_in : List ℕ) (size : ℕ) (chunks : List Chunk) (p : PeerHttp)
    (r : Option (ℕ × ℕ) × PeerHttp)
    → Kept p r.1
    → EncodedKept p (validated env data_in size chunks r)
validated-Kept env data_in size chunks p (none, q) h = h
validated-Kept env data_in size chunks p (some at, q) h = h

ended-Kept :
    (env : Env) (data_in : List ℕ) (size : ℕ) (chunks : List Chunk) (bytes : List ℕ) (at : ℕ × ℕ)
    (p : PeerHttp)
    → EncodedKept p (ended env data_in size chunks bytes at p)
ended-Kept env data_in size chunks bytes at p =
    validated-Kept env data_in ((size + length bytes) % 2 ^ 32)
      (chunks ++ shown (length bytes) at ∷ []) p (prepare_buf 8 (stored bytes at p))
      (prepare_buf-Kept 8 (stored bytes at p))

next_chunk-Kept :
    (p : PeerHttp) (chunks : List Chunk) (r : Option (ℕ × ℕ) × PeerHttp)
    (next : ℕ × ℕ → PeerHttp → Encoded)
    → Kept p r.1
    → ((at : ℕ × ℕ) (q : PeerHttp) → EncodedKept q (next at q))
    → EncodedKept p (next_chunk chunks r next)
next_chunk-Kept p chunks (none, q) next h k = h
next_chunk-Kept p chunks (some at, q) next h k = Kept-trans p q (next at q).2 h (k at q)

deflated-Kept :
    (env : Env) (data_in : List ℕ) (room : ℕ) (results : List (Bool × List ℕ)) (size : ℕ)
    (chunks : List Chunk) (at : ℕ × ℕ) (p : PeerHttp)
    → EncodedKept p (deflated env data_in room results size chunks at p)
unfolding deflated
deflated-Kept env data_in room [] size chunks at p = ended-Kept env data_in size chunks [] at p
deflated-Kept env data_in room ((ok, bytes) ∷ results) size chunks at p =
    let more = chunks ++ shown room at ∷ [] in
    let r = prepare_buf room (stored bytes at p) in
    let next : ℕ × ℕ → PeerHttp → Encoded =
      λ at' q. deflated env data_in room results ((size + room) % 2 ^ 32) more at' q in
    either_encoded p (ok && (length bytes == room)) (next_chunk more r next)
      (ended env data_in size chunks bytes at p)
      (next_chunk-Kept p more r next (prepare_buf-Kept room (stored bytes at p))
        (λ at' q. deflated-Kept env data_in room results ((size + room) % 2 ^ 32) more at' q))
      (ended-Kept env data_in size chunks bytes at p)

pub gzip_encode-Kept :
    (env : Env) (data_in : List ℕ) (p : PeerHttp) → EncodedKept p (gzip_encode env data_in p)
unfolding gzip_encode
gzip_encode-Kept env data_in p =
    let room : ℕ = if ltb (length data_in) 4096 then length data_in else 4096 in
    let next : ℕ × ℕ → PeerHttp → Encoded = λ at q.
      deflated env data_in room (env.deflate data_in room) 10 (literal gzip_header ∷ []) at q in
    either_encoded p (length data_in == 0 || not env.deflate_init) (0, [], p)
      (next_chunk (literal gzip_header ∷ []) (prepare_buf room p) next) (Kept-refl p)
      (next_chunk-Kept p (literal gzip_header ∷ []) (prepare_buf room p) next
        (prepare_buf-Kept room p)
        (λ at q.
          deflated-Kept env data_in room (env.deflate data_in room) 10 (literal gzip_header ∷ []) at
            q))
