-- ===== src/Http/Answering.antt =====
-- src/peer_http.cpp: what every answer of Peer_Http has in common, and the functions that write answers.
use xixi.Prelude.{
  ℕ, ◌≤◌, ◌<◌, ◌≡◌, refl, ◌∙◌, ◌⊎◌, inl, inr, Bool, true, false, Option, none, some, List, [], ◌∷◌,
  ◌++◌, arith, if◌then◌else◌, length, length-append, get_elem?, get_elem?-append,
}
use xixi.CacheBuffer.{CacheBuffer, prepare}
use xixi.Http.Replies.{
  write_error, write_printed, write_body, header_printed, lined, error_res, by_keepalive,
  default_res_200_keep_alive, default_res_200_close, size_header,
}
use xixi.Http.State.{
  PeerHttp, Chunk, base_size, add_write_buf, add_printed, add_text, prepare_buf, print_into,
  printed, taken, finish,
}
use xixi.Session.Peer.{new_cmd, write}

-- Every chunk stays at its place.
abbrev pub Stays : List Chunk → List Chunk → Type 0
Stays xs ys = (i : ℕ) → i < length xs → get_elem? ys i ≡ get_elem? xs i

-- The head of a reply with a list of updates stands at the place 0, and what was there and at the place 1 is gone;
-- the chunks behind these stay.
abbrev pub Overwrites : List Chunk → List Chunk → Type 0
Overwrites xs ys =
    ((i : ℕ) → 2 ≤ i → i < length xs → get_elem? ys i ≡ get_elem? xs i)
    × ((keepalive : Bool) × (get_elem? ys 0
          ≡ some (
              Chunk.literal
                (if keepalive then default_res_200_keep_alive else default_res_200_close))))

-- The chunks that wait to be written are followed by others, or the first two are written over.
abbrev pub Ahead : List Chunk → List Chunk → Type 0
Ahead xs ys = (length xs ≤ length ys) × (Stays xs ys ⊎ Overwrites xs ys)

-- The bytes that have come stay as they are, and so do the chunks that wait to be written.
abbrev pub Kept : PeerHttp → PeerHttp → Type 0
Kept p q =
    (q.read_buffer ≡ p.read_buffer) × ((q.arrivals ≡ p.arrivals) × Ahead p.write_buf q.write_buf)

-- A reply stands in line, and the session is to write it and to go on with the next request.
abbrev pub Replied : PeerHttp → PeerHttp → Type 0
Replied p q =
    (q.state ≡ write) × ((q.next_state ≡ new_cmd) × (length p.write_buf < length q.write_buf))

-- The session has replied, or it wrote through a null pointer.
abbrev pub Replies : PeerHttp → PeerHttp → Type 0
Replies p q = Kept p q × ((q.crashed ≡ true) ⊎ Replied p q)

pub Kept-refl : (p : PeerHttp) → Kept p p
Kept-refl p = (refl, (refl, (omega arith, inl λ i h. refl)))

-- A place that has a chunk lies inside the list.
inside : (xs : List Chunk) (chunk : Chunk) → get_elem? xs 0 ≡ some chunk → 0 < length xs
unfolding get_elem?
inside [] chunk e = cc
inside (x ∷ xs) chunk e = omega arith

Ahead-trans : (xs ys zs : List Chunk) → Ahead xs ys → Ahead ys zs → Ahead xs zs
Ahead-trans xs ys zs (l, inl h) (k, inl g) =
    (omega (arith, l, k), inl λ i here. g i (omega (arith, l, here)) ∙ h i here)
Ahead-trans xs ys zs (l, inl h) (k, inr (g, head)) =
    (omega (arith, l, k), inr (λ i two here. g i two (omega (arith, l, here)) ∙ h i here, head))
Ahead-trans xs ys zs (l, inr (h, (b, e))) (k, inl g) = (
  omega (arith, l, k),
  inr (λ i two here. g i (omega (arith, l, here)) ∙ h i two here, (b, g 0 (inside ys _ e) ∙ e)),
)
Ahead-trans xs ys zs (l, inr (h, head)) (k, inr (g, head')) = (
  omega (arith, l, k),
  inr (λ i two here. g i two (omega (arith, l, here)) ∙ h i two here, head'),
)

pub append-Ahead : (xs ys : List Chunk) → Ahead xs (xs ++ ys)
append-Ahead xs ys = (omega (arith, length-append xs ys), inl λ i h. get_elem?-append xs ys i h)

pub Kept-trans : (p q r : PeerHttp) → Kept p q → Kept q r → Kept p r
Kept-trans p q r (h1, (h2, h3)) (k1, (k2, k3)) =
    (k1 ∙ h1, (k2 ∙ h2, Ahead-trans p.write_buf q.write_buf r.write_buf h3 k3))

pub Replies-trans : (p q r : PeerHttp) → Kept p q → Replies q r → Replies p r
Replies-trans p q r h (k, inl crashed) = (Kept-trans p q r h k, inl crashed)
Replies-trans p q r h (k, inr (state, (next, more))) =
    (Kept-trans p q r h k, inr (state, (next, omega (arith, h.1.1.0, more))))

pub add_write_buf-Kept :
    (chunk : Chunk) (size : ℕ) (p : PeerHttp) → Kept p (add_write_buf chunk size p)
add_write_buf-Kept chunk size p = (refl, (refl, append-Ahead p.write_buf (chunk ∷ [])))

pub add_printed-Kept :
    (text : List ℕ) (at : Option (ℕ × ℕ)) (p : PeerHttp) → Kept p (add_printed text at p)
add_printed-Kept text none p = Kept-refl p
add_printed-Kept text (some (block, offset)) p =
    add_write_buf-Kept (Chunk.region block offset (length text)) (length text) p

-- An answer that starts with a text of the program.
pub finish-Replies :
    (text : List ℕ) (p q : PeerHttp) → Kept (add_text text p) q → Replies p (finish q)
finish-Replies text p q h = (
  Kept-trans p (add_text text p) (finish q)
      (add_write_buf-Kept (Chunk.literal text) (length text) p) h,
  inr (refl, (refl, omega (arith, h.1.1.0, length-append p.write_buf (Chunk.literal text ∷ [])))),
)

taken-Kept : (p : PeerHttp) (r : Option (ℕ × ℕ) × CacheBuffer) → Kept p (taken p r).1
taken-Kept p (at, b) = Kept-refl p

pub prepare_buf-Kept : (size : ℕ) (p : PeerHttp) → Kept p (prepare_buf size p).1
unfolding prepare_buf
prepare_buf-Kept size p = taken-Kept p (prepare base_size size p.request_buf)

print_into-Kept :
    (room : ℕ) (text : List ℕ) (p : PeerHttp) (r : Option (ℕ × ℕ) × PeerHttp)
    → Kept p r.1
    → Kept p (print_into room text r).1
print_into-Kept room text p (none, q) h = h
print_into-Kept room text p (some (block, offset), q) h = h

pub printed-Kept : (room : ℕ) (text : List ℕ) (p : PeerHttp) → Kept p (printed room text p).1
unfolding printed
printed-Kept room text p =
    print_into-Kept room text p (prepare_buf room p) (prepare_buf-Kept room p)

pub write_error-Replies :
    (p : PeerHttp) (error_code : ℕ) (q : PeerHttp) → Kept p q → Replies p (write_error error_code q)
unfolding write_error
write_error-Replies p error_code q h = Replies-trans p q (write_error error_code q) h (
    finish-Replies (error_res error_code q.http_request.keepalive) q
      (add_text (error_res error_code q.http_request.keepalive) q)
      (Kept-refl (add_text (error_res error_code q.http_request.keepalive) q)))

lined-Replies :
    (status header body : List ℕ) (at : Option (ℕ × ℕ)) (p : PeerHttp)
    (r : Option (ℕ × ℕ) × PeerHttp)
    → Kept p r.1
    → Replies p (lined status header body at r)
lined-Replies status header body at p (header_at, q) h =
    let q1 = add_text status q in
    let q2 = add_printed header header_at q1 in
    Replies-trans p q (lined status header body at (header_at, q)) h (
      finish-Replies status q (add_printed body at q2) (
        Kept-trans q1 q2 (add_printed body at q2) (add_printed-Kept header header_at q1)
          (add_printed-Kept body at q2)))

header_printed-Replies :
    (status : List ℕ) (room : ℕ) (header body : List ℕ) (p : PeerHttp)
    (r : Option (ℕ × ℕ) × PeerHttp)
    → Kept p r.1
    → Replies p (header_printed status room header body r)
header_printed-Replies status room header body p (at, q) h =
    lined-Replies status header body at p (printed room header q)
      (Kept-trans p q (printed room header q).1 h (printed-Kept room header q))

pub write_printed-Replies :
    (p : PeerHttp) (status : List ℕ) (header_room : ℕ) (header : List ℕ) (body_room : ℕ)
    (body : List ℕ) (q : PeerHttp)
    → Kept p q
    → Replies p (write_printed status header_room header body_room body q)
unfolding write_printed
write_printed-Replies p status header_room header body_room body q h =
    header_printed-Replies status header_room header body p (printed body_room body q)
      (Kept-trans p q (printed body_room body q).1 h (printed-Kept body_room body q))

pub write_body-Replies :
    (p : PeerHttp) (body_room header_room : ℕ) (body : List ℕ) (q : PeerHttp)
    → Kept p q
    → Replies p (write_body body_room header_room body q)
unfolding write_body
write_body-Replies p body_room header_room body q h =
    write_printed-Replies p (by_keepalive default_res_200_keep_alive default_res_200_close q)
      header_room (size_header body) body_room body q h

-- An answer on either branch of a test.
pub either :
    (p q r : PeerHttp) (b : Bool) → Replies p q → Replies p r → Replies p (if b then q else r)
either p q r true h k = h
either p q r false h k = k
