-- ===== src/Session/Turns.antt =====
-- src/peer_cache.cpp: each turn of the loop of Peer_Cache brings its end nearer.
use xixi.Prelude.{
  ℕ, ◌+◌, ◌*◌, ◌≤◌, ◌<◌, ◌≡◌, refl, ap, ◌⊎◌, inl, inr, Bool, true, false, Option, none, some, List,
  [], ◌∷◌, arith, leb, ◌==◌, Bool-cases, length, is_empty, length-append, length-drop, length-take,
}
use xixi.Pdu.Decode
use xixi.Pdu.Request.{
  Request, update_req, flush_req, stats_req, hello_req, create_watch_req, check_watch_req,
  hello_req_choice,
}
use xixi.Pdu.Response.{simple_res}
use xixi.ReceiveBuffer.{ReceiveBuffer, get_read_buf_size, handle_processed, consume, received}
use xixi.ReceiveBuffer.Room.{handle_processed_bytes}
use xixi.Session.Ends.{Keeps, EndsFrom, finish-write_res-Ends, reject-Ends}
use xixi.Session.Framing.{trailing}
use xixi.Session.Loop.{Turn, read_some, arrived, read_more, take_bytes, header_turn}
use xixi.Session.Peer.{
  Peer, PeerState, new_cmd, read_header, read_body_fixed, read_body_extras, read_body_extras2,
  swallow, async_wait, write, closing, closed, write_simple_res,
}
use xixi.Session.Process.{process_header, expect_body, with_header}
use xixi.Session.Watching.{process_hello_req_pdu_fixed}
use xixi.Wire.{decode_uint16, load}

abbrev pub total : List (List ℕ) → ℕ
total [] = 0
total (piece ∷ pieces) = length piece + total pieces

-- The bytes that are there, and twice those that are still to be read.
abbrev pub left : ReceiveBuffer → List (List ℕ) → ℕ
left b pieces = length b.read_data + 2 * total pieces

abbrev pub rank : PeerState → ℕ
rank new_cmd = 1
rank write = 2
rank swallow = 2
rank read_body_extras = 3
rank read_body_extras2 = 3
rank read_body_fixed = 4
rank _ = 0

-- What falls with each turn that does not end the loop.
abbrev pub measure : Peer → ℕ
measure p = 8 * left p.read_buffer p.arrivals + rank p.state

-- The requests after whose fixed part a key or a login is read in one piece.
abbrev pub is_body : Request → Bool
is_body (update_req op_flag cache_id group_id flags expiration watch_id key_length data_length) =
    false
is_body (flush_req group_id) = false
is_body (stats_req op_flag class_id group_id) = false
is_body hello_req = false
is_body (create_watch_req group_id interval) = false
is_body (check_watch_req group_id watch_id timeout interval ack_sequence) = false
is_body _ = true

-- A session that reads a key or a login knows the request, and how many bytes it waits for.
abbrev pub Body : PeerState → Option Request → ℕ → Type 0
Body read_body_extras2 (some r) size = (size ≡ trailing r) × (is_body r ≡ true)
Body read_body_extras2 none size = ⊥
Body _ r size = Unit

abbrev pub IsFramed : Peer → Type 0
IsFramed p = Body p.state p.pdu p.next_data_len

abbrev pub Good : ℕ → Peer → Type 0
Good bound q = (q.crashed ≡ true) ⊎ ((measure q < bound) × IsFramed q)

abbrev pub Progress : ℕ → Turn → Type 0
Progress bound (false, count, q) = Unit
Progress bound (true, count, q) = Good bound q

pub Body-write : (s : PeerState) (r : Option Request) (size : ℕ) → s ≡ write → Body s r size
Body-write new_cmd r size e = tt
Body-write read_header r size e = tt
Body-write read_body_fixed r size e = tt
Body-write read_body_extras r size e = tt
Body-write read_body_extras2 r size e = cc
Body-write swallow r size e = tt
Body-write async_wait r size e = tt
Body-write write r size e = tt
Body-write closing r size e = tt
Body-write closed r size e = tt

pub ended :
    (bound : ℕ) (p q : Peer)
    → EndsFrom p q
    → 8 * left p.read_buffer p.arrivals + 2 < bound
    → Good bound q
ended bound p q e h = inr (
  omega (
    arith,
    h,
    ap (λ s. rank s) e.0,
    ap (λ (b : ReceiveBuffer). length b.read_data) e.1.buffer,
    ap (λ l. total l) e.1.arrivals,
  ),
  Body-write q.state q.pdu q.next_data_len e.0,
)

-- The same after the bytes that a handler took are gone.
pub ended-take :
    (bound n : ℕ) (p q : Peer)
    → EndsFrom p q
    → 8 * left p.read_buffer p.arrivals + 2 < bound
    → Good bound (take_bytes (n, q))
unfolding consume
ended-take bound n p q e h = inr (
  omega (
    arith,
    h,
    length-drop n q.read_buffer.read_data,
    ap (λ s. rank s) e.0,
    ap (λ (b : ReceiveBuffer). length b.read_data) e.1.buffer,
    ap (λ l. total l) e.1.arrivals,
  ),
  Body-write q.state q.pdu q.next_data_len e.0,
)

pub read_some-total :
    (size : ℕ) (pieces : List (List ℕ))
    → let r = read_some size pieces in length r.0 + total r.1 ≡ total pieces
unfolding read_some
read_some-total size [] = refl
read_some-total size (piece ∷ pieces) = elim (Bool-cases (leb (length piece) size)) [
  | inl t ↦ rw t
  | inr f ↦
      rw f (ground (arith, f, length-take size piece (ground (arith, f)), length-drop size piece))
]

pub some_bytes : (bytes : List ℕ) → is_empty bytes ≡ false → 0 < length bytes
some_bytes [] e = cc
some_bytes (b ∷ bytes) e = omega arith

arrived-Progress :
    (count : ℕ) (p : Peer) (r : List ℕ × List (List ℕ)) (bound : ℕ)
    → IsFramed p
    → 8 * (length p.read_buffer.read_data + 2 * (length r.0 + total r.1)) + rank p.state ≤ bound
    → Progress bound (arrived count p r)
unfolding arrived received
arrived-Progress count p (bytes, pieces) bound v h = elim (Bool-cases (is_empty bytes)) [
  | inl t ↦ rw t tt
  | inr f ↦
      rw f
        (inr (omega (arith, h, some_bytes bytes f, length-append p.read_buffer.read_data bytes), v))
]

pub read_more-Progress :
    (count : ℕ) (p : Peer) → IsFramed p → Progress (measure p) (read_more count p)
unfolding read_more
read_more-Progress count p v =
    let b = handle_processed 2048 8192 p.read_buffer in
    arrived-Progress count (record p { read_buffer = b })
      (read_some (get_read_buf_size b) p.arrivals) (measure p) v
      (omega (
        arith,
        read_some-total (get_read_buf_size b) p.arrivals,
        ap (λ l. length l) (handle_processed_bytes 2048 8192 p.read_buffer),
      ))

-- A handler that leaves the bytes alone, and what it may do to the state.
pub record Leaves (p : Peer) (bound : ℕ) (q : Peer) : Type 0 where
  pub keeps : Keeps p.read_buffer p.arrivals q
  pub low : rank q.state ≤ bound
  pub framed : IsFramed q

pub Ends-Leaves : (p : Peer) (bound : ℕ) (q : Peer) → EndsFrom p q → 2 ≤ bound → Leaves p bound q
Ends-Leaves p bound q e h = record {
  keeps = e.1;
  low = omega (arith, h, ap (λ s. rank s) e.0);
  framed = Body-write q.state q.pdu q.next_data_len e.0;
}

expect_body-Leaves : (p : Peer) (size : Option ℕ) → Leaves p 4 (expect_body p size)
unfolding expect_body process_hello_req_pdu_fixed write_simple_res
expect_body-Leaves p none = Ends-Leaves p 4 _ (reject-Ends p) (omega arith)
expect_body-Leaves p (some size) = elim (Bool-cases (p.choice == hello_req_choice)) [
  | inl t ↦ rw t (Ends-Leaves p 4 _ (finish-write_res-Ends (simple_res 2) p) (omega arith))
  | inr f ↦
      rw f (record {
        keeps = record { buffer = refl; arrivals = refl };
        low = omega arith;
        framed = tt;
      })
]

header_size : (bytes : List ℕ) (r : ℕ × List ℕ) → decode_uint16 bytes ≡ some r → 2 ≤ length bytes
unfolding decode_uint16 load
header_size [] r e = cc
header_size (b ∷ []) r e = cc
header_size (b ∷ c ∷ bytes) r e = omega arith

header_taken :
    (p : Peer) (r : Option (ℕ × List ℕ))
    → ((x : ℕ × List ℕ) → r ≡ some x → 2 ≤ length p.read_buffer.read_data)
    → Good (measure p) (take_bytes (2, with_header p r))
unfolding with_header consume
header_taken p none h = inl refl
header_taken p (some (choice, rest)) h =
    let q = expect_body (record p { choice = choice }) (Decode.process_header choice) in
    let l = expect_body-Leaves (record p { choice = choice }) (Decode.process_header choice) in
    inr (
      omega (
        arith,
        h (choice, rest) refl,
        l.low,
        length-drop 2 q.read_buffer.read_data,
        ap (λ (b : ReceiveBuffer). length b.read_data) l.keeps.buffer,
        ap (λ l. total l) l.keeps.arrivals,
      ),
      l.framed,
    )

pub header_turn-Progress :
    (count : ℕ) (p : Peer) → IsFramed p → Progress (measure p) (header_turn count p)
unfolding header_turn process_header
header_turn-Progress count p v =
    elim (Bool-cases (leb p.next_data_len (length p.read_buffer.read_data))) [
      | inl t ↦ rw t (
          header_taken p (decode_uint16 p.read_buffer.read_data)
            (header_size p.read_buffer.read_data))
      | inr f ↦ rw f (read_more-Progress count p v)
    ]
