-- ===== src/Http/Ending.antt =====
-- src/peer_http.cpp: the loop `process` of Peer_Http comes to an end.
use mathlib.Core.Path.{subst}
use xixi.Prelude.{
  ℕ, zero, suc, ◌+◌, ◌*◌, ◌≤◌, ◌<◌, ◌≡◌, refl, sym, ap, ◌∙◌, ◌⊎◌, inl, inr, true, false, ◌&&◌,
  Option, none, some, List, [], ◌∷◌, arith, ltb, leb, ◌==◌, if◌then◌else◌, ltb→lt, Bool-cases,
  length, is_empty, length-append, length-drop, codes,
}
use xixi.Http.Answering.{Ahead, append-Ahead, Kept, Replies}
use xixi.Http.ArgsKept.{branch}
use xixi.Http.HeadRead.{HeadEnds}
use xixi.Http.HeadTaken.{TooLarge, Takes, header_found-Takes}
use xixi.Http.Header.{try_read_command}
use xixi.Http.Loop.{
  Turn, reset_for_new_cmd, arrived, read_more, head_taken, header_turn, body_arrived, part,
  body_turn, is_new_cmd, write_turn, turn_in, turn, rounds, process,
}
use xixi.Http.Post.{process_post}
use xixi.Http.PostReplies.{process_post-Answers}
use xixi.Http.State.{Env, PeerHttp}
use xixi.Http.WatchReplies.{Answers}
use xixi.ReceiveBuffer.{ReceiveBuffer, get_read_buf_size, handle_processed, consume, received}
use xixi.ReceiveBuffer.Room.{handle_processed_bytes}
use xixi.Session.Loop.{read_some}
use xixi.Session.Peer.{
  PeerState, new_cmd, read_header, read_body_fixed, read_body_extras, read_body_extras2, swallow,
  async_wait, write, closing, closed,
}
use xixi.Session.Turns.{total, left, rank, read_some-total, some_bytes}
use xixi.Util.{memfind}

-- What falls with each turn that does not end the loop.
abbrev pub measure : PeerHttp → ℕ
measure p = 8 * left p.read_buffer p.arrivals + rank p.state

-- A session that crashed, or one with less left to do.
abbrev Good : ℕ → PeerHttp → Type 0
Good bound q = (q.crashed ≡ true) ⊎ (measure q < bound)

abbrev Progress : ℕ → Turn → Type 0
Progress bound (false, count, q) = Unit
Progress bound (true, count, q) = Good bound q

arrived-Progress :
    (count : ℕ) (p : PeerHttp) (r : List ℕ × List (List ℕ)) (bound : ℕ)
    → 8 * (length p.read_buffer.read_data + 2 * (length r.0 + total r.1)) + rank p.state ≤ bound
    → Progress bound (arrived count p r)
unfolding received
arrived-Progress count p (bytes, pieces) bound h = elim (Bool-cases (is_empty bytes)) [
  | inl t ↦ rw t tt
  | inr f ↦
      rw f (inr (omega (arith, h, some_bytes bytes f, length-append p.read_buffer.read_data bytes)))
]

read_more-Progress : (count : ℕ) (p : PeerHttp) → Progress (measure p) (read_more count p)
unfolding read_more
read_more-Progress count p =
    let b = handle_processed 2048 8192 p.read_buffer in
    arrived-Progress count (record p { read_buffer = b })
      (read_some (get_read_buf_size b) p.arrivals) (measure p)
      (omega (
        arith,
        read_some-total (get_read_buf_size b) p.arrivals,
        ap (λ l. length l) (handle_processed_bytes 2048 8192 p.read_buffer),
      ))

-- How far an answer can be from the end.
abbrev Low : ℕ → PeerHttp → PeerHttp → Type 0
Low bound p q = Kept p q × ((q.crashed ≡ true) ⊎ (rank q.state ≤ bound))

Replies-Low : (p q : PeerHttp) → Replies p q → Low 2 p q
Replies-Low p q (k, inl crashed) = (k, inl crashed)
Replies-Low p q (k, inr (state, rest)) = (k, inr (omega (arith, ap (λ s. rank s) state)))

Answers-Low : (p q : PeerHttp) → Answers p q → Low 2 p q
Answers-Low p q (inl r) = Replies-Low p q r
Answers-Low p q (inr (k, wait)) = (k, inr (omega (arith, ap (λ s. rank s) wait)))

TooLarge-Low : (p q : PeerHttp) → TooLarge p q → Low 3 p q
TooLarge-Low p q (chunks, (state, (next, (sound, (buffer, arrivals))))) = (
  (buffer, (arrivals, subst (Ahead p.write_buf) (sym chunks) (append-Ahead p.write_buf _))),
  inr (omega (arith, ap (λ s. rank s) state)),
)

raised : (p q : PeerHttp) → Low 2 p q → Low 3 p q
raised p q (k, inl crashed) = (k, inl crashed)
raised p q (k, inr low) = (k, inr (omega (arith, low)))

HeadEnds-Low : (p q : PeerHttp) → HeadEnds p q → Low 3 p q
HeadEnds-Low p q (inl a) = raised p q (Answers-Low p q a)
HeadEnds-Low p q (inr (k, body)) = (k, inr (omega (arith, ap (λ s. rank s) body)))

-- Bytes are taken behind an answer.
consumed-Good :
    (n bound : ℕ) (p q : PeerHttp)
    → 0 < n
    → 0 < length p.read_buffer.read_data
    → Low 3 p q
    → 8 * left p.read_buffer p.arrivals ≤ bound
    → Good bound (record q { read_buffer = consume n q.read_buffer })
unfolding consume
consumed-Good n bound p q pos some_left (k, inl crashed) h = inl crashed
consumed-Good n bound p q pos some_left ((buffer, (arrivals, written)), inr low) h = inr (
    omega (
      arith,
      pos,
      some_left,
      low,
      h,
      length-drop n q.read_buffer.read_data,
      ap (λ (b : ReceiveBuffer). length b.read_data) buffer,
      ap (λ l. total l) arrivals,
    ))

wider : (n bound : ℕ) (t : Turn) → n ≤ bound → Progress n t → Progress bound t
wider n bound (false, count, q) h g = tt
wider n bound (true, count, q) h (inl crashed) = inl crashed
wider n bound (true, count, q) h (inr less) = inr (omega (arith, h, less))

taken :
    (env : Env) (bytes : List ℕ) (p : PeerHttp)
    → Takes (memfind bytes (codes "\r\n\r\n")) bytes p (try_read_command env bytes p)
unfolding try_read_command
taken env bytes p = header_found-Takes env bytes (memfind bytes (codes "\r\n\r\n")) p

-- The turn at a head, for where it ends.
head_taken-Progress :
    (count : ℕ) (p : PeerHttp) (o : Option ℕ) (r : ℕ × PeerHttp)
    → p.state ≡ read_header
    → Takes o p.read_buffer.read_data p r
    → (0 < r.0 → 0 < length p.read_buffer.read_data)
    → Progress (measure p) (head_taken count r)
unfolding Takes
head_taken-Progress count p (some i) (n, q) s (taken, ends) some_left =
    let yes : ltb 0 n ≡ true = ground (arith, taken) in
    rw yes (
      consumed-Good n (measure p) p q (omega (arith, taken)) (some_left (omega (arith, taken)))
        (HeadEnds-Low p q ends) (omega arith))
head_taken-Progress count p none (n, q) s (inl (big, (taken, large))) some_left =
    let yes : ltb 0 n ≡ true = ground (arith, big, taken) in
    rw yes (
      consumed-Good n (measure p) p q (omega (arith, big, taken)) (omega (arith, big))
        (TooLarge-Low p q large) (omega arith))
head_taken-Progress count p none (n, q) s (inr (small, (taken, same))) some_left =
    let no : ltb 0 n ≡ false = ground (arith, taken) in
    let waits = record p { state = read_header } in
    rw no (
      subst (λ x. Progress (measure p) (read_more count x)) (sym same)
        (wider (measure waits) (measure p) (read_more count waits)
          (omega (arith, ap (λ x. rank x) s)) (read_more-Progress count waits)))

-- A text with an empty line in it is not empty.
head_nonempty :
    (env : Env) (bytes : List ℕ) (p : PeerHttp)
    → 0 < (try_read_command env bytes p).0
    → 0 < length bytes
unfolding try_read_command memfind
head_nonempty env [] p h = h
head_nonempty env (b ∷ bytes) p h = omega arith

header_turn-Progress :
    (env : Env) (count : ℕ) (p : PeerHttp)
    → p.state ≡ read_header
    → Progress (measure p) (header_turn env count p)
unfolding header_turn
header_turn-Progress env count p s =
    head_taken-Progress count p (memfind p.read_buffer.read_data (codes "\r\n\r\n"))
      (try_read_command env p.read_buffer.read_data p) s (taken env p.read_buffer.read_data p)
      (head_nonempty env p.read_buffer.read_data p)

body_arrived-Progress :
    (count : ℕ) (p : PeerHttp) (r : List ℕ × List (List ℕ))
    → length r.0 + total r.1 ≡ total p.arrivals
    → Progress (measure p) (body_arrived count p r)
body_arrived-Progress count p (bytes, pieces) h = elim (Bool-cases (is_empty bytes)) [
  | inl t ↦ rw t tt
  | inr f ↦ rw f (inr (omega (arith, h, some_bytes bytes f)))
]

low_good : (p q : PeerHttp) → 3 ≤ rank p.state → Low 2 p q → Good (measure p) q
low_good p q h (k, inl crashed) = inl crashed
low_good p q h ((buffer, (arrivals, written)), inr low) = inr (
    omega (
      arith,
      h,
      low,
      ap (λ (b : ReceiveBuffer). length b.read_data) buffer,
      ap (λ l. total l) arrivals,
    ))

body_turn-Progress :
    (env : Env) (count : ℕ) (p : PeerHttp)
    → p.state ≡ read_body_extras
    → Progress (measure p) (body_turn env count p)
unfolding body_turn consume
body_turn-Progress env count p s = elim (Bool-cases (p.next_data_len == 0)) [
  | inl t ↦ rw t (
      low_good p (process_post env p) (omega (arith, ap (λ x. rank x) s))
        (Answers-Low p (process_post env p) (process_post-Answers env p)))
  | inr f ↦ rw f (elim (Bool-cases (ltb 0 (length p.read_buffer.read_data))) [
    | inl t ↦ rw t (
        let pos : 0 < part p = ground (arith, f, t) in
        inr (
          omega (
            arith,
            pos,
            ltb→lt 0 (length p.read_buffer.read_data) t,
            length-drop (part p) p.read_buffer.read_data,
          )))
    | inr g ↦ rw g (
        body_arrived-Progress count p (read_some p.next_data_len p.arrivals)
          (read_some-total p.next_data_len p.arrivals))
  ])
]

write_turn-Progress :
    (count : ℕ) (p : PeerHttp) → p.state ≡ write → Progress (measure p) (write_turn count p)
unfolding write_turn
write_turn-Progress count p s =
    let next = if p.http_request.keepalive then p.next_state else closing in
    branch (Progress (measure p)) (is_new_cmd next && ltb count 1)
      (branch (Progress (measure p)) (leb 10 (length p.read_buffer.read_data))
        (inr (omega (arith, ap (λ x. rank x) s))) tt)
      tt

turn_in-Progress :
    (s : PeerState) (env : Env) (count : ℕ) (p : PeerHttp)
    → p.state ≡ s
    → Progress (measure p) (turn_in s env count p)
unfolding turn_in reset_for_new_cmd
turn_in-Progress new_cmd env count p s = inr (omega (arith, ap (λ x. rank x) s))
turn_in-Progress read_header env count p s = header_turn-Progress env count p s
turn_in-Progress read_body_extras env count p s = body_turn-Progress env count p s
turn_in-Progress async_wait env count p s = tt
turn_in-Progress write env count p s = write_turn-Progress count p s
turn_in-Progress closing env count p s = tt
turn_in-Progress closed env count p s = tt
turn_in-Progress read_body_fixed env count p s = tt
turn_in-Progress read_body_extras2 env count p s = tt
turn_in-Progress swallow env count p s = tt

rounds_stop :
    (env : Env) (fuel count : ℕ) (p : PeerHttp) → rounds env fuel (false, count, p) ≡ some p
unfolding rounds
rounds_stop env zero count p = refl
rounds_stop env (suc fuel) count p = refl

turn-Progress : (env : Env) (count : ℕ) (p : PeerHttp) → Progress (measure p) (turn env count p)
unfolding turn
turn-Progress env count p =
    branch (Progress (measure p)) p.crashed tt (turn_in-Progress p.state env count p refl)

turn_crashed :
    (env : Env) (count : ℕ) (p : PeerHttp) → p.crashed ≡ true → turn env count p ≡ (false, count, p)
unfolding turn
turn_crashed env count p c = simp c

-- A session that crashed stops at the next turn.
rounds_crashed :
    (env : Env) (fuel count : ℕ) (p : PeerHttp)
    → p.crashed ≡ true
    → rounds env (suc fuel) (true, count, p) ≡ some p
unfolding rounds
rounds_crashed env fuel count p c =
    ap (λ t. rounds env fuel t) (turn_crashed env count p c) ∙ rounds_stop env fuel count p

abbrev Returns : Env → ℕ → Turn → Type 0
Returns env fuel t = (q : PeerHttp) × (rounds env fuel t ≡ some q)

-- What follows a turn, from what follows the sessions with less left to do.
from_turn :
    (env : Env) (fuel bound : ℕ) (t : Turn)
    → 0 < fuel
    → Progress bound t
    → ((count : ℕ) (q : PeerHttp) → measure q < bound → Returns env fuel (true, count, q))
    → Returns env fuel t
from_turn env fuel bound (false, count, q) pos g later = (q, rounds_stop env fuel count q)
from_turn env zero bound (true, count, q) pos g later = absurd (omega (arith, pos))
from_turn env (suc fuel) bound (true, count, q) pos (inl c) later =
    (q, rounds_crashed env fuel count q c)
from_turn env (suc fuel) bound (true, count, q) pos (inr less) later = later count q less

rounds-Returns :
    (env : Env) (fuel count : ℕ) (p : PeerHttp)
    → measure p + 1 < fuel
    → Returns env fuel (true, count, p)
unfolding rounds
rounds-Returns env zero count p h = absurd (omega (arith, h))
rounds-Returns env (suc fuel) count p h =
    from_turn env fuel (measure p) (turn env count p) (omega (arith, h)) (turn-Progress env count p)
      (λ count' q less. rounds-Returns env fuel count' q (omega (arith, less, h)))

-- With more rounds than eight times the bytes to come (those still to be read count twice) and five, the loop
-- comes to an end, whatever the requests are and wherever they are cut into pieces.
pub process_returns :
    (env : Env) (fuel : ℕ) (p : PeerHttp)
    → measure p + 1 < fuel
    → (q : PeerHttp) × (process env fuel p ≡ some q)
unfolding process
process_returns env fuel p h = rounds-Returns env fuel 0 p h
