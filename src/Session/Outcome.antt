-- ===== src/Session/Outcome.antt =====
-- src/peer_cache.cpp: when the loop `process` of Peer_Cache comes to an end.
use mathlib.Core.Path.{subst}
use xixi.Prelude.{
  ℕ, zero, suc, ◌+◌, ◌≤◌, ◌<◌, ◌≡◌, refl, sym, ap, ◌∙◌, ◌⊎◌, inl, inr, true, false, none, some, [],
  arith, ltb, leb, Bool-cases, length,
}
use xixi.Pdu.Request.{auth_req}
use xixi.ReceiveBuffer.{consume, handle_processed}
use xixi.Session.Halting.{IsSpinning, turn_in-Progress}
use xixi.Session.Loop.{
  Turn, body_read, extras2_turn, turn_in, turn, rounds, process, write_turn, header_turn, read_more,
  arrived, read_some,
}
use xixi.Session.Peer.{Env, Peer, read_header, new_cmd, write}
use xixi.Session.Process.{process_pdu_extras2}
use xixi.Session.Requests.{process_auth_req_pdu_extras}
use xixi.Session.Turns.{measure, IsFramed, Progress}

-- A turn of the loop at which an empty login is read.
pub data Spins (env : Env) : Turn → Type 0 where
  here : (count : ℕ) (p : Peer) → IsSpinning p → Spins env (true, count, p)
  later : (count : ℕ) (p : Peer) → Spins env (turn env count p) → Spins env (true, count, p)

abbrev pub Outcome : Env → ℕ → Turn → Type 0
Outcome env fuel t = ((q : Peer) × (rounds env fuel t ≡ some q)) ⊎ Spins env t

rounds_stop : (env : Env) (fuel count : ℕ) (p : Peer) → rounds env fuel (false, count, p) ≡ some p
unfolding rounds
rounds_stop env zero count p = refl
rounds_stop env (suc fuel) count p = refl

turn_crashed :
    (env : Env) (count : ℕ) (p : Peer) → p.crashed ≡ true → turn env count p ≡ (false, count, p)
unfolding turn
turn_crashed env count p c = simp c

turn_sound :
    (env : Env) (count : ℕ) (p : Peer)
    → p.crashed ≡ false
    → turn env count p ≡ turn_in p.state env count p
unfolding turn
turn_sound env count p c = simp c

rounds_crashed :
    (env : Env) (fuel count : ℕ) (p : Peer)
    → p.crashed ≡ true
    → rounds env (suc fuel) (true, count, p) ≡ some p
unfolding rounds
rounds_crashed env fuel count p c =
    ap (λ t. rounds env fuel t) (turn_crashed env count p c) ∙ rounds_stop env fuel count p

turn-Progress :
    (env : Env) (count : ℕ) (p : Peer)
    → IsFramed p
    → p.crashed ≡ false
    → IsSpinning p ⊎ Progress (measure p) (turn env count p)
turn-Progress env count p v c = elim (turn_in-Progress p.state env count p refl v c) [
  | inl s ↦ inl s
  | inr g ↦ inr (subst (λ t. Progress (measure p) t) (sym (turn_sound env count p c)) g)
]

-- What follows a turn, from what follows the sessions with less left to do.
from_turn :
    (env : Env) (fuel bound : ℕ) (t : Turn)
    → 0 < fuel
    → Progress bound t
    → ((count : ℕ) (q : Peer) → IsFramed q → measure q < bound → Outcome env fuel (true, count, q))
    → Outcome env fuel t
from_turn env fuel bound (false, count, q) h g ih = inl (q, rounds_stop env fuel count q)
from_turn env zero bound (true, count, q) h g ih = absurd (omega (arith, h))
from_turn env (suc fuel) bound (true, count, q) h (inl c) ih =
    inl (q, rounds_crashed env fuel count q c)
from_turn env (suc fuel) bound (true, count, q) h (inr g) ih = ih count q g.1 g.0

after :
    (env : Env) (fuel count : ℕ) (p : Peer)
    → Outcome env fuel (turn env count p)
    → Outcome env (suc fuel) (true, count, p)
unfolding rounds
after env fuel count p (inl (q, e)) = inl (q, e)
after env fuel count p (inr s) = inr (Spins.later count p s)

rounds-Outcome :
    (env : Env) (fuel count : ℕ) (p : Peer)
    → IsFramed p
    → measure p + 1 < fuel
    → Outcome env fuel (true, count, p)
rounds-Outcome env zero count p v h = absurd (omega (arith, h))
rounds-Outcome env (suc fuel) count p v h = elim (Bool-cases p.crashed) [
  | inl c ↦ inl (p, rounds_crashed env fuel count p c)
  | inr c ↦ elim (turn-Progress env count p v c) [
    | inl s ↦ inr (Spins.here count p s)
    | inr g ↦ after env fuel count p (
        from_turn env fuel (measure p) (turn env count p) (omega (arith, h)) g
          λ count' q w l. rounds-Outcome env fuel count' q w (omega (arith, l, h)))
  ]
]

-- With more rounds than eight times the bytes to come (those still to be read count twice) and six, the
-- loop comes to an end, whatever the requests are and wherever they are cut into pieces, unless it
-- gets to a login of no bytes.
pub process-Outcome :
    (env : Env) (fuel : ℕ) (p : Peer)
    → IsFramed p
    → measure p + 1 < fuel
    → ((q : Peer) × (process env fuel p ≡ some q)) ⊎ Spins env (true, 0, p)
unfolding process
process-Outcome env fuel p v h = rounds-Outcome env fuel 0 p v h

-- An empty login leaves all as it is but for a pointer that moves by 0.
abbrev again : Peer → Peer
again p = record p { read_buffer = consume 0 p.read_buffer }

read_login : (p : Peer) → body_read p (some (auth_req 0)) ≡ again p
unfolding body_read process_pdu_extras2 process_auth_req_pdu_extras
read_login p = let no : ltb (length p.read_buffer.read_data) 0 ≡ false = ground arith in simp no

spin_extras2 : (count : ℕ) (p : Peer) → IsSpinning p → extras2_turn count p ≡ (true, count, again p)
unfolding extras2_turn
spin_extras2 count p s =
    let yes : leb p.next_data_len (length p.read_buffer.read_data) ≡ true =
      ground (arith, s.empty) in
    simp yes
      (ap (λ x. (true, count, body_read p x)) s.login ∙ ap (λ x. (true, count, x)) (read_login p))

spin_turn :
    (env : Env) (count : ℕ) (p : Peer) → IsSpinning p → turn env count p ≡ (true, count, again p)
unfolding turn_in
spin_turn env count p s =
    turn_sound env count p s.sound
    ∙ (ap (λ x. turn_in x env count p) s.reading ∙ spin_extras2 count p s)

rounds_spinning :
    (env : Env) (fuel count : ℕ) (p : Peer) → IsSpinning p → rounds env fuel (true, count, p) ≡ none
unfolding rounds
rounds_spinning env zero count p s = refl
rounds_spinning env (suc fuel) count p s =
    ap (λ t. rounds env fuel t) (spin_turn env count p s)
    ∙ rounds_spinning env fuel count (again p)
        (record { reading = s.reading; login = s.login; empty = s.empty; sound = s.sound })

Spins-rounds : (env : Env) (fuel : ℕ) (t : Turn) → Spins env t → rounds env fuel t ≡ none
unfolding rounds
Spins-rounds env fuel _ (here count p s) = rounds_spinning env fuel count p s
Spins-rounds env zero _ (later count p s) = refl
Spins-rounds env (suc fuel) _ (later count p s) = Spins-rounds env fuel (turn env count p) s

-- A loop that gets to a login of no bytes never ends, however many rounds it is given: the bytes that came
-- behind the login and those that still come are never read.
pub process-Spins :
    (env : Env) (fuel : ℕ) (p : Peer) → Spins env (true, 0, p) → process env fuel p ≡ none
unfolding process
process-Spins env fuel p s = Spins-rounds env fuel (true, 0, p) s

-- The session at the header that follows an answer.
abbrev at_header : Peer → Peer
at_header p = record p { state = read_header; next_state = new_cmd }

-- The same once the buffer is in order and nothing came.
abbrev pub waiting : Peer → Peer
waiting p = record (at_header p) {
  read_buffer = handle_processed 2048 8192 p.read_buffer;
  arrivals = [];
}

to_header :
    (p : Peer)
    → p.next_state ≡ new_cmd
    → 2 ≤ length p.read_buffer.read_data
    → write_turn 0 p ≡ (true, 0, at_header p)
unfolding write_turn
to_header p n two =
    let enough : leb 2 (length p.read_buffer.read_data) ≡ true = ground (arith, two) in
    simp (enough, n)

no_header :
    (p : Peer)
    → p.arrivals ≡ []
    → length p.read_buffer.read_data < p.next_data_len
    → header_turn 0 p ≡ (
      false,
      0,
      record p { read_buffer = handle_processed 2048 8192 p.read_buffer; arrivals = [] },
    )
unfolding header_turn read_more arrived read_some
no_header p a stale =
    let short : leb p.next_data_len (length p.read_buffer.read_data) ≡ false =
      ground (arith, stale) in
    simp (short, a)

-- A request behind an answered one is looked at only once there are as many bytes as the key of the
-- answered request had: with fewer bytes in the buffer, and none to be read, the loop ends before the
-- header, even if that request is complete.
pub pipelined_waits :
    (env : Env) (fuel : ℕ) (p : Peer)
    → p.state ≡ write
    → p.next_state ≡ new_cmd
    → p.crashed ≡ false
    → p.arrivals ≡ []
    → 2 ≤ length p.read_buffer.read_data
    → length p.read_buffer.read_data < p.next_data_len
    → process env (suc (suc fuel)) p ≡ some (waiting p)
unfolding process rounds turn_in
pipelined_waits env fuel p w n c a two stale =
    ap (λ t. rounds env (suc fuel) t)
      (turn_sound env 0 p c ∙ (ap (λ x. turn_in x env 0 p) w ∙ to_header p n two))
    ∙ (ap (λ t. rounds env fuel t)
          (turn_sound env 0 (at_header p) c ∙ no_header (at_header p) a stale)
        ∙ rounds_stop env fuel 0 (waiting p))
