-- ===== src/Session/Halting.antt =====
-- src/peer_cache.cpp: the loop of Peer_Cache ends, unless a client logs in with an empty text.
use xixi.Prelude.{
  ℕ, zero, suc, ◌+◌, ◌-◌, ◌%◌, ◌≤◌, ◌<◌, ◌≡◌, refl, sym, ap, ◌⊎◌, inl, inr, true, false, ◌&&◌,
  Option, none, some, List, arith, ltb, leb, ◌==◌, if◌then◌else◌, leb→le, Bool-cases, length,
  is_empty, take, length-drop,
}
use mathlib.Core.Path.{subst}
use xixi.CacheMgr.Access.{get, get_touch, update_flags, update_expiration}
use xixi.CacheMgr.Delta.{delta}
use xixi.CacheMgr.Store.{remove}
use xixi.Pdu.Request.{
  Request, get_req, get_touch_req, get_base_req, update_req, update_flags_req,
  update_expiration_req, delete_req, auth_req, delta_req, flush_req, stats_req, hello_req,
  create_watch_req, check_watch_req,
}
use xixi.Pdu.Response.{update_flags_res, update_expiration_res}
use xixi.ReceiveBuffer.{consume}
use xixi.Session.Ends.{
  EndsFrom, got-Ends, got_touch-Ends, got_base-Ends, updated-Ends, removed-Ends, counted-Ends,
}
use xixi.Session.Loop.{
  reset_for_new_cmd, read_some, take_bytes, item_arrived, part, item_read, body_read, extras_turn,
  extras2_turn, swallow_turn, is_new_cmd, write_turn, turn_in,
}
use xixi.Session.Peer.{
  Env, Peer, PeerState, new_cmd, read_header, read_body_fixed, read_body_extras, read_body_extras2,
  swallow, async_wait, write, closing, closed,
}
use xixi.Session.Process.{process_pdu_extras2}
use xixi.Session.Requests.{
  key_in, process_get_req_pdu_extras, process_get_touch_req_pdu_extras,
  process_get_base_req_pdu_extras, process_update_flags_req_pdu_extras,
  process_update_expiration_req_pdu_extras, process_delete_req_pdu_extras,
  process_delta_req_pdu_extras, process_auth_req_pdu_extras,
}
use xixi.Session.Updates.{receive_item}
use xixi.Session.Turns.{
  total, rank, measure, Body, IsFramed, Good, Progress, ended-take, read_some-total, some_bytes,
  read_more-Progress, header_turn-Progress,
}
use xixi.Session.Progress.{fixed_turn-Progress, copied-Good, process_pdu_extras-Good}

-- A login of no bytes, which the loop reads again and again.
pub record IsSpinning (p : Peer) : Type 0 where
  pub reading : p.state ≡ read_body_extras2
  pub login : p.pdu ≡ some (auth_req 0)
  pub empty : p.next_data_len ≡ 0
  pub sound : p.crashed ≡ false

keyed-Good :
    (p q : Peer) (k : ℕ)
    → EndsFrom p q
    → p.state ≡ read_body_extras2
    → k ≤ length p.read_buffer.read_data
    → Good
        (measure p)
        (take_bytes (if ltb (length p.read_buffer.read_data) k then (0, p) else (k, q)))
keyed-Good p q k e s h =
    let here : ltb (length p.read_buffer.read_data) k ≡ false = ground (arith, h) in
    rw here (ended-take (measure p) k p q e (omega (arith, ap (λ s. rank s) s)))

-- A login with some bytes takes them, and reads on.
login-Good :
    (p : Peer) (b : ℕ)
    → 0 < b
    → IsFramed p
    → b ≤ length p.read_buffer.read_data
    → Good (measure p) (take_bytes (process_auth_req_pdu_extras b p p.read_buffer.read_data))
unfolding process_auth_req_pdu_extras consume
login-Good p b pos v h =
    let here : ltb (length p.read_buffer.read_data) b ≡ false = ground (arith, h) in
    rw here (inr (omega (arith, pos, h, length-drop b p.read_buffer.read_data), v))

body_read-Good :
    (p : Peer) (item : Option Request)
    → p.state ≡ read_body_extras2
    → IsFramed p
    → Body read_body_extras2 item p.next_data_len
    → p.next_data_len ≤ length p.read_buffer.read_data
    → (item ≡ some (auth_req 0)) ⊎ Good (measure p) (body_read p item)
unfolding body_read process_pdu_extras2 process_get_req_pdu_extras process_get_touch_req_pdu_extras
    process_get_base_req_pdu_extras process_update_flags_req_pdu_extras
    process_update_expiration_req_pdu_extras process_delete_req_pdu_extras
    process_delta_req_pdu_extras
body_read-Good p none s f v h = absurd v
body_read-Good p (some (get_req g w k)) s f v h = inr (
    keyed-Good p _ k (got-Ends p (get p.mgr (key_in g k p.read_buffer.read_data) w false 0)) s
      (omega (arith, h, v.0)))
body_read-Good p (some (get_touch_req g w x k)) s f v h = inr (
    keyed-Good p _ k (got_touch-Ends x p (get_touch p.mgr (key_in g k p.read_buffer.read_data) w x))
      s (omega (arith, h, v.0)))
body_read-Good p (some (get_base_req g k)) s f v h = inr (
    keyed-Good p _ k (got_base-Ends p (get p.mgr (key_in g k p.read_buffer.read_data) 0 true 0)) s
      (omega (arith, h, v.0)))
body_read-Good p (some (update_flags_req o c g fl k)) s f v h = inr (
    keyed-Good p _ k
      (updated-Ends update_flags_res p
        (update_flags p.mgr (key_in g k p.read_buffer.read_data) c fl))
      s (omega (arith, h, v.0)))
body_read-Good p (some (update_expiration_req o c g x k)) s f v h = inr (
    keyed-Good p _ k
      (updated-Ends update_expiration_res p
        (update_expiration p.mgr (key_in g k p.read_buffer.read_data) c x))
      s (omega (arith, h, v.0)))
body_read-Good p (some (delete_req o c g k)) s f v h = inr (
    keyed-Good p _ k (removed-Ends p (remove p.mgr (key_in g k p.read_buffer.read_data) c)) s
      (omega (arith, h, v.0)))
body_read-Good p (some (delta_req o c g d k)) s f v h = inr (
    keyed-Good p _ k
      (counted-Ends p (delta p.mgr (key_in g k p.read_buffer.read_data) (o % 2 == 0) d c)) s
      (omega (arith, h, v.0)))
body_read-Good p (some (auth_req zero)) s f v h = inl refl
body_read-Good p (some (auth_req (suc b))) s f v h =
    inr (login-Good p (suc b) (omega arith) f (omega (arith, h, v.0)))
body_read-Good p (some (update_req o c g fl x w k d)) s f v h = cc
body_read-Good p (some (flush_req g)) s f v h = cc
body_read-Good p (some (stats_req o c g)) s f v h = cc
body_read-Good p (some hello_req) s f v h = cc
body_read-Good p (some (create_watch_req g i)) s f v h = cc
body_read-Good p (some (check_watch_req g w t i a)) s f v h = cc

item_arrived-Progress :
    (count : ℕ) (p : Peer) (r : List ℕ × List (List ℕ))
    → IsFramed p
    → length r.0 + total r.1 ≡ total p.arrivals
    → p.state ≡ read_body_extras
    → Progress (measure p) (item_arrived count p r)
unfolding item_arrived receive_item
item_arrived-Progress count p (bytes, pieces) v h s = elim (Bool-cases (is_empty bytes)) [
  | inl t ↦ rw t tt
  | inr f ↦ rw f (
      copied-Good (measure p) bytes
        (record p { arrivals = pieces; next_data_len = p.next_data_len - length bytes })
        p.cache_item (omega (arith, h, some_bytes bytes f))
        (subst (λ x. Body x p.pdu (p.next_data_len - length bytes)) (sym s) tt))
]

extras_turn-Progress :
    (env : Env) (count : ℕ) (p : Peer)
    → p.state ≡ read_body_extras
    → IsFramed p
    → Progress (measure p) (extras_turn env count p)
unfolding extras_turn item_read receive_item consume
extras_turn-Progress env count p s v = elim (Bool-cases (p.next_data_len == 0)) [
  | inl t ↦ rw t (read p.pdu)
  | inr f ↦ rw f (elim (Bool-cases (ltb 0 (length p.read_buffer.read_data))) [
    | inl some_left ↦
        let tmp = part p.next_data_len p in
        rw some_left (
          copied-Good (measure p) (take tmp p.read_buffer.read_data)
            (take_bytes (tmp, record p { next_data_len = p.next_data_len - tmp })) p.cache_item
            (ground (arith, f, some_left, length-drop tmp p.read_buffer.read_data))
            (subst (λ x. Body x p.pdu (p.next_data_len - tmp)) (sym s) tt))
    | inr none_left ↦ rw none_left (
        item_arrived-Progress count p (read_some p.next_data_len p.arrivals) v
          (read_some-total p.next_data_len p.arrivals) s)
  ])
]
  where
    read : (item : Option Request) → Good (measure p) (item_read env p item)
    read none = inl refl
    read (some r) = process_pdu_extras-Good env p r (measure p) (omega (arith, ap (λ s. rank s) s))

swallow_turn-Progress :
    (count : ℕ) (p : Peer)
    → p.state ≡ swallow
    → IsFramed p
    → Progress (measure p) (swallow_turn count p)
unfolding swallow_turn consume
swallow_turn-Progress count p s v = elim (Bool-cases (p.swallow_size == 0)) [
  | inl t ↦ rw t (inr (omega (arith, ap (λ s. rank s) s), tt))
  | inr f ↦ rw f (elim (Bool-cases (ltb 0 (length p.read_buffer.read_data))) [
    | inl some_left ↦
        let tmp = part p.swallow_size p in
        rw some_left
          (inr (ground (arith, f, some_left, length-drop tmp p.read_buffer.read_data), v))
    | inr none_left ↦ rw none_left (read_more-Progress count p v)
  ])
]

write_turn-Progress :
    (count : ℕ) (p : Peer) → p.state ≡ write → Progress (measure p) (write_turn count p)
unfolding write_turn
write_turn-Progress count p s = elim (Bool-cases (is_new_cmd p.next_state && ltb count 32)) [
  | inl t ↦ rw t (elim (Bool-cases (leb 2 (length p.read_buffer.read_data))) [
    | inl more ↦ rw more (inr (omega (arith, ap (λ s. rank s) s), tt))
    | inr less ↦ rw less tt
  ])
  | inr f ↦ rw f tt
]

spinning :
    (p : Peer)
    → p.state ≡ read_body_extras2
    → p.pdu ≡ some (auth_req 0)
    → Body read_body_extras2 p.pdu p.next_data_len
    → p.crashed ≡ false
    → IsSpinning p
spinning p s e v c = record {
  reading = s;
  login = e;
  empty = (subst (λ x. Body read_body_extras2 x p.next_data_len) e v).0;
  sound = c;
}

extras2_turn-Progress :
    (count : ℕ) (p : Peer)
    → p.state ≡ read_body_extras2
    → IsFramed p
    → p.crashed ≡ false
    → IsSpinning p ⊎ Progress (measure p) (extras2_turn count p)
unfolding extras2_turn
extras2_turn-Progress count p s v c =
    let body : Body read_body_extras2 p.pdu p.next_data_len =
      subst (λ x. Body x p.pdu p.next_data_len) s v in
    elim (Bool-cases (leb p.next_data_len (length p.read_buffer.read_data))) [
      | inl t ↦ elim (body_read-Good p p.pdu s v body (leb→le _ _ t)) [
        | inl e ↦ inl (spinning p s e body c)
        | inr g ↦ inr (rw t g)
      ]
      | inr f ↦ inr (rw f (read_more-Progress count p v))
    ]

-- A turn ends the loop, or brings its end nearer, or reads an empty login.
pub turn_in-Progress :
    (s : PeerState) (env : Env) (count : ℕ) (p : Peer)
    → p.state ≡ s
    → IsFramed p
    → p.crashed ≡ false
    → IsSpinning p ⊎ Progress (measure p) (turn_in s env count p)
unfolding turn_in reset_for_new_cmd
turn_in-Progress new_cmd env count p e v c = inr (inr (omega (arith, ap (λ s. rank s) e), tt))
turn_in-Progress read_header env count p e v c = inr (header_turn-Progress count p v)
turn_in-Progress read_body_fixed env count p e v c = inr (fixed_turn-Progress env count p e v)
turn_in-Progress read_body_extras env count p e v c = inr (extras_turn-Progress env count p e v)
turn_in-Progress read_body_extras2 env count p e v c = extras2_turn-Progress count p e v c
turn_in-Progress swallow env count p e v c = inr (swallow_turn-Progress count p e v)
turn_in-Progress async_wait env count p e v c = inr tt
turn_in-Progress write env count p e v c = inr (write_turn-Progress count p e)
turn_in-Progress closing env count p e v c = inr tt
turn_in-Progress closed env count p e v c = inr tt
