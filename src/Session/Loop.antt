-- ===== src/Session/Loop.antt =====
-- src/peer_cache.cpp: `process` of Peer_Cache, the loop over the states of a session.
use xixi.Prelude.{
  ℕ, zero, suc, ◌+◌, ◌-◌, ◌%◌, ◌^◌, Bool, true, false, ◌&&◌, Option, none, some, List, [], ◌∷◌, ltb,
  leb, ◌==◌, if◌then◌else◌, length, is_empty, take, drop,
}
use xixi.CacheBuffer
use xixi.CacheMgr.Access.{release_reference}
use xixi.CacheMgr.State.{Mgr}
use xixi.Pdu.Decode
use xixi.Pdu.Request.{Request}
use xixi.ReceiveBuffer.{get_read_buf_size, handle_processed, consume, received}
use xixi.Session.Peer.{
  Env, Peer, PeerState, new_cmd, read_header, read_body_fixed, read_body_extras, read_body_extras2,
  swallow, async_wait, write, closing, closed, reject,
}
use xixi.Session.Process.{
  head_length, process_header, process_pdu_fixed, process_pdu_extras, process_pdu_extras2,
}
use xixi.Session.Updates.{receive_item}

unfoldable pub release_items : List ℕ → Mgr → Mgr
unfolding release_reference
release_items [] m = m
release_items (a ∷ items) m = release_items items (release_reference m a)

-- The references to the items that were sent go back, and the buffer of the replies starts anew.
unfoldable pub reset_for_new_cmd : Peer → Peer
unfolding release_items CacheBuffer.reset
reset_for_new_cmd p = record p {
  pdu = none;
  cache_item = none;
  mgr = release_items p.cache_items p.mgr;
  cache_items = [];
  cache_buf = CacheBuffer.reset p.cache_buf;
  write_buf_total = 0;
  item_bytes = [];
  next_data_len = head_length;
  state = read_header;
}

-- At most `size` bytes of the next piece, and the pieces left. No bytes stand for an error too, as in
-- a read that would have to wait.
unfoldable pub read_some : ℕ → List (List ℕ) → List ℕ × List (List ℕ)
unfolding take drop
read_some size [] = ([], [])
read_some size (piece ∷ pieces) =
    if leb (length piece) size then (piece, pieces) else (take size piece, drop size piece ∷ pieces)

-- The loop goes on where the flag is true. With it come the count of requests and the session.
abbrev pub Turn : Type 0
Turn = Bool × ℕ × Peer

unfoldable pub arrived : ℕ → Peer → List ℕ × List (List ℕ) → Turn
unfolding received
arrived count p (bytes, pieces) =
    if is_empty bytes
    then (false, count, record p { arrivals = pieces })
    else (true, count, record p { arrivals = pieces; read_buffer = received bytes p.read_buffer })

-- The buffer is put in order, and read into.
unfoldable pub read_more : ℕ → Peer → Turn
unfolding arrived read_some handle_processed get_read_buf_size
read_more count p =
    let b = handle_processed 2048 8192 p.read_buffer in
    arrived count (record p { read_buffer = b }) (read_some (get_read_buf_size b) p.arrivals)

abbrev pub take_bytes : ℕ × Peer → Peer
take_bytes (n, p) = record p { read_buffer = consume n p.read_buffer }

unfoldable pub header_turn : ℕ → Peer → Turn
unfolding process_header consume read_more
header_turn count p =
    if leb p.next_data_len (length p.read_buffer.read_data)
    then (true, (count + 1) % 2 ^ 32, take_bytes (process_header p p.read_buffer.read_data))
    else read_more count p

unfoldable pub decoded : Env → Peer → Option (Request × List ℕ) → Peer
unfolding process_pdu_fixed reject
decoded env p none = reject p
decoded env p (some (r, rest)) = process_pdu_fixed env (record p { pdu = some r }) r

unfoldable pub fixed_turn : Env → ℕ → Peer → Turn
unfolding decoded Decode.decode_pdu consume read_more
fixed_turn env count p =
    if leb p.next_data_len (length p.read_buffer.read_data)
    then (
      true,
      count,
      decoded env (take_bytes (p.next_data_len, p))
          (Decode.decode_pdu p.choice p.read_buffer.read_data),
    )
    else read_more count p

-- The item's bytes that the buffer holds, and the rest from the socket straight into the item.
unfoldable pub item_arrived : ℕ → Peer → List ℕ × List (List ℕ) → Turn
unfolding receive_item
item_arrived count p (bytes, pieces) =
    if is_empty bytes then (false, count, record p { arrivals = pieces }) else (
      true,
      count,
      receive_item bytes
          (record p { arrivals = pieces; next_data_len = p.next_data_len - length bytes }),
    )

-- As much of the buffer as is wanted, at most.
abbrev pub part : ℕ → Peer → ℕ
part wanted p =
    if ltb wanted (length p.read_buffer.read_data) then wanted else length p.read_buffer.read_data

-- All bytes of the item have come.
unfoldable pub item_read : Env → Peer → Option Request → Peer
unfolding process_pdu_extras
item_read env p none = record p { crashed = true }
item_read env p (some r) = process_pdu_extras env p r

unfoldable pub extras_turn : Env → ℕ → Peer → Turn
unfolding item_read receive_item consume take item_arrived read_some
extras_turn env count p =
    if p.next_data_len == 0
    then (true, count, item_read env p p.pdu)
    else if ltb 0 (length p.read_buffer.read_data)
    then (let tmp = part p.next_data_len p in
        (
          true,
          count,
          receive_item (take tmp p.read_buffer.read_data)
              (take_bytes (tmp, record p { next_data_len = p.next_data_len - tmp })),
        ))
    else item_arrived count p (read_some p.next_data_len p.arrivals)

-- All bytes of the key or the login are in the buffer.
unfoldable pub body_read : Peer → Option Request → Peer
unfolding process_pdu_extras2 consume
body_read p none = record p { crashed = true }
body_read p (some r) = take_bytes (process_pdu_extras2 p p.read_buffer.read_data r)

unfoldable pub extras2_turn : ℕ → Peer → Turn
unfolding body_read read_more
extras2_turn count p =
    if leb p.next_data_len (length p.read_buffer.read_data)
    then (true, count, body_read p p.pdu)
    else read_more count p

unfoldable pub swallow_turn : ℕ → Peer → Turn
unfolding consume read_more
swallow_turn count p =
    if p.swallow_size == 0
    then (true, count, record p { state = new_cmd })
    else if ltb 0 (length p.read_buffer.read_data)
    then (let tmp = part p.swallow_size p in
        (true, count, take_bytes (tmp, record p { swallow_size = p.swallow_size - tmp })))
    else read_more count p

abbrev pub is_new_cmd : PeerState → Bool
is_new_cmd new_cmd = true
is_new_cmd _ = false

-- A reply is ready. Up to 32 requests are answered before the replies are written, if more has come.
unfoldable pub write_turn : ℕ → Peer → Turn
write_turn count p =
    let p' = record p { state = p.next_state; next_state = new_cmd } in
    if is_new_cmd p.next_state && ltb count 32
    then if leb head_length (length p.read_buffer.read_data)
      then (true, count, record p' { state = read_header })
      else (false, count, p')
    else (false, count, p')

-- The body of the loop.
unfoldable pub turn_in : PeerState → Env → ℕ → Peer → Turn
unfolding reset_for_new_cmd header_turn fixed_turn extras_turn extras2_turn swallow_turn write_turn
turn_in new_cmd env count p = (true, count, reset_for_new_cmd p)
turn_in read_header env count p = header_turn count p
turn_in read_body_fixed env count p = fixed_turn env count p
turn_in read_body_extras env count p = extras_turn env count p
turn_in read_body_extras2 env count p = extras2_turn count p
turn_in swallow env count p = swallow_turn count p
turn_in async_wait env count p = (false, count, p)
turn_in write env count p = write_turn count p
turn_in closing env count p = (false, count, record p { state = closed })
turn_in closed env count p = (false, count, p)

-- Nothing follows a crash.
unfoldable pub turn : Env → ℕ → Peer → Turn
unfolding turn_in
turn env count p = if p.crashed then (false, count, p) else turn_in p.state env count p

-- The loop, with the rounds left; none where they do not do.
unfoldable pub rounds : Env → ℕ → Turn → Option Peer
unfolding turn
rounds env fuel (false, count, p) = some p
rounds env zero (true, count, p) = none
rounds env (suc fuel) (true, count, p) = rounds env fuel (turn env count p)

unfoldable pub process : Env → ℕ → Peer → Option Peer
unfolding rounds
process env fuel p = rounds env fuel (true, 0, p)
