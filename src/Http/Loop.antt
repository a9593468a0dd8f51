-- ===== src/Http/Loop.antt =====
-- src/peer_http.cpp: `process` of Peer_Http, the loop over the states of a session.
use xixi.Prelude.{
  ℕ, zero, suc, ◌+◌, ◌-◌, ◌%◌, ◌^◌, Bool, true, false, ◌&&◌, Option, none, some, List, [], ◌++◌,
  ltb, leb, ◌==◌, if◌then◌else◌, length, is_empty, take,
}
use xixi.CacheBuffer
use xixi.CacheMgr.Access.{release_reference}
use xixi.CacheMgr.State.{Mgr}
use xixi.Http.Header.{try_read_command}
use xixi.Http.Post.{process_post}
use xixi.Http.State.{Env, PeerHttp, blank_request}
use xixi.ReceiveBuffer.{get_read_buf_size, handle_processed, consume, received}
use xixi.Session.Loop.{read_some}
use xixi.Session.Peer.{
  PeerState, new_cmd, read_header, read_body_fixed, read_body_extras, read_body_extras2, swallow,
  async_wait, write, closing, closed,
}

abbrev pub release_held : Option ℕ → Mgr → Mgr
release_held none m = m
release_held (some a) m = release_reference m a

-- Everything that a request sets, in the order of the fields.
unfoldable pub reset_for_new_cmd : PeerHttp → PeerHttp
unfolding release_reference CacheBuffer.reset
reset_for_new_cmd p = record p {
  mgr = release_held p.cache_item p.mgr;
  cache_item = none;
  group_id = 0;
  watch_id = 0;
  cache_id = 0;
  key = [];
  key_length = 0;
  value = [];
  value_length = 0;
  value_content_type = [];
  value_content_type_length = 0;
  post_data = [];
  content_length = 0;
  flags = 0;
  expiration = 0;
  touch_flag = false;
  delta = 1;
  ack_sequence = 0;
  interval = 120;
  timeout = 30;
  sub_op = 0;
  http_request = blank_request;
  request_buf = CacheBuffer.reset p.request_buf;
  write_buf_total = 0;
  next_data_len = 2;
  state = read_header;
}

-- The loop goes on where the flag is true. With it come the count of requests and the session.
abbrev pub Turn : Type 0
Turn = Bool × ℕ × PeerHttp

abbrev pub arrived : ℕ → PeerHttp → List ℕ × List (List ℕ) → Turn
arrived count p (bytes, pieces) =
    if is_empty bytes
    then (false, count, record p { arrivals = pieces })
    else (true, count, record p { arrivals = pieces; read_buffer = received bytes p.read_buffer })

-- The buffer is put in order, and read into.
unfoldable pub read_more : ℕ → PeerHttp → Turn
unfolding read_some handle_processed get_read_buf_size received
read_more count p =
    let b = handle_processed 2048 8192 p.read_buffer in
    arrived count (record p { read_buffer = b }) (read_some (get_read_buf_size b) p.arrivals)

-- The bytes of the head are taken, where there is one.
abbrev pub head_taken : ℕ → ℕ × PeerHttp → Turn
head_taken count (tmp, p) =
    if ltb 0 tmp
    then (true, (count + 1) % 2 ^ 32, record p { read_buffer = consume tmp p.read_buffer })
    else read_more count p

unfoldable pub header_turn : Env → ℕ → PeerHttp → Turn
unfolding try_read_command consume read_more
header_turn env count p = head_taken count (try_read_command env p.read_buffer.read_data p)

-- Bytes of the body behind those that have come.
abbrev pub receive_body : List ℕ → PeerHttp → PeerHttp
receive_body bytes p = record p {
  post_data = p.post_data ++ bytes;
  next_data_len = p.next_data_len - length bytes;
}

abbrev pub body_arrived : ℕ → PeerHttp → List ℕ × List (List ℕ) → Turn
body_arrived count p (bytes, pieces) =
    if is_empty bytes
    then (false, count, record p { arrivals = pieces })
    else (true, count, receive_body bytes (record p { arrivals = pieces }))

-- As much of the buffer as is wanted, at most.
abbrev pub part : PeerHttp → ℕ
part p =
    if ltb p.next_data_len (length p.read_buffer.read_data)
    then p.next_data_len
    else length p.read_buffer.read_data

unfoldable pub body_turn : Env → ℕ → PeerHttp → Turn
unfolding process_post consume take read_some
body_turn env count p =
    if p.next_data_len == 0
    then (true, count, process_post env p)
    else if ltb 0 (length p.read_buffer.read_data)
    then (
      true,
      count,
      receive_body (take (part p) p.read_buffer.read_data)
          (record p { read_buffer = consume (part p) p.read_buffer }),
    )
    else body_arrived count p (read_some p.next_data_len p.arrivals)

abbrev pub is_new_cmd : PeerState → Bool
is_new_cmd new_cmd = true
is_new_cmd _ = false

-- A reply is ready. Without a connection to keep, the session closes behind it. A request that has come
-- already is read before the reply is written, if none was read in this call.
unfoldable pub write_turn : ℕ → PeerHttp → Turn
write_turn count p =
    let next = if p.http_request.keepalive then p.next_state else closing in
    let p' = record p { state = next; next_state = new_cmd } in
    if is_new_cmd next && ltb count 1
    then if leb 10 (length p.read_buffer.read_data)
      then (true, count, record p' { state = read_header })
      else (false, count, p')
    else (false, count, p')

-- The body of the loop. The states of the binary session are not reached.
unfoldable pub turn_in : PeerState → Env → ℕ → PeerHttp → Turn
unfolding reset_for_new_cmd header_turn body_turn write_turn
turn_in new_cmd env count p = (true, count, reset_for_new_cmd p)
turn_in read_header env count p = header_turn env count p
turn_in read_body_extras env count p = body_turn env count p
turn_in async_wait env count p = (false, count, p)
turn_in write env count p = write_turn count p
turn_in closing env count p = (false, count, record p { state = closed })
turn_in closed env count p = (false, count, p)
turn_in read_body_fixed env count p = (false, count, p)
turn_in read_body_extras2 env count p = (false, count, p)
turn_in swallow env count p = (false, count, p)

-- Nothing follows a crash.
unfoldable pub turn : Env → ℕ → PeerHttp → Turn
unfolding turn_in
turn env count p = if p.crashed then (false, count, p) else turn_in p.state env count p

-- The loop, with the rounds left; none where they do not do.
unfoldable pub rounds : Env → ℕ → Turn → Option PeerHttp
unfolding turn
rounds env fuel (false, count, p) = some p
rounds env zero (true, count, p) = none
rounds env (suc fuel) (true, count, p) = rounds env fuel (turn env count p)

unfoldable pub process : Env → ℕ → PeerHttp → Option PeerHttp
unfolding rounds
process env fuel p = rounds env fuel (true, 0, p)
