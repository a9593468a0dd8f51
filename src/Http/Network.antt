-- ===== src/Http/Network.antt =====
-- src/peer_http.cpp: the handlers of Peer_Http that the network and the timer call. The lock makes each of
-- them a step. What they tell the log is left out.
use xixi.Prelude.{
  ℕ, ◌-◌, Bool, true, false, not, ◌&&◌, Option, none, some, List, [], ◌∷◌, leb, ◌==◌, if◌then◌else◌,
  length, is_empty,
}
use xixi.CacheMgr.Access.{release_reference}
use xixi.CacheMgr.Watches.{check_watch_and_clear_callback}
use xixi.Http.Loop.{process, release_held}
use xixi.Http.State.{Env, PeerHttp, Chunk}
use xixi.Http.Watching.{timer_checked}
use xixi.ReceiveBuffer.{get_read_buf_size, handle_processed, received}
use xixi.Session.Peer.{PeerState, async_wait, closed}
use xixi.Session.Watching.{no_updates}

-- What a handler asks of the network: a write of the chunks in line, or a read of at most so many bytes.
pub data Request : Type 0 where
  async_write : (chunks : List Chunk) → Request
  async_read_some : (size : ℕ) → Request

-- Whether the write started, what is asked, and the session.
unfoldable pub try_write : PeerHttp → Bool × List Request × PeerHttp
try_write p =
    if p.op_count == 0 && not (is_empty p.write_buf)
    then (true, Request.async_write p.write_buf ∷ [], record p { op_count = 1; write_buf = [] })
    else (false, [], p)

unfoldable pub try_read : PeerHttp → List Request × PeerHttp
unfolding handle_processed get_read_buf_size
try_read p =
    let b = handle_processed 2048 8192 p.read_buffer in
    if p.op_count == 0
    then (
      Request.async_read_some (get_read_buf_size b) ∷ [],
      record p { op_count = 1; read_buffer = b },
    )
    else ([], p)

abbrev is_waiting : PeerState → Bool
is_waiting async_wait = true
is_waiting _ = false

abbrev is_closed : PeerState → Bool
is_closed closed = true
is_closed _ = false

abbrev unlooked : Bool × List Request × PeerHttp → List Request × PeerHttp
unlooked (started, asked, p) = (asked, p)

-- `if (!try_write()) try_read()`
abbrev read_unless : Bool × List Request × PeerHttp → List Request × PeerHttp
read_unless (true, asked, p) = (asked, p)
read_unless (false, asked, p) = try_read p

-- What follows `process` in `start`, `handle_read` and `handle_write`.
unfoldable pub continue : PeerHttp → List Request × PeerHttp
unfolding try_write try_read
continue p =
    if is_waiting p.state
    then unlooked (try_write p)
    else if is_closed p.state
    then ([], p)
    else read_unless (try_write p)

abbrev continued : Option PeerHttp → Option (List Request × PeerHttp)
continued none = none
continued (some p) = some (continue p)

-- The session ends where nothing is under way and no timer runs.
unfoldable pub is_over : PeerHttp → Bool
is_over p = p.op_count == 0 && not (is_waiting p.state)

unfoldable pub start : Env → ℕ → List ℕ → PeerHttp → Option (List Request × PeerHttp)
unfolding get_read_buf_size received process continue
start env fuel bytes p =
    if leb (length bytes) (get_read_buf_size p.read_buffer)
    then continued (process env fuel (record p { read_buffer = received bytes p.read_buffer }))
    else some ([], p)

-- `err` is false where the read or the write went well.
unfoldable pub handle_read : Env → ℕ → Bool → List ℕ → PeerHttp → Option (List Request × PeerHttp)
unfolding received process continue
handle_read env fuel err bytes p0 =
    let p = record p0 { op_count = p0.op_count - 1 } in
    if err
    then some ([], p)
    else continued (process env fuel (record p { read_buffer = received bytes p.read_buffer }))

unfoldable pub handle_write : Env → ℕ → Bool → PeerHttp → Option (List Request × PeerHttp)
unfolding process continue
handle_write env fuel err p0 =
    let p = record p0 { op_count = p0.op_count - 1 } in
    if err then some ([], p) else continued (process env fuel p)

unfoldable pub handle_timer : ℕ → PeerHttp → List Request × PeerHttp
unfolding timer_checked try_write check_watch_and_clear_callback
handle_timer watch_id p = unlooked (
    try_write
      (timer_checked p (check_watch_and_clear_callback p.mgr (some p.self) watch_id no_updates)))

-- The destructor gives the reference back.
unfoldable pub cleanup : PeerHttp → PeerHttp
unfolding release_reference
cleanup p = record p { cache_item = none; mgr = release_held p.cache_item p.mgr }
