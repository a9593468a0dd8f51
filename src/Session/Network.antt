-- ===== src/Session/Network.antt =====
-- src/peer_cache.cpp: the handlers of Peer_Cache that the network and the timer call. The lock makes each
-- of them a step. What they tell the log is left out.
use xixi.Prelude.{
  ℕ, ◌-◌, Bool, true, false, not, ◌&&◌, Option, none, some, List, [], ◌∷◌, leb, ◌==◌, if◌then◌else◌,
  length, is_empty,
}
use xixi.CacheMgr.Watches.{check_watch_and_clear_callback}
use xixi.ReceiveBuffer.{get_read_buf_size, handle_processed, received}
use xixi.Session.Loop.{process, release_items}
use xixi.Session.Peer.{Env, Peer, PeerState, async_wait, closed, Chunk}
use xixi.Session.Watching.{timer_checked, no_updates}

-- What a handler asks of the network: a write of the chunks in line, or a read of at most so many bytes.
pub data Request : Type 0 where
  async_write : (chunks : List Chunk) → Request
  async_read_some : (size : ℕ) → Request

-- Whether the write started, what is asked, and the session.
unfoldable pub try_write : Peer → Bool × List Request × Peer
try_write p =
    if p.op_count == 0 && not (is_empty p.write_buf)
    then (true, Request.async_write p.write_buf ∷ [], record p { op_count = 1; write_buf = [] })
    else (false, [], p)

unfoldable pub try_read : Peer → List Request × Peer
unfolding handle_processed get_read_buf_size
try_read p =
    let b = handle_processed 2048 8192 p.read_buffer in
    if p.op_count == 0
    then (
      Request.async_read_some (get_read_buf_size b) ∷ [],
      record p { op_count = 1; read_buffer = b },
    )
    else ([], p)

abbrev is_waiting : PeerState → Bool
is_waiting async_wait = true
is_waiting _ = false

abbrev is_closed : PeerState → Bool
is_closed closed = true
is_closed _ = false

-- The result of a write whose answer is not looked at.
abbrev unlooked : Bool × List Request × Peer → List Request × Peer
unlooked (started, asked, p) = (asked, p)

-- `if (!try_write()) try_read()`
unfoldable pub read_unless : Bool × List Request × Peer → List Request × Peer
unfolding try_read
read_unless (true, asked, p) = (asked, p)
read_unless (false, asked, p) = try_read p

-- What follows `process` in `start`, `handle_read` and `handle_write`.
unfoldable pub continue : Peer → List Request × Peer
unfolding try_write read_unless
continue p =
    if is_waiting p.state
    then unlooked (try_write p)
    else if is_closed p.state
    then ([], p)
    else read_unless (try_write p)

abbrev continued : Option Peer → Option (List Request × Peer)
continued none = none
continued (some p) = some (continue p)

-- The session ends where nothing is under way and no timer runs.
abbrev pub is_over : Peer → Bool
is_over p = p.op_count == 0 && not (is_waiting p.state)

unfoldable pub start : Env → ℕ → List ℕ → Peer → Option (List Request × Peer)
unfolding get_read_buf_size received process continue
start env fuel bytes p =
    if leb (length bytes) (get_read_buf_size p.read_buffer)
    then continued (process env fuel (record p { read_buffer = received bytes p.read_buffer }))
    else some ([], p)

-- `err` is false where the read or the write went well.
unfoldable pub handle_read : Env → ℕ → Bool → List ℕ → Peer → Option (List Request × Peer)
unfolding received process continue
handle_read env fuel err bytes p0 =
    let p = record p0 { op_count = p0.op_count - 1 } in
    if err
    then some ([], p)
    else continued (process env fuel (record p { read_buffer = received bytes p.read_buffer }))

unfoldable pub handle_write : Env → ℕ → Bool → Peer → Option (List Request × Peer)
unfolding process continue
handle_write env fuel err p0 =
    let p = record p0 { op_count = p0.op_count - 1 } in
    if err then some ([], p) else continued (process env fuel p)

unfoldable pub handle_timer : ℕ → Peer → List Request × Peer
unfolding timer_checked try_write check_watch_and_clear_callback
handle_timer watch_id p = unlooked (
    try_write
      (timer_checked p (check_watch_and_clear_callback p.mgr (some p.self) watch_id no_updates)))

-- The destructor gives the references back.
unfoldable pub cleanup : Peer → Peer
unfolding release_items
cleanup p = record p {
  cache_item = none;
  mgr = release_items p.cache_items p.mgr;
  cache_items = [];
}
