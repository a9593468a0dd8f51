-- ===== src/Session/Watching.antt =====
-- src/peer_cache.cpp: the handlers of Peer_Cache for watches, flush, statistics and hello, and the calls
-- that come from the timer and from the cache.
use xixi.Prelude.{
  ℕ, Bool, true, false, Option, none, some, List, [], ◌∷◌, ◌++◌, if◌then◌else◌, is_empty,
}
use xixi.CacheMgr.Sweep.{flush}
use xixi.CacheMgr.State.{Mgr, watch_not_found, out_of_memory}
use xixi.CacheMgr.Watches.{create_watch, check_watch_and_set_callback}
use xixi.Pdu.Request.{Request}
use xixi.Pdu.Response.{
  Response, create_watch_res, check_watch_res, flush_res, stats_res, calc_encode_size,
}
use xixi.Session.Peer.{
  Env, Peer, PeerState, TimerCall, cancel, reason_code, write_res, finish, write_simple_res,
  write_error, try_res, base_size, encoded, skip,
}
use xixi.CacheBuffer.{CacheBuffer, prepare}
use xixi.Watch.{Out}

abbrev hello_res_choice : ℕ
hello_res_choice = 2

unfoldable pub process_hello_req_pdu_fixed : Peer → Peer
unfolding write_simple_res
process_hello_req_pdu_fixed p = write_simple_res hello_res_choice p

unfoldable pub watch_created : Peer → ℕ × Mgr → Peer
unfolding write_res
watch_created p (watch_id, m) =
    finish (write_res (create_watch_res watch_id) (record p { mgr = m }))

unfoldable pub process_create_watch_req_pdu_fixed : ℕ → ℕ → Peer → Peer
unfolding watch_created create_watch
process_create_watch_req_pdu_fixed group_id max_next_check_interval p =
    watch_created p (create_watch p.mgr group_id max_next_check_interval)

-- Empty vectors, and a sequence number that is not set yet.
abbrev pub no_updates : Out
no_updates = record { sequence = 0; updated_list = []; updated_type_list = [] }

-- The two vectors as pairs; they have the same length.
unfoldable pub paired : List ℕ → List ℕ → List (ℕ × ℕ)
paired (x ∷ xs) (y ∷ ys) = (x, y) ∷ paired xs ys
paired [] ys = []
paired (x ∷ xs) [] = []

abbrev pub updates_res : Out → Response
updates_res out = check_watch_res out.sequence (paired out.updated_list out.updated_type_list)

-- The timer starts; it is cancelled at once where a notification came first.
unfoldable pub start_timer : ℕ → ℕ → Peer → Peer
start_timer check_timeout watch_id p =
    let calls = p.timer_calls ++ TimerCall.async_wait check_timeout watch_id ∷ [] in
    let p' = record p { state = PeerState.async_wait } in
    if p.timer_flag
    then record p' { timer_calls = calls ++ cancel ∷ [] }
    else record p' { timer_calls = calls; timer_flag = true }

unfoldable pub watch_checked : ℕ → ℕ → Peer → Bool × Out × Mgr → Peer
unfolding write_error try_res start_timer paired
watch_checked check_timeout watch_id p (false, out, m) =
    write_error (reason_code watch_not_found) 0 true (record p { mgr = m })
watch_checked check_timeout watch_id p (true, out, m) =
    let p' = record p { mgr = m } in
    if is_empty out.updated_list
    then start_timer check_timeout watch_id p'
    else try_res (updates_res out) p'

unfoldable pub process_check_watch_req_pdu_fixed : ℕ → ℕ → ℕ → ℕ → ℕ → Peer → Peer
unfolding watch_checked check_watch_and_set_callback
process_check_watch_req_pdu_fixed group_id watch_id check_timeout interval ack_sequence p =
    watch_checked check_timeout watch_id (record p { timer_flag = false })
      (check_watch_and_set_callback p.mgr p.self group_id watch_id ack_sequence interval no_updates)

unfoldable pub flushed_all : Peer → Mgr × ℕ × ℕ → Peer
unfolding write_res
flushed_all p (m, flush_count, flush_size) =
    finish (write_res (flush_res flush_count flush_size) (record p { mgr = m }))

unfoldable pub process_flush_req_pdu_fixed : ℕ → Peer → Peer
unfolding flushed_all flush
process_flush_req_pdu_fixed group_id p = flushed_all p (flush p.mgr group_id)

unfoldable pub process_stats_req_pdu_fixed : Env → Request → Peer → Peer
unfolding try_res
process_stats_req_pdu_fixed env pdu p = try_res (stats_res (env.stats_text pdu p.mgr)) p

-- The cache tells the sink.
unfoldable pub on_cache_watch_notify : Peer → Peer
on_cache_watch_notify p =
    if p.timer_flag
    then record p { timer_calls = p.timer_calls ++ cancel ∷ [] }
    else record p { timer_flag = true }

-- The answer after a wait leaves the session ready for the next command.
unfoldable pub timer_tried : Response → Peer → Option (ℕ × ℕ) × CacheBuffer → Peer
unfolding encoded write_error
timer_tried r p (none, b) =
    write_error (reason_code out_of_memory) 0 true (record p { cache_buf = b })
timer_tried r p (some at, b) = skip (encoded r p at b)

unfoldable pub timer_checked : Peer → Bool × Out × Mgr → Peer
unfolding write_error timer_tried paired prepare
timer_checked p (false, out, m) =
    write_error (reason_code watch_not_found) 0 true (record p { mgr = m })
timer_checked p (true, out, m) =
    let r = updates_res out in
    timer_tried r (record p { mgr = m }) (prepare base_size (calc_encode_size r) p.cache_buf)
