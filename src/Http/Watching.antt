-- ===== src/Http/Watching.antt =====
-- src/peer_http.cpp: the handlers of Peer_Http for a watch, its timer, and the call from the cache.
use xixi.Prelude.{
  ℕ, zero, suc, ◌+◌, ◌-◌, ◌%◌, ◌^◌, Bool, true, false, Option, none, some, List, [], ◌∷◌, ◌++◌, ltb,
  if◌then◌else◌, length, is_empty, take, codes,
}
use xixi.CacheBuffer.{put}
use xixi.CacheMgr.State.{Mgr, watch_not_found, out_of_memory}
use xixi.CacheMgr.Watches.{check_watch_and_set_callback}
use xixi.Http.Replies.{
  default_res_200_keep_alive, default_res_200_close, write_error, print_uint, by_keepalive,
  reason_code,
}
use xixi.Http.State.{
  PeerHttp, Chunk, literal, region, prepare_buf, add_write_buf, printed, finish, chunk_at,
}
use xixi.Session.Peer.{PeerState, TimerCall, cancel}
use xixi.Session.Watching.{no_updates}
use xixi.Watch.{Out}

-- `write_buf_[index] = chunk`, where there is such an entry.
unfoldable pub put_chunk : ℕ → Chunk → List Chunk → List Chunk
put_chunk index chunk [] = []
put_chunk zero chunk (c ∷ chunks) = chunk ∷ chunks
put_chunk (suc index) chunk (c ∷ chunks) = c ∷ put_chunk index chunk chunks

-- `update_write_buf`
unfoldable pub update_write_buf : ℕ → Chunk → ℕ → PeerHttp → PeerHttp
unfolding put_chunk
update_write_buf index chunk size p =
    if ltb index (length p.write_buf)
    then record p {
      write_buf = put_chunk index chunk p.write_buf;
      write_buf_total = (p.write_buf_total + size) % 2 ^ 32;
    }
    else p

-- `pop_write_buf`
unfoldable pub pop_write_buf : ℕ → PeerHttp → PeerHttp
unfolding take
pop_write_buf pop_count p = record p {
  write_buf = take (length p.write_buf - pop_count) p.write_buf;
}

-- The numbers printed so far, as a chunk of the buffer at their region.
abbrev pub add_numbers : List ℕ → ℕ × ℕ → PeerHttp → PeerHttp
add_numbers text (block, offset) p =
    add_write_buf (region block offset (length text)) (length text)
      (record p { request_buf = put block offset (text ++ 0 ∷ []) p.request_buf })

-- The status line and the size of the list take the places kept for them.
abbrev pub header_put : List ℕ → Option (ℕ × ℕ) × PeerHttp → PeerHttp
header_put text (none, p) = p
header_put text (some at, p) = finish (
    update_write_buf 1 (chunk_at text at) (length text) (
      update_write_buf 0 (literal (by_keepalive default_res_200_keep_alive default_res_200_close p))
        (length (by_keepalive default_res_200_keep_alive default_res_200_close p)) p))

abbrev pub total_text : ℕ → List ℕ
total_text total_size = print_uint total_size ++ codes "\r\n\r\n"

abbrev pub list_ended : List ℕ → ℕ → ℕ × ℕ → PeerHttp → PeerHttp
list_ended text total_size at p =
    header_put (total_text total_size) (
      printed 50 (total_text total_size) (if ltb 0 (length text) then add_numbers text at p else p))

-- The next buffer of 2000 bytes; without one the chunks of this reply are taken back.
abbrev pub next_buffer : ℕ → Option (ℕ × ℕ) × PeerHttp → (ℕ × ℕ → PeerHttp → PeerHttp) → PeerHttp
next_buffer write_buf_count (none, p) next =
    write_error (reason_code out_of_memory) (pop_write_buf write_buf_count p)
next_buffer write_buf_count (some at, p) next = next at p

abbrev pub listed : Bool → ℕ → List ℕ
listed is_begin cache_id = if is_begin then print_uint cache_id else b',' ∷ print_uint cache_id

-- The loop over the list: what is printed in the buffer so far, the size of all that is printed, and the count of
-- chunks.
unfoldable pub encode_from : List ℕ → Bool → ℕ × ℕ → List ℕ → ℕ → ℕ → PeerHttp → PeerHttp
unfolding prepare_buf printed print_uint update_write_buf pop_write_buf write_error
    default_res_200_keep_alive default_res_200_close
encode_from [] is_begin at text total_size write_buf_count p = list_ended text total_size at p
encode_from (cache_id ∷ updated_list) is_begin at text total_size write_buf_count p =
    let text' = text ++ listed is_begin cache_id in
    let total_size' = (total_size + length (listed is_begin cache_id)) % 2 ^ 32 in
    if ltb 2000 (length text' + 30)
    then next_buffer (write_buf_count + 1) (prepare_buf 2000 (add_numbers text' at p))
        (λ at' q. encode_from updated_list false at' [] total_size' (write_buf_count + 1) q)
    else encode_from updated_list false at text' total_size' write_buf_count p

abbrev pub list_begun : List ℕ → Option (ℕ × ℕ) × PeerHttp → PeerHttp
list_begun updated_list (none, p) = write_error (reason_code out_of_memory) p
list_begun updated_list (some at, p) =
    encode_from updated_list true at [] 0 2
      (add_write_buf (literal []) 0 (add_write_buf (literal []) 0 p))

unfoldable pub encode_update_list : List ℕ → PeerHttp → PeerHttp
unfolding encode_from prepare_buf write_error
encode_update_list updated_list p = list_begun updated_list (prepare_buf 2000 p)

-- The timer starts; it is cancelled at once where a notification came first.
unfoldable pub start_timer : PeerHttp → PeerHttp
start_timer p =
    let calls = p.timer_calls ++ TimerCall.async_wait p.timeout p.watch_id ∷ [] in
    let p' = record p { state = PeerState.async_wait } in
    if p.timer_flag
    then record p' { timer_calls = calls ++ cancel ∷ [] }
    else record p' { timer_calls = calls; timer_flag = true }

unfoldable pub watch_checked : PeerHttp → Bool × Out × Mgr → PeerHttp
unfolding write_error encode_update_list start_timer
watch_checked p (false, out, m) = write_error (reason_code watch_not_found) (record p { mgr = m })
watch_checked p (true, out, m) =
    let p' = record p { mgr = m } in
    if is_empty out.updated_list then start_timer p' else encode_update_list out.updated_list p'

unfoldable pub process_watch : PeerHttp → PeerHttp
unfolding watch_checked check_watch_and_set_callback
process_watch p0 =
    let p = record p0 { timer_flag = false } in
    watch_checked p (
      check_watch_and_set_callback p.mgr p.self p.group_id p.watch_id p.ack_sequence p.interval
        no_updates)

-- The cache tells the sink.
unfoldable pub on_cache_watch_notify : PeerHttp → PeerHttp
on_cache_watch_notify p =
    if p.timer_flag
    then record p { timer_calls = p.timer_calls ++ cancel ∷ [] }
    else record p { timer_flag = true }

unfoldable pub timer_checked : PeerHttp → Bool × Out × Mgr → PeerHttp
unfolding write_error encode_update_list
timer_checked p (false, out, m) = write_error (reason_code watch_not_found) (record p { mgr = m })
timer_checked p (true, out, m) = encode_update_list out.updated_list (record p { mgr = m })
