-- ===== src/Http/Commands.antt =====
-- src/peer_http.cpp: the handlers of Peer_Http for the commands that change the cache, and for flush and
-- statistics.
use xixi.Prelude.{
  ℕ, Bool, true, not, Option, none, some, List, ◌++◌, ◌==◌, if◌then◌else◌, length, take, codes,
}
use xixi.CacheBuffer.{put}
use xixi.CacheMgr.Access.{
  alloc_item, item_size_ok, update_flags, update_expiration, release_reference,
}
use xixi.CacheMgr.Delta.{delta, print_int64}
use xixi.CacheMgr.State.{Mgr, Reason, not_found, too_large, mismatch, out_of_memory, write}
use xixi.CacheMgr.Store.{remove}
use xixi.CacheMgr.Sweep.{flush}
use xixi.CacheMgr.Watches.{create_watch}
use xixi.Http.Files.{key_of, key_bytes}
use xixi.Http.Replies.{
  delete_res_200_keep_alive, delete_res_200_close, default_res_200_keep_alive,
  default_res_200_close, write_error, write_body, print_uint, by_keepalive, reason_code,
  size_header,
}
use xixi.Http.State.{
  Env, PeerHttp, region, prepare_buf, add_write_buf, add_text, add_printed, printed, finish,
}
use xixi.Session.Updates.{update_by}

-- The answers that hold the number of an item.
abbrev pub id_text : ℕ → List ℕ
id_text cache_id = codes "{\"cacheid\":" ++ print_uint cache_id ++ codes "}"

abbrev pub refused_item : PeerHttp → Bool × Mgr → PeerHttp
refused_item p (size_ok, m) =
    let p' = record p { mgr = m; cache_item = none } in
    if size_ok
    then write_error (reason_code out_of_memory) p'
    else write_error (reason_code too_large) p'

unfoldable pub answer_update : ℕ × ℕ × Mgr → PeerHttp → PeerHttp
unfolding write_body write_error print_uint
answer_update (reason, cache_id, m) p =
    let p' = record p { mgr = m } in
    if reason == 0 then write_body 50 30 (id_text cache_id) p' else write_error reason p'

-- The reference of the session goes back.
unfoldable pub release_item : ℕ → PeerHttp → PeerHttp
unfolding release_reference
release_item a p = record p { mgr = release_reference p.mgr a; cache_item = none }

-- The item with the key, the value and the type of the request. The value follows as much of the key as the item's 16-bit
-- length tells, so a longer key is cut.
abbrev pub filled : Env → PeerHttp → ℕ → Mgr → Mgr
filled env p a m =
    let key : List ℕ = take (m.items a).key_length (key_bytes p) in
    write a
      (record (m.items a) {
        key = key;
        value = take p.value_length p.value;
        ext = take p.value_content_type_length p.value_content_type;
        hash_value = env.hash32 key p.group_id;
        cache_id = p.cache_id;
      })
      m

unfoldable pub store_item : Env → ℕ → PeerHttp → Option ℕ × Mgr → PeerHttp
unfolding update_by answer_update release_item item_size_ok write_error take
store_item env sub_op p (none, m) =
    refused_item p (item_size_ok m p.key_length p.value_length p.value_content_type_length)
store_item env sub_op p (some a, m) = release_item a (
    answer_update (update_by sub_op (filled env p a m) a p.watch_id)
      (record p { mgr = m; cache_item = some a }))

-- 0 to 4 stand for set, add, replace, append and prepend.
unfoldable pub process_update : Env → ℕ → PeerHttp → PeerHttp
unfolding store_item alloc_item
process_update env sub_op p = store_item env sub_op p (
    alloc_item p.mgr p.group_id p.key_length p.flags p.expiration p.value_length
      p.value_content_type_length)

unfoldable pub removed : PeerHttp → Reason × Mgr → PeerHttp
unfolding delete_res_200_keep_alive delete_res_200_close write_error
removed p (Reason.success, m) =
    let p' = record p { mgr = m } in
    finish (add_text (by_keepalive delete_res_200_keep_alive delete_res_200_close p') p')
removed p (reason, m) = write_error (reason_code reason) (record p { mgr = m })

unfoldable pub process_delete : PeerHttp → PeerHttp
unfolding removed remove take
process_delete p = removed p (remove p.mgr (key_of p) p.cache_id)

abbrev pub value_text : ℕ → ℕ → List ℕ
value_text value cache_id =
    codes "{\"value\":"
    ++ print_int64 value
    ++ codes ",\"cacheid\":"
    ++ print_uint cache_id
    ++ codes "}"

unfoldable pub counted : PeerHttp → Reason × ℕ × ℕ × Mgr → PeerHttp
unfolding write_body write_error print_uint print_int64
counted p (Reason.success, cache_id, value, m) =
    write_body 100 50 (value_text value cache_id) (record p { mgr = m; cache_id = cache_id })
counted p (reason, cache_id, value, m) =
    write_error (reason_code reason) (record p { mgr = m; cache_id = cache_id })

unfoldable pub process_delta : Bool → PeerHttp → PeerHttp
unfolding counted delta take
process_delta incr p = counted p (delta p.mgr (key_of p) incr p.delta p.cache_id)

-- A mismatch is told by the item's number.
unfoldable pub updated : PeerHttp → Bool × ℕ × Mgr → PeerHttp
unfolding write_body write_error print_uint
updated p (ret, cache_id, m) =
    let p' = record p { mgr = m } in
    if ret
    then write_body 50 50 (id_text cache_id) p'
    else if not (cache_id == 0)
    then write_error (reason_code mismatch) p'
    else write_error (reason_code not_found) p'

unfoldable pub process_update_flags : PeerHttp → PeerHttp
unfolding updated update_flags take
process_update_flags p = updated p (update_flags p.mgr (key_of p) p.cache_id p.flags)

unfoldable pub process_touch : PeerHttp → PeerHttp
unfolding updated update_expiration take
process_touch p = updated p (update_expiration p.mgr (key_of p) p.cache_id p.expiration)

unfoldable pub watch_created : PeerHttp → ℕ × Mgr → PeerHttp
unfolding write_body print_uint
watch_created p (watch_id, m) =
    write_body 50 50 (codes "{\"watchid\":" ++ print_uint watch_id ++ codes "}")
      (record p { mgr = m })

unfoldable pub process_create_watch : PeerHttp → PeerHttp
unfolding watch_created create_watch
process_create_watch p = watch_created p (create_watch p.mgr p.group_id p.interval)

abbrev pub flush_text : ℕ → ℕ → List ℕ
flush_text flush_count flush_size =
    codes "{\"flushcount\":"
    ++ print_uint flush_count
    ++ codes ",\"flushsize\":"
    ++ print_uint flush_size
    ++ codes "}"

unfoldable pub flushed : PeerHttp → Mgr × ℕ × ℕ → PeerHttp
unfolding write_body print_uint
flushed p (m, flush_count, flush_size) =
    write_body 50 50 (flush_text flush_count flush_size) (record p { mgr = m })

unfoldable pub process_flush : PeerHttp → PeerHttp
unfolding flushed flush
process_flush p = flushed p (flush p.mgr p.group_id)

-- The text copied to a region, behind the header that is printed first. No pointer is tested.
abbrev pub text_copied : List ℕ → Option (ℕ × ℕ) → Option (ℕ × ℕ) × PeerHttp → PeerHttp
text_copied text header_at (none, p) = record p { crashed = true }
text_copied text header_at (some (block, offset), p) =
    add_write_buf (region block offset (length text)) (length text) (
      add_printed (size_header text) header_at (
        add_text (by_keepalive default_res_200_keep_alive default_res_200_close p)
          (record p { request_buf = put block offset text p.request_buf })))

abbrev pub stats_header : List ℕ → Option (ℕ × ℕ) × PeerHttp → PeerHttp
stats_header text (at, p) = text_copied text at (prepare_buf (length text) p)

-- The class of the request is not set; its number goes into the parameter for the text.
unfoldable pub process_stats : Env → PeerHttp → PeerHttp
unfolding printed prepare_buf print_uint default_res_200_keep_alive default_res_200_close
process_stats env p =
    let text = env.stats_text p.group_id p.sub_op p.mgr in
    finish (stats_header text (printed 50 (size_header text) p))
