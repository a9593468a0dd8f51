-- ===== src/Http/CommandReplies.antt =====
-- src/peer_http.cpp: the handlers of the commands that change the cache, flush and statistics all reply.
use xixi.Prelude.{
  ℕ, refl, inl, Bool, true, false, not, Option, none, some, List, ◌++◌, ◌==◌, length, codes,
}
use xixi.CacheBuffer.{put}
use xixi.CacheMgr.Access.{alloc_item, item_size_ok, update_flags, update_expiration}
use xixi.CacheMgr.Delta.{delta}
use xixi.CacheMgr.State.{Mgr, Reason, success, too_large, out_of_memory, not_found, mismatch}
use xixi.CacheMgr.Store.{remove}
use xixi.CacheMgr.Sweep.{flush}
use xixi.CacheMgr.Watches.{create_watch}
use xixi.Http.Answering.{
  Kept, Replies, Kept-refl, Kept-trans, Replies-trans, add_printed-Kept, add_write_buf-Kept,
  finish-Replies, prepare_buf-Kept, printed-Kept, write_error-Replies, write_body-Replies, either,
}
use xixi.Http.Commands.{
  answer_update, refused_item, store_item, process_update, removed, process_delete, counted,
  process_delta, updated, release_item, process_update_flags, process_touch, watch_created,
  process_create_watch, flushed, process_flush, text_copied, stats_header, process_stats, id_text,
  value_text, flush_text, filled,
}
use xixi.Http.Files.{key_of}
use xixi.Http.Replies.{
  reason_code, by_keepalive, delete_res_200_keep_alive, delete_res_200_close, write_error,
  write_body, default_res_200_keep_alive, default_res_200_close, size_header, print_uint,
}
use xixi.Http.State.{
  Env, PeerHttp, Chunk, add_text, add_printed, add_write_buf, prepare_buf, printed, finish,
}
use xixi.Session.Updates.{update_by}

fails :
    (p : PeerHttp) (error_code : ℕ) (m : Mgr)
    → Replies p (write_error error_code (record p { mgr = m }))
fails p error_code m = write_error-Replies p error_code (record p { mgr = m }) (Kept-refl p)

answer_update-Replies : (p : PeerHttp) (r : ℕ × ℕ × Mgr) → Replies p (answer_update r p)
unfolding answer_update
answer_update-Replies p (reason, cache_id, m) =
    let q = record p { mgr = m } in
    either p (write_body 50 30 (id_text cache_id) q) (write_error reason q) (reason == 0)
      (write_body-Replies p 50 30 (id_text cache_id) q (Kept-refl p)) (fails p reason m)

refused_item-Replies : (p : PeerHttp) (r : Bool × Mgr) → Replies p (refused_item p r)
refused_item-Replies p (true, m) =
    write_error-Replies p (reason_code out_of_memory) (record p { mgr = m; cache_item = none })
      (Kept-refl p)
refused_item-Replies p (false, m) =
    write_error-Replies p (reason_code too_large) (record p { mgr = m; cache_item = none })
      (Kept-refl p)

store_item-Replies :
    (env : Env) (sub_op : ℕ) (p : PeerHttp) (r : Option ℕ × Mgr)
    → Replies p (store_item env sub_op p r)
unfolding store_item release_item
store_item-Replies env sub_op p (none, m) =
    refused_item-Replies p (item_size_ok m p.key_length p.value_length p.value_content_type_length)
store_item-Replies env sub_op p (some a, m) =
    answer_update-Replies (record p { mgr = m; cache_item = some a })
      (update_by sub_op (filled env p a m) a p.watch_id)

pub process_update-Replies :
    (env : Env) (sub_op : ℕ) (p : PeerHttp) → Replies p (process_update env sub_op p)
unfolding process_update
process_update-Replies env sub_op p = store_item-Replies env sub_op p (
    alloc_item p.mgr p.group_id p.key_length p.flags p.expiration p.value_length
      p.value_content_type_length)

removed-Replies : (p : PeerHttp) (r : Reason × Mgr) → Replies p (removed p r)
unfolding removed
removed-Replies p (reason, m) = elim reason as (λ k. Replies p (removed p (k, m))) [
  | success ↦
      (let q = record p { mgr = m } in
        let text = by_keepalive delete_res_200_keep_alive delete_res_200_close q in
        finish-Replies text p (add_text text q) (Kept-refl (add_text text q)))
  | k ↦ fails p (reason_code k) m
]

pub process_delete-Replies : (p : PeerHttp) → Replies p (process_delete p)
unfolding process_delete
process_delete-Replies p = removed-Replies p (remove p.mgr (key_of p) p.cache_id)

counted-Replies : (p : PeerHttp) (r : Reason × ℕ × ℕ × Mgr) → Replies p (counted p r)
unfolding counted
counted-Replies p (reason, cache_id, value, m) =
    elim reason as (λ k. Replies p (counted p (k, cache_id, value, m))) [
      | success ↦
          write_body-Replies p 100 50 (value_text value cache_id)
            (record p { mgr = m; cache_id = cache_id }) (Kept-refl p)
      | k ↦
          write_error-Replies p (reason_code k) (record p { mgr = m; cache_id = cache_id })
            (Kept-refl p)
    ]

pub process_delta-Replies : (incr : Bool) (p : PeerHttp) → Replies p (process_delta incr p)
unfolding process_delta
process_delta-Replies incr p = counted-Replies p (delta p.mgr (key_of p) incr p.delta p.cache_id)

updated-Replies : (p : PeerHttp) (r : Bool × ℕ × Mgr) → Replies p (updated p r)
unfolding updated
updated-Replies p (true, cache_id, m) =
    write_body-Replies p 50 50 (id_text cache_id) (record p { mgr = m }) (Kept-refl p)
updated-Replies p (false, cache_id, m) =
    let q = record p { mgr = m } in
    either p (write_error (reason_code mismatch) q) (write_error (reason_code not_found) q)
      (not (cache_id == 0)) (fails p (reason_code mismatch) m) (fails p (reason_code not_found) m)

pub process_update_flags-Replies : (p : PeerHttp) → Replies p (process_update_flags p)
unfolding process_update_flags
process_update_flags-Replies p =
    updated-Replies p (update_flags p.mgr (key_of p) p.cache_id p.flags)

pub process_touch-Replies : (p : PeerHttp) → Replies p (process_touch p)
unfolding process_touch
process_touch-Replies p =
    updated-Replies p (update_expiration p.mgr (key_of p) p.cache_id p.expiration)

pub process_create_watch-Replies : (p : PeerHttp) → Replies p (process_create_watch p)
unfolding process_create_watch watch_created
process_create_watch-Replies p =
    let (watch_id, m) = create_watch p.mgr p.group_id p.interval in
    write_body-Replies p 50 50 (codes "{\"watchid\":" ++ print_uint watch_id ++ codes "}")
      (record p { mgr = m }) (Kept-refl p)

pub process_flush-Replies : (p : PeerHttp) → Replies p (process_flush p)
unfolding process_flush flushed
process_flush-Replies p =
    let (m, flush_count, flush_size) = flush p.mgr p.group_id in
    write_body-Replies p 50 50 (flush_text flush_count flush_size) (record p { mgr = m })
      (Kept-refl p)

text_copied-Replies :
    (p : PeerHttp) (text : List ℕ) (at : Option (ℕ × ℕ)) (r : Option (ℕ × ℕ) × PeerHttp)
    → Kept p r.1
    → Replies p (finish (text_copied text at r))
text_copied-Replies p text at (none, q) h = (h, inl refl)
text_copied-Replies p text header_at (some (block, offset), q) h =
    let q0 = record q { request_buf = put block offset text q.request_buf } in
    let status = by_keepalive default_res_200_keep_alive default_res_200_close q in
    let q1 = add_text status q0 in
    let q2 = add_printed (size_header text) header_at q1 in
    let q3 = add_write_buf (Chunk.region block offset (length text)) (length text) q2 in
    Replies-trans p q (finish (text_copied text header_at (some (block, offset), q))) h (
      finish-Replies status q0 q3 (
        Kept-trans q1 q2 q3 (add_printed-Kept (size_header text) header_at q1)
          (add_write_buf-Kept (Chunk.region block offset (length text)) (length text) q2)))

stats_header-Replies :
    (p : PeerHttp) (text : List ℕ) (r : Option (ℕ × ℕ) × PeerHttp)
    → Kept p r.1
    → Replies p (finish (stats_header text r))
stats_header-Replies p text (at, q) h =
    text_copied-Replies p text at (prepare_buf (length text) q)
      (Kept-trans p q (prepare_buf (length text) q).1 h (prepare_buf-Kept (length text) q))

pub process_stats-Replies : (env : Env) (p : PeerHttp) → Replies p (process_stats env p)
unfolding process_stats
process_stats-Replies env p =
    let text = env.stats_text p.group_id p.sub_op p.mgr in
    stats_header-Replies p text (printed 50 (size_header text) p)
      (printed-Kept 50 (size_header text) p)
