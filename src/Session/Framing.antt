-- ===== src/Session/Framing.antt =====
-- src/peer_cache.cpp: what Peer_Cache does with the bytes that follow the fixed part of a request.
use xixi.Prelude.{
  ℕ, ◌+◌, ◌%◌, ◌^◌, ◌≡◌, refl, ◌⊎◌, inl, inr, Bool, true, false, Option, none, some, arith, ltb,
  Bool-cases, is_empty,
}
use xixi.CacheMgr.Access.{alloc_item, item_size_ok}
use xixi.CacheMgr.State.{Mgr}
use xixi.CacheMgr.Sweep.{flush}
use xixi.CacheMgr.Watches.{create_watch, check_watch_and_set_callback}
use xixi.Pdu.Request.{
  Request, get_req, get_touch_req, get_base_req, update_req, update_flags_req,
  update_expiration_req, delete_req, auth_req, delta_req, flush_req, stats_req, hello_req,
  create_watch_req, check_watch_req,
}
use xixi.Pdu.Response.{flush_res, create_watch_res, stats_res}
use xixi.Session.Peer.{
  Env, Peer, swallow, read_body_extras, read_body_extras2, async_wait, write_error,
}
use xixi.Session.Process.{process_pdu_fixed}
use xixi.Session.Replies.{
  Answers, finish-write_res-Answers, write_error-Answers, reject-Answers, try_res-Answers,
}
use xixi.Session.Updates.{refuse, allocated, copied, process_update_req_pdu_fixed}
use xixi.Session.Watching.{
  watch_created, process_create_watch_req_pdu_fixed, start_timer, updates_res, watch_checked,
  no_updates, process_check_watch_req_pdu_fixed, flushed_all, process_flush_req_pdu_fixed,
  process_stats_req_pdu_fixed,
}
use xixi.Watch.{Out}

-- How many bytes follow the fixed part of a request. The length of a key and its data is a 32-bit sum.
abbrev pub trailing : Request → ℕ
trailing (get_req group_id watch_id key_length) = key_length
trailing (get_touch_req group_id watch_id expiration key_length) = key_length
trailing (get_base_req group_id key_length) = key_length
trailing (update_req op_flag cache_id group_id flags expiration watch_id key_length data_length) =
    (key_length + data_length) % 2 ^ 32
trailing (update_flags_req op_flag cache_id group_id flags key_length) = key_length
trailing (update_expiration_req op_flag cache_id group_id expiration key_length) = key_length
trailing (delete_req op_flag cache_id group_id key_length) = key_length
trailing (auth_req base64_length) = base64_length
trailing (delta_req op_flag cache_id group_id amount key_length) = key_length
trailing _ = 0

-- The session reads the bytes that follow.
abbrev pub Expects : ℕ → Peer → Type 0
Expects size q =
    ((q.state ≡ read_body_extras) ⊎ (q.state ≡ read_body_extras2)) × (q.next_data_len ≡ size)

-- An answer is in line, or `malloc` refused its memory, and the bytes that follow will be skipped once it is
-- written.
abbrev pub Refuses : Peer → ℕ → Peer → Type 0
Refuses p size q = Answers p q × ((size ≡ 0) ⊎ ((q.next_state ≡ swallow) × (q.swallow_size ≡ size)))

abbrev pub Waits : ℕ → Peer → Type 0
Waits size q = (q.state ≡ async_wait) × (size ≡ 0)

abbrev pub Frames : Peer → ℕ → Peer → Type 0
Frames p size q = Expects size q ⊎ (Refuses p size q ⊎ Waits size q)

write_error-Refuses : (code size : ℕ) (p : Peer) → Refuses p size (write_error code size true p)
unfolding write_error
write_error-Refuses code size p = (write_error-Answers p code size, skipped)
  where
    skipped :
        let q = write_error code size true p in
        (size ≡ 0) ⊎ ((q.next_state ≡ swallow) × (q.swallow_size ≡ size))
    skipped = elim (Bool-cases (ltb 0 size)) [
      | inl t ↦ rw t (inr (refl, refl))
      | inr f ↦ inl (ground (arith, f))
    ]

refuse-Refuses : (size : ℕ) (p : Peer) (r : Bool × Mgr) → Refuses p size (refuse size p r)
unfolding refuse
refuse-Refuses size p (true, m) =
    write_error-Refuses 9 size (record p { mgr = m; cache_item = none })
refuse-Refuses size p (false, m) =
    write_error-Refuses 3 size (record p { mgr = m; cache_item = none })

allocated-Frames :
    (key_length data_length size : ℕ) (p : Peer) (r : Option ℕ × Mgr)
    → Frames p size (allocated key_length data_length size p r)
unfolding allocated copied
allocated-Frames key_length data_length size p (none, m) =
    inr (inl (refuse-Refuses size p (item_size_ok m key_length data_length 0)))
allocated-Frames key_length data_length size p (some a, m) = inl (inl refl, refl)

watch_created-Answers : (p : Peer) (r : ℕ × Mgr) → Answers p (watch_created p r)
unfolding watch_created
watch_created-Answers p (id, m) =
    finish-write_res-Answers (record p { mgr = m }) (create_watch_res id)

flushed_all-Answers : (p : Peer) (r : Mgr × ℕ × ℕ) → Answers p (flushed_all p r)
unfolding flushed_all
flushed_all-Answers p (m, count, size) =
    finish-write_res-Answers (record p { mgr = m }) (flush_res count size)

watch_checked-Frames :
    (timeout id : ℕ) (p : Peer) (r : Bool × Out × Mgr) → Frames p 0 (watch_checked timeout id p r)
unfolding watch_checked start_timer
watch_checked-Frames timeout id p (false, out, m) =
    inr (inl (write_error-Answers (record p { mgr = m }) 12 0, inl refl))
watch_checked-Frames timeout id p (true, out, m) = elim (Bool-cases (is_empty out.updated_list)) [
  | inl t ↦ rw t (elim (Bool-cases p.timer_flag) [
    | inl on ↦ rw on (inr (inr (refl, refl)))
    | inr off ↦ rw off (inr (inr (refl, refl)))
  ])
  | inr f ↦ rw f (inr (inl (try_res-Answers (record p { mgr = m }) (updates_res out), inl refl)))
]

-- After the fixed part of any request the session reads exactly the bytes that follow it, or puts an
-- answer in line and skips exactly those bytes once it is written, or, for a check of a watch, waits. A
-- cache without memory and an item that is too large are such answers: the next request starts where it should.
-- Only where `malloc` refuses the memory of the reply itself may the session write through a null pointer in place of
-- the answer.
pub process_pdu_fixed-Frames :
    (env : Env) (p : Peer) (r : Request) → Frames p (trailing r) (process_pdu_fixed env p r)
unfolding process_pdu_fixed process_update_req_pdu_fixed process_create_watch_req_pdu_fixed
    process_check_watch_req_pdu_fixed process_flush_req_pdu_fixed process_stats_req_pdu_fixed
process_pdu_fixed-Frames env p (get_req g w k) = inl (inr refl, refl)
process_pdu_fixed-Frames env p (get_touch_req g w x k) = inl (inr refl, refl)
process_pdu_fixed-Frames env p (get_base_req g k) = inl (inr refl, refl)
process_pdu_fixed-Frames env p (update_req o c g f x w k d) =
    allocated-Frames k d ((k + d) % 2 ^ 32) p (alloc_item p.mgr g k f x d 0)
process_pdu_fixed-Frames env p (update_flags_req o c g f k) = inl (inr refl, refl)
process_pdu_fixed-Frames env p (update_expiration_req o c g x k) = inl (inr refl, refl)
process_pdu_fixed-Frames env p (delete_req o c g k) = inl (inr refl, refl)
process_pdu_fixed-Frames env p (auth_req b) = inl (inr refl, refl)
process_pdu_fixed-Frames env p (delta_req o c g d k) = inl (inr refl, refl)
process_pdu_fixed-Frames env p (flush_req g) =
    inr (inl (flushed_all-Answers p (flush p.mgr g), inl refl))
process_pdu_fixed-Frames env p (stats_req o c g) =
    inr (inl (try_res-Answers p (stats_res (env.stats_text (stats_req o c g) p.mgr)), inl refl))
process_pdu_fixed-Frames env p hello_req = inr (inl (reject-Answers p, inl refl))
process_pdu_fixed-Frames env p (create_watch_req g i) =
    inr (inl (watch_created-Answers p (create_watch p.mgr g i), inl refl))
process_pdu_fixed-Frames env p (check_watch_req g w t i a) =
    watch_checked-Frames t w (record p { timer_flag = false })
      (check_watch_and_set_callback p.mgr p.self g w a i no_updates)
