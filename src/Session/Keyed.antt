-- ===== src/Session/Keyed.antt =====
-- src/peer_cache.cpp: the requests with a key are answered.
use xixi.Prelude.{
  ℕ, ◌%◌, ◌≤◌, ◌≡◌, refl, inl, inr, Bool, true, false, Option, none, some, List, [], ◌∷◌, ◌++◌,
  arith, ltb, ◌==◌, if◌then◌else◌, Bool-cases, length, length-append,
}
use xixi.CacheMgr.Access.{get, get_touch, update_flags, update_expiration, release_reference}
use xixi.CacheMgr.Delta.{delta}
use xixi.CacheMgr.State.{
  Mgr, Reason, success, not_found, exists, too_large, mismatch, out_of_memory, watch_not_found,
  write,
}
use xixi.CacheMgr.Store.{remove}
use xixi.Pdu.Request.{
  Request, get_req, get_touch_req, get_base_req, update_req, update_flags_req,
  update_expiration_req, delete_req, auth_req, delta_req, flush_req, stats_req, hello_req,
  create_watch_req, check_watch_req,
}
use xixi.Pdu.Response.{Response, get_res, delta_res, update_flags_res, update_expiration_res}
use xixi.Session.Peer.{Env, Peer, write_res, finish, write_error, reason_code}
use xixi.Session.Process.{process_pdu_extras2}
use xixi.Session.Requests.{
  key_in, send_item, got, got_touch, got_base, updated, removed, counted, delete_res_choice,
  process_get_req_pdu_extras, process_get_touch_req_pdu_extras, process_get_base_req_pdu_extras,
  process_update_flags_req_pdu_extras, process_update_expiration_req_pdu_extras,
  process_delete_req_pdu_extras, process_delta_req_pdu_extras,
}
use xixi.Session.Updates.{update_by}
use xixi.Session.Replies.{
  Answers, write_res-Lines, finish-write_res-Answers, write_simple_res-Answers, write_error-Answers,
}

-- The bytes that a request of this kind carries behind its fixed part, all of them its key.
abbrev pub key_length_of : Request → Option ℕ
key_length_of (get_req group_id watch_id key_length) = some key_length
key_length_of (get_touch_req group_id watch_id expiration key_length) = some key_length
key_length_of (get_base_req group_id key_length) = some key_length
key_length_of (update_flags_req op_flag cache_id group_id flags key_length) = some key_length
key_length_of (update_expiration_req op_flag cache_id group_id expiration key_length) =
    some key_length
key_length_of (delete_req op_flag cache_id group_id key_length) = some key_length
key_length_of (delta_req op_flag cache_id group_id amount key_length) = some key_length
key_length_of _ = none

module _ (p : Peer) where
  send_item-Answers : (a expiration : ℕ) → Answers p (send_item a expiration p)
  unfolding send_item
  send_item-Answers a expiration =
      let it = p.mgr.items a in
      let p' = record p { cache_item = some a; cache_items = p.cache_items ++ a ∷ [] } in
      elim (write_res-Lines p' (get_res it.cache_id it.flags expiration it.data_size)) [
        | inl c ↦ inl c
        | inr (l, sound) ↦ inr (refl, (rw length-append (omega (arith, l)), sound))
      ]

-- An error for a session whose cache has changed.
error_with :
    (p : Peer) (m : Mgr) (code : ℕ) → Answers p (write_error code 0 true (record p { mgr = m }))
error_with p m code = write_error-Answers (record p { mgr = m }) code 0

reply_with :
    (p : Peer) (m : Mgr) (r : Response) → Answers p (finish (write_res r (record p { mgr = m })))
reply_with p m r = finish-write_res-Answers (record p { mgr = m }) r

got-Answers : (p : Peer) (r : Option ℕ × ℕ × Reason × Mgr) → Answers p (got p r)
unfolding got
got-Answers p (none, expiration, reason, m) = error_with p m (reason_code reason)
got-Answers p (some a, expiration, reason, m) =
    send_item-Answers (record p { mgr = m }) a expiration

got_touch-Answers :
    (expiration : ℕ) (p : Peer) (r : Option ℕ × Reason × Mgr) → Answers p (got_touch expiration p r)
unfolding got_touch
got_touch-Answers expiration p (none, reason, m) = error_with p m (reason_code reason)
got_touch-Answers expiration p (some a, reason, m) =
    send_item-Answers (record p { mgr = m }) a expiration

got_base-Answers : (p : Peer) (r : Option ℕ × ℕ × Reason × Mgr) → Answers p (got_base p r)
unfolding got_base
got_base-Answers p (none, expiration, reason, m) = error_with p m 1
got_base-Answers p (some a, expiration, reason, m) = reply_with p _ _

updated-Answers :
    (response : ℕ → Response) (p : Peer) (r : Bool × ℕ × Mgr) → Answers p (updated response p r)
unfolding updated
updated-Answers response p (true, cache_id, m) = reply_with p m (response cache_id)
updated-Answers response p (false, cache_id, m) = elim (Bool-cases (cache_id == 0)) [
  | inl t ↦ rw t (error_with p m 1)
  | inr f ↦ rw f (error_with p m 6)
]

removed-Answers : (p : Peer) (r : Reason × Mgr) → Answers p (removed p r)
unfolding removed
removed-Answers p (success, m) = write_simple_res-Answers (record p { mgr = m }) delete_res_choice
removed-Answers p (not_found, m) = error_with p m 1
removed-Answers p (exists, m) = error_with p m 2
removed-Answers p (too_large, m) = error_with p m 3
removed-Answers p (mismatch, m) = error_with p m 6
removed-Answers p (out_of_memory, m) = error_with p m 9
removed-Answers p (watch_not_found, m) = error_with p m 12

counted-Answers : (p : Peer) (r : Reason × ℕ × ℕ × Mgr) → Answers p (counted p r)
unfolding counted
counted-Answers p (success, cache_id, value, m) = reply_with p m (delta_res value cache_id)
counted-Answers p (not_found, cache_id, value, m) = error_with p m 1
counted-Answers p (exists, cache_id, value, m) = error_with p m 2
counted-Answers p (too_large, cache_id, value, m) = error_with p m 3
counted-Answers p (mismatch, cache_id, value, m) = error_with p m 6
counted-Answers p (out_of_memory, cache_id, value, m) = error_with p m 9
counted-Answers p (watch_not_found, cache_id, value, m) = error_with p m 12

-- A handler that has its key.
keyed :
    (p q : Peer) (k key_length : ℕ) (bytes : List ℕ)
    → some k ≡ some key_length
    → key_length ≤ length bytes
    → Answers p q
    → let r : ℕ × Peer = if ltb (length bytes) k then (0, p) else (k, q) in
      (r.0 ≡ key_length) × Answers p r.1
keyed p q k key_length bytes e l h =
    let here : ltb (length bytes) k ≡ false = ground (arith, l, e) in rw here (cc, h)

-- A request with a key, once the key has come, takes exactly the key from the buffer, and puts its
-- answer in line to be written, whatever the cache says: the item, a success or an error. Only where `malloc` refuses
-- the memory of the reply may the session write through a null pointer instead.
pub process_pdu_extras2-Answers :
    (p : Peer) (bytes : List ℕ) (r : Request) (key_length : ℕ)
    → key_length_of r ≡ some key_length
    → key_length ≤ length bytes
    → ((process_pdu_extras2 p bytes r).0 ≡ key_length) × Answers p (process_pdu_extras2 p bytes r).1
unfolding process_pdu_extras2 process_get_req_pdu_extras process_get_touch_req_pdu_extras
    process_get_base_req_pdu_extras process_update_flags_req_pdu_extras
    process_update_expiration_req_pdu_extras process_delete_req_pdu_extras
    process_delta_req_pdu_extras
process_pdu_extras2-Answers p bytes (get_req g w k) kl e l =
    keyed p _ k kl bytes e l (got-Answers p (get p.mgr (key_in g k bytes) w false 0))
process_pdu_extras2-Answers p bytes (get_touch_req g w x k) kl e l =
    keyed p _ k kl bytes e l (got_touch-Answers x p (get_touch p.mgr (key_in g k bytes) w x))
process_pdu_extras2-Answers p bytes (get_base_req g k) kl e l =
    keyed p _ k kl bytes e l (got_base-Answers p (get p.mgr (key_in g k bytes) 0 true 0))
process_pdu_extras2-Answers p bytes (update_flags_req o c g f k) kl e l =
    keyed p _ k kl bytes e l
      (updated-Answers update_flags_res p (update_flags p.mgr (key_in g k bytes) c f))
process_pdu_extras2-Answers p bytes (update_expiration_req o c g x k) kl e l =
    keyed p _ k kl bytes e l
      (updated-Answers update_expiration_res p (update_expiration p.mgr (key_in g k bytes) c x))
process_pdu_extras2-Answers p bytes (delete_req o c g k) kl e l =
    keyed p _ k kl bytes e l (removed-Answers p (remove p.mgr (key_in g k bytes) c))
process_pdu_extras2-Answers p bytes (delta_req o c g d k) kl e l =
    keyed p _ k kl bytes e l (counted-Answers p (delta p.mgr (key_in g k bytes) (o % 2 == 0) d c))
process_pdu_extras2-Answers p bytes (update_req o c g f x w k d) kl e l = cc
process_pdu_extras2-Answers p bytes (auth_req b) kl e l = cc
process_pdu_extras2-Answers p bytes (flush_req g) kl e l = cc
process_pdu_extras2-Answers p bytes (stats_req o c g) kl e l = cc
process_pdu_extras2-Answers p bytes hello_req kl e l = cc
process_pdu_extras2-Answers p bytes (create_watch_req g i) kl e l = cc
process_pdu_extras2-Answers p bytes (check_watch_req g w t i a) kl e l = cc

-- The cache once the item of a request, with its hash and the cache id of the request, was given to the operation
-- that the flag names, and one reference to it was given back.
abbrev pub stored_and_released : Env → ℕ → ℕ → ℕ → Mgr → ℕ → Mgr
stored_and_released env op_flag cache_id watch_id m a =
    let it = m.items a in
    let ready =
      write a (record it { hash_value = env.hash32 it.key it.group_id; cache_id = cache_id }) m in
    release_reference (update_by op_flag ready a watch_id).2 a
