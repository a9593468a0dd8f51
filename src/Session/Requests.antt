-- ===== src/Session/Requests.antt =====
-- src/peer_cache.cpp: the handlers of Peer_Cache for the requests with a key: get, get touch, get base,
-- update flags, update expiration, delete, delta and login. Each returns how many bytes it took.
use xixi.Prelude.{
  ℕ, ◌+◌, ◌%◌, Bool, true, false, not, Option, none, some, List, [], ◌∷◌, ◌++◌, ltb, ◌==◌,
  if◌then◌else◌, length, take,
}
use xixi.CacheMgr.Access.{get, get_touch, update_flags, update_expiration, release_reference}
use xixi.CacheMgr.Delta.{delta}
use xixi.CacheMgr.State.{Key, Mgr, Reason, success, not_found, mismatch}
use xixi.CacheMgr.Store.{remove}
use xixi.Pdu.Request.{cache_base}
use xixi.Pdu.Response.{
  Response, get_res, get_base_res, update_flags_res, update_expiration_res, delta_res,
}
use xixi.Session.Peer.{
  Peer, item_data, reason_code, add_write_buf, write_res, finish, skip, write_simple_res,
  write_error,
}

-- The key that stands at the front of the data.
abbrev pub key_in : ℕ → ℕ → List ℕ → Key
key_in group_id key_length input = record { group_id = group_id; bytes = take key_length input }

-- `pdu->reply()` of every class; the test of the flag stands behind a comment mark.
abbrev pub is_reply : Bool
is_reply = true

-- An item to be sent: the response with its fields, then its data, which the session keeps till then.
unfoldable pub send_item : ℕ → ℕ → Peer → Peer
unfolding write_res
send_item a expiration p =
    let it = p.mgr.items a in
    let p' = record p { cache_item = some a; cache_items = p.cache_items ++ a ∷ [] } in
    finish (
      add_write_buf (item_data a it.data_size) it.data_size
        (write_res (get_res it.cache_id it.flags expiration it.data_size) p'))

unfoldable pub got : Peer → Option ℕ × ℕ × Reason × Mgr → Peer
unfolding send_item write_error
got p (none, expiration, reason, m) = write_error (reason_code reason) 0 true (record p { mgr = m })
got p (some a, expiration, reason, m) = send_item a expiration (record p { mgr = m })

unfoldable pub process_get_req_pdu_extras : ℕ → ℕ → ℕ → Peer → List ℕ → ℕ × Peer
unfolding got get
process_get_req_pdu_extras group_id watch_id key_length p bytes =
    if ltb (length bytes) key_length
    then (0, p)
    else (key_length, got p (get p.mgr (key_in group_id key_length bytes) watch_id false 0))

unfoldable pub got_touch : ℕ → Peer → Option ℕ × Reason × Mgr → Peer
unfolding send_item write_error
got_touch expiration p (none, reason, m) =
    write_error (reason_code reason) 0 true (record p { mgr = m })
got_touch expiration p (some a, reason, m) = send_item a expiration (record p { mgr = m })

unfoldable pub process_get_touch_req_pdu_extras : ℕ → ℕ → ℕ → ℕ → Peer → List ℕ → ℕ × Peer
unfolding got_touch get_touch
process_get_touch_req_pdu_extras group_id watch_id expiration key_length p bytes =
    if ltb (length bytes) key_length then (0, p) else (
      key_length,
      got_touch expiration p
          (get_touch p.mgr (key_in group_id key_length bytes) watch_id expiration),
    )

-- The reference goes back before the response is written.
unfoldable pub got_base : Peer → Option ℕ × ℕ × Reason × Mgr → Peer
unfolding write_res write_error release_reference
got_base p (none, expiration, reason, m) =
    write_error (reason_code not_found) 0 true (record p { mgr = m })
got_base p (some a, expiration, reason, m) =
    let it = m.items a in
    finish (
      write_res (get_base_res it.cache_id it.flags expiration it.data_size)
        (record p { mgr = release_reference m a }))

unfoldable pub process_get_base_req_pdu_extras : ℕ → ℕ → Peer → List ℕ → ℕ × Peer
unfolding got_base get
process_get_base_req_pdu_extras group_id key_length p bytes =
    if ltb (length bytes) key_length
    then (0, p)
    else (key_length, got_base p (get p.mgr (key_in group_id key_length bytes) 0 true 0))

-- The answer to an update of the flags or the deadline, which tells a mismatch by the cache id.
unfoldable pub updated : (ℕ → Response) → Peer → Bool × ℕ × Mgr → Peer
unfolding write_res write_error
updated response p (ret, cache_id, m) =
    let p' = record p { mgr = m } in
    if is_reply
    then if ret
      then finish (write_res (response cache_id) p')
      else if not (cache_id == 0)
      then write_error (reason_code mismatch) 0 true p'
      else write_error (reason_code not_found) 0 true p'
    else skip p'

unfoldable pub process_update_flags_req_pdu_extras : ℕ → ℕ → ℕ → ℕ → Peer → List ℕ → ℕ × Peer
unfolding updated update_flags
process_update_flags_req_pdu_extras cache_id group_id flags key_length p bytes =
    if ltb (length bytes) key_length then (0, p) else (
      key_length,
      updated update_flags_res p
          (update_flags p.mgr (key_in group_id key_length bytes) cache_id flags),
    )

unfoldable pub process_update_expiration_req_pdu_extras : ℕ → ℕ → ℕ → ℕ → Peer → List ℕ → ℕ × Peer
unfolding updated update_expiration
process_update_expiration_req_pdu_extras cache_id group_id expiration key_length p bytes =
    if ltb (length bytes) key_length then (0, p) else (
      key_length,
      updated update_expiration_res p
          (update_expiration p.mgr (key_in group_id key_length bytes) cache_id expiration),
    )

abbrev pub delete_res_choice : ℕ
delete_res_choice = cache_base + 13

unfoldable pub removed : Peer → Reason × Mgr → Peer
unfolding write_simple_res write_error
removed p (success, m) =
    let p' = record p { mgr = m } in
    if is_reply then write_simple_res delete_res_choice p' else skip p'
removed p (reason, m) =
    let p' = record p { mgr = m } in
    if is_reply then write_error (reason_code reason) 0 true p' else skip p'

unfoldable pub process_delete_req_pdu_extras : ℕ → ℕ → ℕ → Peer → List ℕ → ℕ × Peer
unfolding removed remove
process_delete_req_pdu_extras cache_id group_id key_length p bytes =
    if ltb (length bytes) key_length
    then (0, p)
    else (key_length, removed p (remove p.mgr (key_in group_id key_length bytes) cache_id))

unfoldable pub counted : Peer → Reason × ℕ × ℕ × Mgr → Peer
unfolding write_res write_error
counted p (success, cache_id, value, m) =
    let p' = record p { mgr = m } in
    if is_reply then finish (write_res (delta_res value cache_id) p') else skip p'
counted p (reason, cache_id, value, m) =
    let p' = record p { mgr = m } in
    if is_reply then write_error (reason_code reason) 0 true p' else skip p'

-- The lowest bit of the flag tells a subtraction.
unfoldable pub process_delta_req_pdu_extras : ℕ → ℕ → ℕ → ℕ → ℕ → Peer → List ℕ → ℕ × Peer
unfolding counted delta
process_delta_req_pdu_extras op_flag cache_id group_id amount key_length p bytes =
    if ltb (length bytes) key_length then (0, p) else (
      key_length,
      counted p (delta p.mgr (key_in group_id key_length bytes) (op_flag % 2 == 0) amount cache_id),
    )

-- The result of the login goes nowhere; the session keeps its state.
unfoldable pub process_auth_req_pdu_extras : ℕ → Peer → List ℕ → ℕ × Peer
process_auth_req_pdu_extras base64_length p bytes =
    if ltb (length bytes) base64_length then (0, p) else (base64_length, p)
