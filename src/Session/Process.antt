-- ===== src/Session/Process.antt =====
-- src/peer_cache.cpp: the three switches of Peer_Cache, on the header, the fixed part of a request and
-- what follows it.
use xixi.Prelude.{ℕ, true, Option, none, some, List, ◌==◌, if◌then◌else◌}
use xixi.Pdu.Decode
use xixi.Pdu.Request.{Request, hello_req_choice}
use xixi.Session.Peer.{Env, Peer, read_body_fixed, read_body_extras2, reject}
use xixi.Session.Requests.{
  process_get_req_pdu_extras, process_get_touch_req_pdu_extras, process_get_base_req_pdu_extras,
  process_update_flags_req_pdu_extras, process_update_expiration_req_pdu_extras,
  process_delete_req_pdu_extras, process_delta_req_pdu_extras, process_auth_req_pdu_extras,
}
use xixi.Session.Updates.{process_update_req_pdu_fixed, process_update_req_pdu_extras}
use xixi.Session.Watching.{
  process_hello_req_pdu_fixed, process_create_watch_req_pdu_fixed,
  process_check_watch_req_pdu_fixed, process_flush_req_pdu_fixed, process_stats_req_pdu_fixed,
}
use xixi.Wire.{decode_uint16}

-- `XIXI_PDU_HEAD_LENGTH`
abbrev pub head_length : ℕ
head_length = 2

-- What follows a header, from the length that the switch over the choices picks.
unfoldable pub expect_body : Peer → Option ℕ → Peer
unfolding reject process_hello_req_pdu_fixed
expect_body p none = reject p
expect_body p (some size) =
    if p.choice == hello_req_choice
    then process_hello_req_pdu_fixed p
    else record p { next_data_len = size; state = read_body_fixed }

-- A header that is not there is read past the end of the buffer.
unfoldable pub with_header : Peer → Option (ℕ × List ℕ) → Peer
unfolding expect_body Decode.process_header
with_header p none = record p { crashed = true }
with_header p (some (choice, rest)) =
    expect_body (record p { choice = choice }) (Decode.process_header choice)

unfoldable pub process_header : Peer → List ℕ → ℕ × Peer
unfolding with_header decode_uint16
process_header p bytes = (head_length, with_header p (decode_uint16 bytes))

-- The switch on the header's choice, which is that of the request.
unfoldable pub process_pdu_fixed : Env → Peer → Request → Peer
unfolding process_update_req_pdu_fixed process_flush_req_pdu_fixed process_stats_req_pdu_fixed
    process_create_watch_req_pdu_fixed process_check_watch_req_pdu_fixed reject
process_pdu_fixed env p (Request.get_req group_id watch_id key_length) = record p {
  next_data_len = key_length;
  state = read_body_extras2;
}
process_pdu_fixed env p (Request.get_touch_req group_id watch_id expiration key_length) = record p {
  next_data_len = key_length;
  state = read_body_extras2;
}
process_pdu_fixed env p (Request.get_base_req group_id key_length) = record p {
  next_data_len = key_length;
  state = read_body_extras2;
}
process_pdu_fixed env p
      (Request.update_req op_flag cache_id group_id flags expiration watch_id key_length
        data_length) =
    process_update_req_pdu_fixed group_id flags expiration key_length data_length p
process_pdu_fixed env p (Request.update_flags_req op_flag cache_id group_id flags key_length) =
    record p { next_data_len = key_length; state = read_body_extras2 }
process_pdu_fixed env p
      (Request.update_expiration_req op_flag cache_id group_id expiration key_length) =
    record p { next_data_len = key_length; state = read_body_extras2 }
process_pdu_fixed env p (Request.delete_req op_flag cache_id group_id key_length) = record p {
  next_data_len = key_length;
  state = read_body_extras2;
}
process_pdu_fixed env p (Request.auth_req base64_length) = record p {
  next_data_len = base64_length;
  state = read_body_extras2;
}
process_pdu_fixed env p (Request.delta_req op_flag cache_id group_id amount key_length) = record p {
  next_data_len = key_length;
  state = read_body_extras2;
}
process_pdu_fixed env p (Request.flush_req group_id) = process_flush_req_pdu_fixed group_id p
process_pdu_fixed env p (Request.stats_req op_flag class_id group_id) =
    process_stats_req_pdu_fixed env (Request.stats_req op_flag class_id group_id) p
process_pdu_fixed env p (Request.create_watch_req group_id max_next_check_interval) =
    process_create_watch_req_pdu_fixed group_id max_next_check_interval p
process_pdu_fixed env p
      (Request.check_watch_req group_id watch_id check_timeout interval ack_sequence) =
    process_check_watch_req_pdu_fixed group_id watch_id check_timeout interval ack_sequence p
process_pdu_fixed env p Request.hello_req = reject p

unfoldable pub process_pdu_extras : Env → Peer → Request → Peer
unfolding process_update_req_pdu_extras reject
process_pdu_extras env p
      (Request.update_req op_flag cache_id group_id flags expiration watch_id key_length
        data_length) =
    process_update_req_pdu_extras env op_flag cache_id watch_id p
process_pdu_extras env p _ = reject p

unfoldable pub process_pdu_extras2 : Peer → List ℕ → Request → ℕ × Peer
unfolding process_get_req_pdu_extras process_get_touch_req_pdu_extras
    process_get_base_req_pdu_extras process_update_flags_req_pdu_extras
    process_update_expiration_req_pdu_extras process_delete_req_pdu_extras
    process_delta_req_pdu_extras process_auth_req_pdu_extras reject
process_pdu_extras2 p bytes (Request.get_req group_id watch_id key_length) =
    process_get_req_pdu_extras group_id watch_id key_length p bytes
process_pdu_extras2 p bytes (Request.get_touch_req group_id watch_id expiration key_length) =
    process_get_touch_req_pdu_extras group_id watch_id expiration key_length p bytes
process_pdu_extras2 p bytes (Request.update_flags_req op_flag cache_id group_id flags key_length) =
    process_update_flags_req_pdu_extras cache_id group_id flags key_length p bytes
process_pdu_extras2 p bytes
      (Request.update_expiration_req op_flag cache_id group_id expiration key_length) =
    process_update_expiration_req_pdu_extras cache_id group_id expiration key_length p bytes
process_pdu_extras2 p bytes (Request.delete_req op_flag cache_id group_id key_length) =
    process_delete_req_pdu_extras cache_id group_id key_length p bytes
process_pdu_extras2 p bytes (Request.auth_req base64_length) =
    process_auth_req_pdu_extras base64_length p bytes
process_pdu_extras2 p bytes (Request.delta_req op_flag cache_id group_id amount key_length) =
    process_delta_req_pdu_extras op_flag cache_id group_id amount key_length p bytes
process_pdu_extras2 p bytes (Request.get_base_req group_id key_length) =
    process_get_base_req_pdu_extras group_id key_length p bytes
process_pdu_extras2 p bytes _ = (0, reject p)
