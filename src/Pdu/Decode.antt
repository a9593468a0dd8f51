-- ===== src/Pdu/Decode.antt =====
-- `decode_fixed` and `get_fixed_body_size` of src/peer_cache_pdu.h, `decode_pdu` of src/peer_pdu.cpp,
-- and the switch of `process_header` in src/peer_cache.cpp that picks the length to read.
use xixi.Wire.{Decoder, pure, ◌>>=◌, decode_uint8, decode_uint16, decode_uint32, decode_uint64}
use xixi.Pdu.Request.{
  Request, get_req, get_req_choice, get_touch_req, get_touch_req_choice, get_base_req,
  get_base_req_choice, update_req, update_req_choice, update_flags_req, update_flags_req_choice,
  update_expiration_req, update_expiration_req_choice, delete_req, delete_req_choice, auth_req,
  auth_req_choice, delta_req, delta_req_choice, flush_req, flush_req_choice, stats_req,
  stats_req_choice, hello_req, hello_req_choice, create_watch_req, create_watch_req_choice,
  check_watch_req, check_watch_req_choice,
}
use xixi.Prelude.{ℕ, Option, none, some, ◌==◌, if◌then◌else◌}

unfoldable pub decode_get_req : Decoder Request
unfolding decode_uint16 decode_uint32
decode_get_req = do
  group_id ← decode_uint32
  watch_id ← decode_uint32
  key_length ← decode_uint16
  pure (get_req group_id watch_id key_length)

unfoldable pub decode_get_touch_req : Decoder Request
unfolding decode_uint16 decode_uint32
decode_get_touch_req = do
  group_id ← decode_uint32
  watch_id ← decode_uint32
  expiration ← decode_uint32
  key_length ← decode_uint16
  pure (get_touch_req group_id watch_id expiration key_length)

unfoldable pub decode_get_base_req : Decoder Request
unfolding decode_uint16 decode_uint32
decode_get_base_req = do
  group_id ← decode_uint32
  key_length ← decode_uint16
  pure (get_base_req group_id key_length)

unfoldable pub decode_update_req : Decoder Request
unfolding decode_uint16 decode_uint32 decode_uint64 decode_uint8
decode_update_req = do
  op_flag ← decode_uint8
  cache_id ← decode_uint64
  group_id ← decode_uint32
  flags ← decode_uint32
  expiration ← decode_uint32
  watch_id ← decode_uint32
  key_length ← decode_uint16
  data_length ← decode_uint32
  pure (update_req op_flag cache_id group_id flags expiration watch_id key_length data_length)

unfoldable pub decode_update_flags_req : Decoder Request
unfolding decode_uint16 decode_uint32 decode_uint64 decode_uint8
decode_update_flags_req = do
  op_flag ← decode_uint8
  cache_id ← decode_uint64
  group_id ← decode_uint32
  flags ← decode_uint32
  key_length ← decode_uint16
  pure (update_flags_req op_flag cache_id group_id flags key_length)

unfoldable pub decode_update_expiration_req : Decoder Request
unfolding decode_uint16 decode_uint32 decode_uint64 decode_uint8
decode_update_expiration_req = do
  op_flag ← decode_uint8
  cache_id ← decode_uint64
  group_id ← decode_uint32
  expiration ← decode_uint32
  key_length ← decode_uint16
  pure (update_expiration_req op_flag cache_id group_id expiration key_length)

unfoldable pub decode_delete_req : Decoder Request
unfolding decode_uint16 decode_uint32 decode_uint64 decode_uint8
decode_delete_req = do
  op_flag ← decode_uint8
  cache_id ← decode_uint64
  group_id ← decode_uint32
  key_length ← decode_uint16
  pure (delete_req op_flag cache_id group_id key_length)

unfoldable pub decode_auth_req : Decoder Request
unfolding decode_uint32
decode_auth_req = do base64_length ← decode_uint32; pure (auth_req base64_length)

unfoldable pub decode_delta_req : Decoder Request
unfolding decode_uint16 decode_uint32 decode_uint64 decode_uint8
decode_delta_req = do
  op_flag ← decode_uint8
  cache_id ← decode_uint64
  group_id ← decode_uint32
  delta ← decode_uint64
  key_length ← decode_uint16
  pure (delta_req op_flag cache_id group_id delta key_length)

unfoldable pub decode_flush_req : Decoder Request
unfolding decode_uint32
decode_flush_req = do group_id ← decode_uint32; pure (flush_req group_id)

unfoldable pub decode_stats_req : Decoder Request
unfolding decode_uint32 decode_uint8
decode_stats_req = do
  op_flag ← decode_uint8
  class_id ← decode_uint8
  group_id ← decode_uint32
  pure (stats_req op_flag class_id group_id)

unfoldable pub decode_create_watch_req : Decoder Request
unfolding decode_uint32
decode_create_watch_req = do
  group_id ← decode_uint32
  max_next_check_interval ← decode_uint32
  pure (create_watch_req group_id max_next_check_interval)

unfoldable pub decode_check_watch_req : Decoder Request
unfolding decode_uint32
decode_check_watch_req = do
  group_id ← decode_uint32
  watch_id ← decode_uint32
  check_timeout ← decode_uint32
  max_next_check_interval ← decode_uint32
  ack_sequence ← decode_uint32
  pure (check_watch_req group_id watch_id check_timeout max_next_check_interval ack_sequence)

-- None stands for `return false`, and for a read past the end of the buffer.
unfoldable pub decode_pdu : ℕ → Decoder Request
decode_pdu choice =
    if choice == get_req_choice
    then decode_get_req
    else if choice == get_touch_req_choice
    then decode_get_touch_req
    else if choice == get_base_req_choice
    then decode_get_base_req
    else if choice == update_req_choice
    then decode_update_req
    else if choice == update_flags_req_choice
    then decode_update_flags_req
    else if choice == update_expiration_req_choice
    then decode_update_expiration_req
    else if choice == delete_req_choice
    then decode_delete_req
    else if choice == auth_req_choice
    then decode_auth_req
    else if choice == delta_req_choice
    then decode_delta_req
    else if choice == flush_req_choice
    then decode_flush_req
    else if choice == stats_req_choice
    then decode_stats_req
    else if choice == hello_req_choice
    then pure hello_req
    else if choice == create_watch_req_choice
    then decode_create_watch_req
    else if choice == check_watch_req_choice
    then decode_check_watch_req
    else λ bytes. none

-- The length of the fixed part that is read after a header; none for an unknown command, which is
-- answered with an error. A hello has no body and is answered at once.
unfoldable pub process_header : ℕ → Option ℕ
process_header choice =
    if choice == get_req_choice
    then some 10
    else if choice == get_touch_req_choice
    then some 14
    else if choice == update_req_choice
    then some 31
    else if choice == update_flags_req_choice
    then some 19
    else if choice == update_expiration_req_choice
    then some 19
    else if choice == delete_req_choice
    then some 15
    else if choice == auth_req_choice
    then some 4
    else if choice == delta_req_choice
    then some 23
    else if choice == get_base_req_choice
    then some 6
    else if choice == flush_req_choice
    then some 4
    else if choice == stats_req_choice
    then some 6
    else if choice == hello_req_choice
    then some 0
    else if choice == create_watch_req_choice
    then some 8
    else if choice == check_watch_req_choice
    then some 20
    else none
