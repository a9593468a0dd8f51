-- ===== src/Pdu/Response.antt =====
-- src/peer_cache_pdu.h and src/peer_pdu.h: the responses of the binary protocol, with `encode` and
-- `calc_encode_size` of each. Sizes are 32-bit numbers; `value` is the 64 bits of a signed number.
use xixi.Wire.{encode_uint8, encode_uint16, encode_uint32, encode_uint64}
use xixi.Pdu.Request.{cache_base}
use xixi.Prelude.{ℕ, ◌+◌, ◌*◌, ◌%◌, ◌^◌, List, [], ◌∷◌, ◌++◌, length}

-- The two vectors of a check-watch response have the same length: they are a list of pairs, of a
-- cache id and a notification each.
pub data Response : Type 0 where
  get_res get_base_res : (cache_id flags expiration data_length : ℕ) → Response
  update_res update_flags_res update_expiration_res : (cache_id : ℕ) → Response
  delta_res : (value cache_id : ℕ) → Response
  flush_res : (flush_count flush_size : ℕ) → Response
  auth_res : (base64_length : ℕ) → Response
  stats_res : (result : List ℕ) → Response
  create_watch_res : (watch_id : ℕ) → Response
  check_watch_res : (sequence : ℕ) (updates : List (ℕ × ℕ)) → Response
  simple_res : (choice : ℕ) → Response
  error_res : (reason : ℕ) → Response
  simple_res_with_reqid : (request_id choice : ℕ) → Response
  error_res_with_reqid : (request_id reason : ℕ) → Response

unfoldable pub encode_updates : List (ℕ × ℕ) → List ℕ
encode_updates [] = []
encode_updates ((cache_id, update_type) ∷ updates) =
    encode_uint64 cache_id ++ (encode_uint8 update_type ++ encode_updates updates)

-- One `encode` for each class, and the choice among them.
abbrev encode_get_res : ℕ → ℕ → ℕ → ℕ → List ℕ
encode_get_res cache_id flags expiration data_length =
    encode_uint16 (cache_base + 3)
    ++ (encode_uint64 cache_id
        ++ (encode_uint32 flags ++ (encode_uint32 expiration ++ encode_uint32 data_length)))

abbrev encode_get_base_res : ℕ → ℕ → ℕ → ℕ → List ℕ
encode_get_base_res cache_id flags expiration data_length =
    encode_uint16 (cache_base + 5)
    ++ (encode_uint64 cache_id
        ++ (encode_uint32 flags ++ (encode_uint32 expiration ++ encode_uint32 data_length)))

abbrev encode_update_res : ℕ → List ℕ
encode_update_res cache_id = encode_uint16 (cache_base + 7) ++ encode_uint64 cache_id

abbrev encode_update_flags_res : ℕ → List ℕ
encode_update_flags_res cache_id = encode_uint16 (cache_base + 9) ++ encode_uint64 cache_id

abbrev encode_update_expiration_res : ℕ → List ℕ
encode_update_expiration_res cache_id = encode_uint16 (cache_base + 11) ++ encode_uint64 cache_id

abbrev encode_delta_res : ℕ → ℕ → List ℕ
encode_delta_res value cache_id =
    encode_uint16 (cache_base + 15) ++ (encode_uint64 cache_id ++ encode_uint64 value)

abbrev encode_flush_res : ℕ → ℕ → List ℕ
encode_flush_res flush_count flush_size =
    encode_uint16 (cache_base + 17) ++ (encode_uint32 flush_count ++ encode_uint64 flush_size)

abbrev encode_auth_res : ℕ → List ℕ
encode_auth_res base64_length = encode_uint16 (cache_base + 19) ++ encode_uint32 base64_length

abbrev encode_stats_res : List ℕ → List ℕ
encode_stats_res result =
    encode_uint16 (cache_base + 21) ++ (encode_uint32 (length result) ++ result)

abbrev encode_create_watch_res : ℕ → List ℕ
encode_create_watch_res watch_id = encode_uint16 (cache_base + 23) ++ encode_uint32 watch_id

abbrev encode_check_watch_res : ℕ → List (ℕ × ℕ) → List ℕ
encode_check_watch_res sequence updates =
    let update_count = length updates in
    encode_uint16 (cache_base + 25)
    ++ (encode_uint32 sequence ++ (encode_uint32 update_count ++ encode_updates updates))

abbrev encode_simple_res : ℕ → List ℕ
encode_simple_res choice = encode_uint16 choice

abbrev encode_error_res : ℕ → List ℕ
encode_error_res reason = encode_uint16 0 ++ encode_uint16 reason

abbrev encode_simple_res_with_reqid : ℕ → ℕ → List ℕ
encode_simple_res_with_reqid request_id choice = encode_uint16 choice ++ encode_uint32 request_id

abbrev encode_error_res_with_reqid : ℕ → ℕ → List ℕ
encode_error_res_with_reqid request_id reason =
    encode_uint16 0 ++ (encode_uint32 request_id ++ encode_uint16 reason)

unfoldable pub encode : Response → List ℕ
encode (get_res cache_id flags expiration data_length) =
    encode_get_res cache_id flags expiration data_length
encode (get_base_res cache_id flags expiration data_length) =
    encode_get_base_res cache_id flags expiration data_length
encode (update_res cache_id) = encode_update_res cache_id
encode (update_flags_res cache_id) = encode_update_flags_res cache_id
encode (update_expiration_res cache_id) = encode_update_expiration_res cache_id
encode (delta_res value cache_id) = encode_delta_res value cache_id
encode (flush_res flush_count flush_size) = encode_flush_res flush_count flush_size
encode (auth_res base64_length) = encode_auth_res base64_length
encode (stats_res result) = encode_stats_res result
encode (create_watch_res watch_id) = encode_create_watch_res watch_id
encode (check_watch_res sequence updates) = encode_check_watch_res sequence updates
encode (simple_res choice) = encode_simple_res choice
encode (error_res reason) = encode_error_res reason
encode (simple_res_with_reqid request_id choice) = encode_simple_res_with_reqid request_id choice
encode (error_res_with_reqid request_id reason) = encode_error_res_with_reqid request_id reason

-- The room that is asked for before a response is encoded.
unfoldable pub calc_encode_size : Response → ℕ
calc_encode_size (get_res cache_id flags expiration data_length) = 2 + 20
calc_encode_size (get_base_res cache_id flags expiration data_length) = 2 + 20
calc_encode_size (update_res cache_id) = 2 + 8
calc_encode_size (update_flags_res cache_id) = 2 + 8
calc_encode_size (update_expiration_res cache_id) = 2 + 8
calc_encode_size (delta_res value cache_id) = 2 + 16
calc_encode_size (flush_res flush_count flush_size) = 2 + 4 + 8
calc_encode_size (auth_res base64_length) = 2 + 4
calc_encode_size (stats_res result) = (2 + 4 + length result) % 2 ^ 32
calc_encode_size (create_watch_res watch_id) = 2 + 4
calc_encode_size (check_watch_res sequence updates) = (2 + 8 + length updates * 9) % 2 ^ 32
calc_encode_size (simple_res choice) = 2
calc_encode_size (error_res reason) = 2 + 2
calc_encode_size (simple_res_with_reqid request_id choice) = 2 + 4
calc_encode_size (error_res_with_reqid request_id reason) = 2 + 6
