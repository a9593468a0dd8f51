-- ===== src/Pdu/Request.antt =====
-- src/peer_cache_pdu.h and src/peer_pdu.h: the requests of the binary protocol, the fixed part of
-- each and how `decode_fixed` reads it. The fields are the bits that the wire carries; `delta` is
-- the 64 bits of a signed number in two's complement.
use xixi.Prelude.{ℕ, ◌+◌}

pub data Request : Type 0 where
  get_req : (group_id watch_id key_length : ℕ) → Request
  get_touch_req : (group_id watch_id expiration key_length : ℕ) → Request
  get_base_req : (group_id key_length : ℕ) → Request
  update_req :
      (op_flag cache_id group_id flags expiration watch_id key_length data_length : ℕ) → Request
  update_flags_req : (op_flag cache_id group_id flags key_length : ℕ) → Request
  update_expiration_req : (op_flag cache_id group_id expiration key_length : ℕ) → Request
  delete_req : (op_flag cache_id group_id key_length : ℕ) → Request
  auth_req : (base64_length : ℕ) → Request
  delta_req : (op_flag cache_id group_id delta key_length : ℕ) → Request
  flush_req : (group_id : ℕ) → Request
  stats_req : (op_flag class_id group_id : ℕ) → Request
  create_watch_req : (group_id max_next_check_interval : ℕ) → Request
  check_watch_req :
      (group_id watch_id check_timeout max_next_check_interval ack_sequence : ℕ) → Request
  hello_req : Request

-- `category << 8`, with the category 2 of the cache.
abbrev pub cache_base : ℕ
cache_base = 512

abbrev pub get_req_choice : ℕ
get_req_choice = cache_base + 1

abbrev pub get_touch_req_choice : ℕ
get_touch_req_choice = cache_base + 2

abbrev pub get_base_req_choice : ℕ
get_base_req_choice = cache_base + 4

abbrev pub update_req_choice : ℕ
update_req_choice = cache_base + 6

abbrev pub update_flags_req_choice : ℕ
update_flags_req_choice = cache_base + 8

abbrev pub update_expiration_req_choice : ℕ
update_expiration_req_choice = cache_base + 10

abbrev pub delete_req_choice : ℕ
delete_req_choice = cache_base + 12

abbrev pub auth_req_choice : ℕ
auth_req_choice = cache_base + 18

abbrev pub delta_req_choice : ℕ
delta_req_choice = cache_base + 14

abbrev pub flush_req_choice : ℕ
flush_req_choice = cache_base + 16

abbrev pub stats_req_choice : ℕ
stats_req_choice = cache_base + 20

abbrev pub create_watch_req_choice : ℕ
create_watch_req_choice = cache_base + 22

abbrev pub check_watch_req_choice : ℕ
check_watch_req_choice = cache_base + 24

abbrev pub hello_req_choice : ℕ
hello_req_choice = 1
