-- ===== src/Session/Peer.antt =====
-- src/peer_cache.h and src/peer_cache.cpp: the state of Peer_Cache and the replies that it prepares.
use xixi.Prelude.{
  ℕ, ◌+◌, ◌*◌, ◌%◌, ◌^◌, Bool, true, Option, none, some, List, [], ◌∷◌, ◌++◌, ltb, if◌then◌else◌,
}
use xixi.CacheBuffer.{CacheBuffer, prepare, put}
use xixi.CacheMgr.State.{
  Mgr, Reason, success, not_found, exists, too_large, mismatch, out_of_memory, watch_not_found,
}
use xixi.Pdu.Request.{Request}
use xixi.Pdu.Response.{
  Response, simple_res, simple_res_with_reqid, error_res, encode, calc_encode_size,
}
use xixi.ReceiveBuffer.{ReceiveBuffer}

-- The constants of src/peer.h.
pub data PeerState : Type 0 where
  new_cmd read_header read_body_fixed read_body_extras read_body_extras2 : PeerState
  swallow async_wait write closing closed : PeerState

-- An entry of `write_buf_`: bytes of the session's buffer, or the data of an item.
pub data Chunk : Type 0 where
  reply : (block offset size : ℕ) → Chunk
  item_data : (item size : ℕ) → Chunk

-- The calls of the timer: a wait with its time in seconds and the watch of its handler, or a cancel.
pub data TimerCall : Type 0 where
  async_wait : (seconds watch_id : ℕ) → TimerCall
  cancel : TimerCall

-- The code around the session that is not modelled: the hash of src/lookup3.cpp, and the text that
-- Cache_Mgr::stats prints for a request.
pub record Env : Type 0 where
  pub hash32 : List ℕ → ℕ → ℕ
  pub stats_text : Request → Mgr → List ℕ

-- The cache stands in the session's state, since each step has the lock of the cache for its call.
-- `choice` is that of `read_pdu_header_`, `item_bytes` are the bytes written through `read_item_buf_`, and
-- `arrivals` what the coming calls of `read_some` on the socket find, in pieces. `self` is the sink's number.
-- `crashed` stands for a write through a null pointer.
pub record Peer : Type 0 where
  pub mgr : Mgr
  pub self : ℕ
  pub op_count : ℕ
  pub state : PeerState
  pub next_state : PeerState
  pub next_data_len : ℕ
  pub choice : ℕ
  pub pdu : Option Request
  pub write_buf_total : ℕ
  pub item_bytes : List ℕ
  pub cache_item : Option ℕ
  pub cache_items : List ℕ
  pub swallow_size : ℕ
  pub cache_buf : CacheBuffer
  pub read_buffer : ReceiveBuffer
  pub write_buf : List Chunk
  pub timer_flag : Bool
  pub timer_calls : List TimerCall
  pub arrivals : List (List ℕ)
  pub crashed : Bool

-- The values of `xixi_reason` in src/xixibase.h.
abbrev pub reason_code : Reason → ℕ
reason_code success = 0
reason_code not_found = 1
reason_code exists = 2
reason_code too_large = 3
reason_code mismatch = 6
reason_code out_of_memory = 9
reason_code watch_not_found = 12

abbrev pub unknown_command : ℕ
unknown_command = 8

-- `MAX_PDU_FIXED_LENGTH * 5`
abbrev pub base_size : ℕ
base_size = 66 * 5

abbrev pub add_write_buf : Chunk → ℕ → Peer → Peer
add_write_buf chunk size p = record p {
  write_buf = p.write_buf ++ chunk ∷ [];
  write_buf_total = (p.write_buf_total + size) % 2 ^ 32;
}

-- A response encoded in the region that was prepared, and put in line to be written.
unfoldable pub encoded : Response → Peer → ℕ × ℕ → CacheBuffer → Peer
unfolding put
encoded r p (block, offset) b =
    add_write_buf (reply block offset (calc_encode_size r)) (calc_encode_size r)
      (record p { cache_buf = put block offset (encode r) b })

-- The handlers that do not test the pointer.
unfoldable pub written : Response → Peer → Option (ℕ × ℕ) × CacheBuffer → Peer
unfolding encoded
written r p (none, b) = record p { cache_buf = b; crashed = true }
written r p (some at, b) = encoded r p at b

unfoldable pub write_res : Response → Peer → Peer
unfolding written
write_res r p = written r p (prepare base_size (calc_encode_size r) p.cache_buf)

-- `set_state(PEER_STATUS_WRITE); next_state_ = PEER_STATE_NEW_CMD`
abbrev pub finish : Peer → Peer
finish p = record p { state = write; next_state = new_cmd }

abbrev pub skip : Peer → Peer
skip p = record p { state = new_cmd; next_state = new_cmd }

unfoldable pub write_simple_res : ℕ → Peer → Peer
unfolding write_res
write_simple_res choice p = finish (write_res (simple_res choice) p)

unfoldable pub write_simple_res_with_reqid : ℕ → ℕ → Peer → Peer
unfolding write_res
write_simple_res_with_reqid choice request_id p =
    finish (write_res (simple_res_with_reqid request_id choice) p)

unfoldable pub write_error : ℕ → ℕ → Bool → Peer → Peer
unfolding write_res
write_error error_code swallow_size is_reply p =
    if is_reply
    then if ltb 0 swallow_size
      then record (finish (write_res (error_res error_code) p)) {
        swallow_size = swallow_size;
        next_state = swallow;
      }
      else finish (write_res (error_res error_code) p)
    else if ltb 0 swallow_size
    then record p { swallow_size = swallow_size; state = swallow; next_state = new_cmd }
    else skip p

-- The answer to a command that is not known: the connection closes behind it.
unfoldable pub reject : Peer → Peer
unfolding write_error
reject p = record (write_error unknown_command 0 true p) { next_state = closing }

-- The handlers that test the pointer.
unfoldable pub tried : Response → Peer → Option (ℕ × ℕ) × CacheBuffer → Peer
unfolding encoded write_error
tried r p (none, b) = write_error (reason_code out_of_memory) 0 true (record p { cache_buf = b })
tried r p (some at, b) = finish (encoded r p at b)

unfoldable pub try_res : Response → Peer → Peer
unfolding tried
try_res r p = tried r p (prepare base_size (calc_encode_size r) p.cache_buf)
