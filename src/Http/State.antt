-- ===== src/Http/State.antt =====
-- src/peer_http.h and src/peer_http.cpp: the state of Peer_Http, and what it puts in line to be written.
use xixi.Prelude.{
  ℕ, ◌+◌, ◌-◌, ◌%◌, ◌^◌, Bool, true, false, Option, none, some, List, [], ◌∷◌, ◌++◌, length, take,
}
use xixi.CacheBuffer.{CacheBuffer, prepare, put}
use xixi.CacheMgr.State.{Mgr}
use xixi.ReceiveBuffer.{ReceiveBuffer}
use xixi.Session.Peer.{PeerState, TimerCall, new_cmd, write}

-- `Http_Request`. A pointer is the bytes that it points at, up to the end of their C string; NULL is
-- the empty text. `method` is the first letter of the method.
pub record HttpRequest : Type 0 where
  pub http_11 : Bool
  pub keepalive : Bool
  pub accept_gzip : Bool
  pub method : ℕ
  pub uri : List ℕ
  pub uri_length : ℕ
  pub content_type : List ℕ
  pub content_type_length : ℕ
  pub entity_tag : List ℕ
  pub entity_tag_length : ℕ
  pub boundary : List ℕ
  pub boundary_length : ℕ

-- `Http_Request::reset`
abbrev pub blank_request : HttpRequest
blank_request = record {
  http_11 = false;
  keepalive = false;
  accept_gzip = false;
  method = 0;
  uri = [];
  uri_length = 0;
  content_type = [];
  content_type_length = 0;
  entity_tag = [];
  entity_tag_length = 0;
  boundary = [];
  boundary_length = 0;
}

-- The settings (src/settings.h) that the session reads. The hash maps are their lists of entries.
pub record Settings : Type 0 where
  pub home_dir : List ℕ
  pub item_size_max : ℕ
  pub default_cache_expiration : ℕ
  pub manager_base_url : List ℕ
  pub ext_mime_map : List (List ℕ × List ℕ)
  pub min_gzip_size : ℕ
  pub max_gzip_size : ℕ
  pub gzip_mime_map : List (List ℕ)
  pub default_mime_type : List ℕ
  pub welcome_file_list : List (List ℕ)

-- What boost::filesystem tells of a path: `fails` is an exception.
pub data PathKind : Type 0 where
  missing directory file fails : PathKind

-- The code around the session that is not modelled: the hash of src/lookup3.cpp, the text that
-- Cache_Mgr::stats prints for a group and an operation, the elements of a path and what stands at it, the
-- bytes of a file, the results of the calls of zlib's `deflate` on a text with room for so many bytes (whether
-- each returns Z_OK, and its bytes), whether `deflateInit2` succeeds, how much of a text the calls read, and
-- the checksum. `behind_watch` is
-- the memory that follows the literal "watch".
pub record Env : Type 0 where
  pub settings : Settings
  pub hash32 : List ℕ → ℕ → ℕ
  pub stats_text : ℕ → ℕ → Mgr → List ℕ
  pub path_elements : List ℕ → List (List ℕ)
  pub path_kind : List ℕ → PathKind
  pub file_bytes : List ℕ → Option (List ℕ)
  pub deflate : List ℕ → ℕ → List (Bool × List ℕ)
  pub deflate_init : Bool
  pub total_in : List ℕ → ℕ
  pub crc32 : List ℕ → ℕ
  pub behind_watch : List ℕ

-- An entry of `write_buf_`: a text of the program, bytes of `request_buf_`, or the data of an item.
pub data Chunk : Type 0 where
  literal : (text : List ℕ) → Chunk
  region : (block offset size : ℕ) → Chunk
  item_data : (item size : ℕ) → Chunk

-- The cache stands in the session's state, since each step has the lock of the cache for its call.
-- `key`, `value` and `value_content_type` are the memory from the pointer on, up to the end of the text
-- that it points into; `delta` is the 64 bits of the number. `post_data` holds the bytes written through
-- `read_item_buf_`, and `arrivals` what the coming calls of `read_some` on the socket find, in pieces.
-- `self` is the sink's number. `crashed` stands for a write through a null pointer.
pub record PeerHttp : Type 0 where
  pub mgr : Mgr
  pub self : ℕ
  pub op_count : ℕ
  pub state : PeerState
  pub next_state : PeerState
  pub next_data_len : ℕ
  pub http_request : HttpRequest
  pub group_id : ℕ
  pub watch_id : ℕ
  pub cache_id : ℕ
  pub key : List ℕ
  pub key_length : ℕ
  pub value : List ℕ
  pub value_length : ℕ
  pub value_content_type : List ℕ
  pub value_content_type_length : ℕ
  pub post_data : List ℕ
  pub content_length : ℕ
  pub flags : ℕ
  pub expiration : ℕ
  pub touch_flag : Bool
  pub delta : ℕ
  pub ack_sequence : ℕ
  pub interval : ℕ
  pub timeout : ℕ
  pub sub_op : ℕ
  pub write_buf_total : ℕ
  pub cache_item : Option ℕ
  pub request_buf : CacheBuffer
  pub read_buffer : ReceiveBuffer
  pub write_buf : List Chunk
  pub timer_flag : Bool
  pub timer_calls : List TimerCall
  pub arrivals : List (List ℕ)
  pub crashed : Bool

-- `Cache_Buffer<2048>`
abbrev pub base_size : ℕ
base_size = 2048

abbrev pub get_method : ℕ
get_method = 71

abbrev pub post_method : ℕ
post_method = 80

abbrev pub head_method : ℕ
head_method = 72

-- `Peer_Http::add_write_buf`
abbrev pub add_write_buf : Chunk → ℕ → PeerHttp → PeerHttp
add_write_buf chunk size p = record p {
  write_buf = p.write_buf ++ chunk ∷ [];
  write_buf_total = (p.write_buf_total + size) % 2 ^ 32;
}

abbrev pub add_text : List ℕ → PeerHttp → PeerHttp
add_text text p = add_write_buf (literal text) (length text) p

-- `set_state(PEER_STATUS_WRITE); next_state_ = PEER_STATE_NEW_CMD`
abbrev pub finish : PeerHttp → PeerHttp
finish p = record p { state = write; next_state = new_cmd }

-- A region of `request_buf_`, and the session.
abbrev pub taken : PeerHttp → Option (ℕ × ℕ) × CacheBuffer → Option (ℕ × ℕ) × PeerHttp
taken p (at, b) = (at, record p { request_buf = b })

unfoldable pub prepare_buf : ℕ → PeerHttp → Option (ℕ × ℕ) × PeerHttp
prepare_buf size p = taken p (prepare base_size size p.request_buf)

-- A text printed by `_snprintf` into `room` bytes: as much as fits, and a 0.
abbrev pub print_at : ℕ → List ℕ → ℕ × ℕ → PeerHttp → PeerHttp
print_at room text (block, offset) p = record p {
  request_buf = put block offset (take (room - 1) text ++ 0 ∷ []) p.request_buf;
}

-- The chunk has the size that `_snprintf` returns, which is that of the whole text.
abbrev pub chunk_at : List ℕ → ℕ × ℕ → Chunk
chunk_at text (block, offset) = region block offset (length text)

-- A region that a text is printed to, and the session.
abbrev pub print_into : ℕ → List ℕ → Option (ℕ × ℕ) × PeerHttp → Option (ℕ × ℕ) × PeerHttp
print_into room text (none, p) = (none, record p { crashed = true })
print_into room text (some at, p) = (some at, print_at room text at p)

-- The pointer is not tested.
unfoldable pub printed : ℕ → List ℕ → PeerHttp → Option (ℕ × ℕ) × PeerHttp
unfolding prepare_buf take
printed room text p = print_into room text (prepare_buf room p)

-- A printed text in line.
abbrev pub add_printed : List ℕ → Option (ℕ × ℕ) → PeerHttp → PeerHttp
add_printed text none p = p
add_printed text (some at) p = add_write_buf (chunk_at text at) (length text) p
