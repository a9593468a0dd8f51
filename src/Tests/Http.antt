-- ===== src/Tests/Http.antt =====
-- Examples of the theorems on the HTTP session.
use xixi.Prelude.{
  ℕ, ◌≡◌, refl, ◌⊎◌, true, false, Option, none, some, List, [], ◌∷◌, arith, length, codes,
}
use xixi.Http.Answering.{Replies}
use xixi.Http.Args.{process_request_arg}
use xixi.Http.Decoding.{percent_encode, decode_from-percent_encode}
use xixi.Http.Dispatch.{process_command}
use xixi.Http.Dispatched.{process_command-Replies}
use xixi.Http.Ending.{process_returns}
use xixi.Http.Gzip.{gzip_encode}
use xixi.Http.HeadTaken.{Takes, try_read_command-Takes}
use xixi.Http.Header.{try_read_command}
use xixi.Http.Loop.{process}
use xixi.Http.Paths.{Remains, IsBlind, get_cache_item-Remains}
use xixi.Http.Replies.{error_res}
use xixi.Http.Sizes.{IsSized, gzip_encode-IsSized}
use xixi.Http.Splitting.{split_args, handle_all, process_request_arg-handle_all}
use xixi.Http.State.{Env, PeerHttp, Settings, missing, Chunk, blank_request}
use xixi.Http.Text.{decode_from}
use xixi.Session.Peer.{new_cmd}
use xixi.Tests.Sample.{sample}
use xixi.Tests.Sessions.{no_reply, received_bytes}
use xixi.CacheBuffer.{prepare}
use xixi.CacheMgr.State.{key_eq}
use xixi.CacheMgr.Store.{remove_found}
use xixi.Util.{unsigned_from, digits_from}
use xixi.Util.Text.{c_string}
use xixi.Util.Search.{IsFirst}

abbrev settings : Settings
settings = record {
  home_dir = codes "/home/";
  item_size_max = 1000;
  default_cache_expiration = 600;
  manager_base_url = codes "/m/";
  ext_mime_map = (codes "txt", codes "text/plain") ∷ [];
  min_gzip_size = 100;
  max_gzip_size = 1000;
  gzip_mime_map = codes "text/plain" ∷ [];
  default_mime_type = codes "text/html";
  welcome_file_list = codes "index.html" ∷ [];
}

-- No files, and an encoder that yields one chunk.
abbrev environment : Env
environment = record {
  settings = settings;
  hash32 = λ text group_id. 0;
  stats_text = λ group_id sub_op m. codes "stats";
  path_elements = λ path. codes "/" ∷ [];
  path_kind = λ path. missing;
  file_bytes = λ path. none;
  deflate = λ text room. (false, codes "abc") ∷ [];
  deflate_init = true;
  total_in = λ text. length text;
  crc32 = λ text. 7;
  behind_watch = codes "more";
}

-- A new session with some bytes in its buffer.
abbrev session : List ℕ → PeerHttp
session bytes = record {
  mgr = sample;
  self = 8;
  op_count = 0;
  state = new_cmd;
  next_state = new_cmd;
  next_data_len = 2;
  http_request = blank_request;
  group_id = 0;
  watch_id = 0;
  cache_id = 0;
  key = [];
  key_length = 0;
  value = [];
  value_length = 0;
  value_content_type = [];
  value_content_type_length = 0;
  post_data = [];
  content_length = 0;
  flags = 0;
  expiration = 0;
  touch_flag = false;
  delta = 1;
  ack_sequence = 0;
  interval = 120;
  timeout = 30;
  sub_op = 0;
  write_buf_total = 0;
  cache_item = none;
  request_buf = no_reply;
  read_buffer = received_bytes bytes;
  write_buf = [];
  timer_flag = false;
  timer_calls = [];
  arrivals = [];
  crashed = false;
}

-- A session whose request has this URI.
abbrev asked : List ℕ → PeerHttp
asked uri = record (session []) {
  http_request = record blank_request {
    method = 71;
    keepalive = true;
    uri = uri;
    uri_length = length uri;
  };
}

abbrev chunks_of : Option PeerHttp → List Chunk
chunks_of none = []
chunks_of (some p) = p.write_buf

-- A key that is not there.
missing_key :
    chunks_of (process environment 5 (session (codes "GET /m/del?g=1&k=z HTTP/1.1\r\n\r\n")))
    ≡ Chunk.literal (error_res 1 true) ∷ []
unfolding process unsigned_from digits_from prepare remove_found key_eq
missing_key = refl

-- The name of the command for a watch is not known.
watch_refused :
    (process_command environment (asked (codes "/m/watch?w=1"))).write_buf
    ≡ Chunk.literal (error_res 4 true) ∷ []
unfolding process_command unsigned_from digits_from
watch_refused = refl

process_command-Replies_example :
    Replies (asked (codes "/m/watch")) (process_command environment (asked (codes "/m/watch")))
process_command-Replies_example = process_command-Replies environment (asked (codes "/m/watch")) (
  omega arith,
  (
    omega arith,
    (omega arith, (omega arith, (omega arith, (omega arith, (omega arith, (omega arith, tt)))))),
  ),
)

process_returns_example :
    (q : PeerHttp) × (process environment 400
        (session (codes "GET /m/del?g=1&k=z HTTP/1.1\r\n\r\n"))
      ≡ some q)
process_returns_example =
    process_returns environment 400 (session (codes "GET /m/del?g=1&k=z HTTP/1.1\r\n\r\n"))
      (omega arith)

abbrev two_requests : List ℕ
two_requests = codes "GET /a HTTP/1.1\r\n\r\nGET /b"

try_read_command-Takes_example :
    (o : Option ℕ) × (IsFirst two_requests (codes "\r\n\r\n") o
      × Takes o two_requests
          (session two_requests)
          (try_read_command environment two_requests (session two_requests)))
try_read_command-Takes_example =
    try_read_command-Takes environment two_requests (session two_requests)

process_request_arg-handle_all_example :
    process_request_arg (codes "k=a%62&&e=5&g=x&f=1") (session [])
    ≡ handle_all (codes "k=a%62" ∷ [] ∷ codes "e=5" ∷ codes "g=x" ∷ codes "f=1" ∷ []) (session [])
unfolding split_args c_string
process_request_arg-handle_all_example =
    process_request_arg-handle_all (codes "k=a%62&&e=5&g=x&f=1") (session [])

decode_from-percent_encode_example : decode_from 0 (codes "a%20b%2F") ≡ codes "a b/"
unfolding percent_encode
decode_from-percent_encode_example =
    decode_from-percent_encode (codes "a b/")
      (omega arith, (omega arith, (omega arith, (omega arith, tt))))

-- A key that stays below the root.
abbrev asking : PeerHttp
asking = record (session []) { key = codes "/a/../b"; key_length = 7 }

abbrev split_path : Env
split_path = record environment {
  path_elements = λ path. codes "/" ∷ codes "a" ∷ codes ".." ∷ codes "b" ∷ [];
}

get_cache_item-Remains_example :
    let base = codes "webapps" ∷ [] in
    Remains base base (codes "a" ∷ codes ".." ∷ codes "b" ∷ []) ⊎ IsBlind split_path false asking
get_cache_item-Remains_example =
    get_cache_item-Remains split_path false asking (codes "webapps" ∷ [])
      (codes "a" ∷ codes ".." ∷ codes "b" ∷ []) refl

gzip_encode-IsSized_example : IsSized (gzip_encode environment (codes "abcabc") (session []))
gzip_encode-IsSized_example = gzip_encode-IsSized environment (codes "abcabc") (session [])
