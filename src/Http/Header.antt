-- ===== src/Http/Header.antt =====
-- src/peer_http.cpp: `try_read_command` and `process_request_header`, which read the head of a request.
use xixi.Prelude.{
  ℕ, ◌+◌, ◌-◌, ◌*◌, ◌%◌, ◌^◌, Bool, true, false, ◌&&◌, Option, none, some, List, [], ltb, leb, ◌==◌,
  if◌then◌else◌, length, take, drop, codes,
}
use xixi.CacheMgr.State.{too_large, out_of_memory}
use xixi.Http.Dispatch.{process_command}
use xixi.Http.Fields.{process_request_header_fields, in_request}
use xixi.Http.Replies.{write_error, invalid_parameter, reason_code}
use xixi.Http.State.{Env, PeerHttp, prepare_buf, get_method, post_method, head_method}
use xixi.Session.Peer.{PeerState}
use xixi.Util.{memfind, starts_with}
use xixi.Util.Text.{memchr}

-- The line of the request, and the fields behind it.
abbrev pub split_line : List ℕ → Option ℕ → List ℕ × List ℕ
split_line header none = (header, [])
split_line header (some i) = (take i header, drop (i + 2) header)

-- The method by the first four bytes, with the offset of the URI.
unfoldable pub method_of : List ℕ → Option (ℕ × ℕ)
unfolding starts_with
method_of line =
    if starts_with line (codes "GET ")
    then some (get_method, 4)
    else if starts_with line (codes "POST")
    then some (post_method, 5)
    else if starts_with line (codes "HEAD")
    then some (head_method, 5)
    else none

-- A line that ends with the version 1.1 keeps the connection.
unfoldable pub set_version : List ℕ → PeerHttp → PeerHttp
unfolding starts_with drop
set_version line p =
    if starts_with (drop (length line - 3) line) (codes "1.1")
    then in_request (λ r. record r { http_11 = true; keepalive = true }) p
    else p

abbrev pub before_blank : List ℕ → Option (List ℕ × List ℕ) → List ℕ
before_blank text none = text
before_blank text (some (uri, rest)) = uri

-- The URI, up to the next blank.
unfoldable pub uri_of : List ℕ → List ℕ
unfolding memchr
uri_of text = before_blank text (memchr 32 text)

abbrev pub with_uri : ℕ → List ℕ → PeerHttp → PeerHttp
with_uri method uri p =
    in_request (λ r. record r { method = method; uri = uri; uri_length = length uri }) p

-- The URI is copied behind the room for the body. A null pointer is answered, and then written to.
abbrev pub uri_copied : Option (ℕ × ℕ) × PeerHttp → PeerHttp
uri_copied (none, p) = record (write_error (reason_code out_of_memory) p) { crashed = true }
uri_copied (some at, p) = p

-- The room for the body: it is read next.
abbrev pub body_prepared : Option (ℕ × ℕ) × PeerHttp → PeerHttp
body_prepared (none, p) = write_error (reason_code out_of_memory) (record p { post_data = [] })
body_prepared (some at, p) = uri_copied (
    prepare_buf (p.http_request.uri_length + 1) (record p {
      post_data = [];
      next_data_len = p.content_length;
      state = PeerState.read_body_extras;
    }))

-- What follows the fields: a body, where a POST request has one, or the command.
unfoldable pub expect_body : Env → PeerHttp → PeerHttp
unfolding process_command write_error prepare_buf
expect_body env p =
    if (p.http_request.method == post_method) && ltb 0 p.content_length
    then if ltb (env.settings.item_size_max * 3 % 2 ^ 32) p.content_length
      then write_error (reason_code too_large) p
      else body_prepared (prepare_buf ((p.content_length + 1) % 2 ^ 32) p)
    else process_command env p

abbrev pub fields_read : Env → Bool × PeerHttp → PeerHttp
fields_read env (false, p) = write_error invalid_parameter p
fields_read env (true, p) = expect_body env p

abbrev pub with_method : Env → List ℕ → List ℕ → Option (ℕ × ℕ) → PeerHttp → PeerHttp
with_method env line fields none p = write_error invalid_parameter p
with_method env line fields (some (method, offset)) p =
    fields_read env
      (process_request_header_fields fields (with_uri method (uri_of (drop offset line)) p))

abbrev pub with_line : Env → List ℕ × List ℕ → PeerHttp → PeerHttp
with_line env (line, fields) p =
    if leb 6 (length line)
    then with_method env line fields (method_of line) (set_version line p)
    else write_error invalid_parameter p

unfoldable pub process_request_header : Env → List ℕ → PeerHttp → PeerHttp
unfolding process_request_header_fields expect_body write_error method_of set_version uri_of memfind
    take drop
process_request_header env header p =
    with_line env (split_line header (memfind header (codes "\r\n"))) p

abbrev pub header_found : Env → List ℕ → Option ℕ → PeerHttp → ℕ × PeerHttp
header_found env bytes (some i) p = (i + 4, process_request_header env (take i bytes) p)
header_found env bytes none p =
    if leb 8192 (length bytes)
    then (length bytes, write_error (reason_code too_large) p)
    else (0, record p { state = PeerState.read_header })

-- How many bytes were taken, and the session.
unfoldable pub try_read_command : Env → List ℕ → PeerHttp → ℕ × PeerHttp
unfolding process_request_header memfind write_error take
try_read_command env bytes p = header_found env bytes (memfind bytes (codes "\r\n\r\n")) p
