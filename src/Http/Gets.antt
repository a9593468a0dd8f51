-- ===== src/Http/Gets.antt =====
-- src/peer_http.cpp: `process_get`, `process_get_base` and `get_mime_type`.
use xixi.Prelude.{
  ℕ, ◌+◌, ◌%◌, ◌^◌, Bool, true, false, not, ◌&&◌, ◌||◌, Option, none, some, List, [], ◌∷◌, ◌++◌,
  ltb, leb, ◌==◌, if◌then◌else◌, length, take, bytes_eq, codes,
}
use xixi.CacheMgr.Access.{release_reference}
use xixi.CacheMgr.State.{Item}
use xixi.Http.Files.{Got, get_cache_item, find_mime, key_bytes}
use xixi.Http.Gzip.{gzip_encode, Encoded}
use xixi.Http.Replies.{
  get_res_200_keep_alive, get_res_200_close, get_res_304_keep_alive, get_res_304_close,
  get_res_301_keep_alive, get_res_301_close, write_error, write_printed, write_body, print_uint,
  by_keepalive, moved_permanently,
}
use xixi.Http.State.{
  Env, PeerHttp, Chunk, item_data, prepare_buf, add_write_buf, add_text, add_printed, printed,
  finish, head_method,
}
use xixi.Util.{starts_with}
use xixi.Util.Text.{c_string, get_suffix}

-- `MAX_MIME_TYPE_LENGTH`
abbrev pub max_mime_type_length : ℕ
max_mime_type_length = 128

-- A type copied to a region of its own; the pointer is not tested.
abbrev pub type_copied : List ℕ → Option (ℕ × ℕ) × PeerHttp → List ℕ × PeerHttp
type_copied mime_type (none, p) = (mime_type, record p { crashed = true })
type_copied mime_type (some at, p) = (mime_type, p)

abbrev pub type_found : Env → Option (List ℕ) → PeerHttp → List ℕ × PeerHttp
type_found env none p = (env.settings.default_mime_type, p)
type_found env (some mime_type) p =
    if leb (length mime_type) max_mime_type_length
    then type_copied mime_type (prepare_buf (length mime_type + 1) p)
    else (env.settings.default_mime_type, p)

abbrev pub type_of_suffix : Env → Option (List ℕ) → PeerHttp → List ℕ × PeerHttp
type_of_suffix env none p = (env.settings.default_mime_type, p)
type_of_suffix env (some suffix) p = type_found env (find_mime suffix env.settings.ext_mime_map) p

-- The item's own type, that of the key's suffix, or the default.
unfoldable pub get_mime_type : Env → Item → PeerHttp → List ℕ × PeerHttp
unfolding find_mime get_suffix prepare_buf take
get_mime_type env it p =
    if ltb 0 it.ext_size && leb it.ext_size max_mime_type_length
    then type_copied (take it.ext_size it.ext) (prepare_buf (it.ext_size + 1) p)
    else type_of_suffix env (get_suffix (key_bytes p)) p

-- The number of the item in quotes.
unfoldable pub etag : Item → List ℕ
unfolding print_uint
etag it = b'"' ∷ print_uint it.cache_id ++ b'"' ∷ []

abbrev crlf : List ℕ
crlf = codes "\r\n"

-- The end of the header, which all answers with an item share.
unfoldable pub item_fields : Item → ℕ → List ℕ
unfolding print_uint etag
item_fields it expiration =
    codes "CacheID: "
    ++ print_uint it.cache_id
    ++ crlf
    ++ codes "Flags: "
    ++ print_uint it.flags
    ++ crlf
    ++ codes "Expiration: "
    ++ print_uint expiration
    ++ crlf
    ++ codes "ETag: "
    ++ etag it
    ++ crlf
    ++ crlf

-- The type as `%s` prints it.
abbrev pub header_304 : List ℕ → Item → ℕ → List ℕ
header_304 mime_type it expiration = c_string mime_type ++ crlf ++ item_fields it expiration

abbrev pub header_200 : List ℕ → ℕ → Item → ℕ → List ℕ
header_200 mime_type gzip_size it expiration =
    c_string mime_type
    ++ crlf
    ++ (if ltb 0 gzip_size
        then codes "Content-Encoding: gzip\r\nContent-Length: " ++ print_uint gzip_size
        else codes "Content-Length: " ++ print_uint it.data_size)
    ++ crlf
    ++ item_fields it expiration

abbrev pub header_lined : List ℕ → List ℕ → Option (ℕ × ℕ) × PeerHttp → PeerHttp
header_lined status header (at, p) = add_printed header at (add_text status p)

-- A chunk's size.
abbrev pub chunk_size : Chunk → ℕ
chunk_size (Chunk.literal text) = length text
chunk_size (Chunk.region block offset size) = size
chunk_size (item_data item size) = size

unfoldable pub add_chunks : List Chunk → PeerHttp → PeerHttp
add_chunks [] p = p
add_chunks (chunk ∷ chunks) p = add_chunks chunks (add_write_buf chunk (chunk_size chunk) p)

-- The answer that the client's copy is the item.
unfoldable pub not_modified : List ℕ → Item → ℕ → PeerHttp → PeerHttp
unfolding printed get_res_304_keep_alive get_res_304_close item_fields c_string
not_modified mime_type it expiration p =
    header_lined (by_keepalive get_res_304_keep_alive get_res_304_close p)
      (header_304 mime_type it expiration) (printed 200 (header_304 mime_type it expiration) p)

-- The body, unless only the header is wanted.
abbrev pub add_body : ℕ → Item → ℕ → List Chunk → PeerHttp → PeerHttp
add_body a it gzip_size chunks p =
    if p.http_request.method == head_method
    then p
    else if ltb 0 gzip_size
    then add_chunks chunks p
    else add_write_buf (item_data a it.data_size) it.data_size p

-- An encoding that saves less than 50 bytes is dropped.
abbrev worthwhile : Item → ℕ → ℕ
worthwhile it gzip_size = if leb it.data_size ((gzip_size + 50) % 2 ^ 32) then 0 else gzip_size

unfoldable pub send_encoded : ℕ → List ℕ → Item → ℕ → Encoded → PeerHttp
unfolding printed get_res_200_keep_alive get_res_200_close item_fields c_string add_chunks
send_encoded a mime_type it expiration (gzip_size, chunks, p) =
    let header = header_200 mime_type gzip_size it expiration in
    add_body a it gzip_size chunks (
      header_lined (by_keepalive get_res_200_keep_alive get_res_200_close p) header
        (printed 300 header p))

abbrev pub encoding : Item → Encoded → Encoded
encoding it (gzip_size, chunks, p) = (worthwhile it gzip_size, chunks, p)

unfoldable pub is_gzip_mime_type : List ℕ → List (List ℕ) → Bool
unfolding bytes_eq
is_gzip_mime_type mime_type [] = false
is_gzip_mime_type mime_type (t ∷ types) = bytes_eq t mime_type || is_gzip_mime_type mime_type types

-- The data encoded where the client, the size and the type allow it.
unfoldable pub encode_item : Env → List ℕ → Item → PeerHttp → Encoded
unfolding gzip_encode is_gzip_mime_type take
encode_item env mime_type it p =
    if not (p.http_request.method == head_method)
      && (p.http_request.accept_gzip
          && (leb env.settings.min_gzip_size it.data_size
              && (leb it.data_size env.settings.max_gzip_size
                  && is_gzip_mime_type mime_type env.settings.gzip_mime_map)))
    then encoding it (gzip_encode env (take it.data_size it.value) p)
    else (0, [], p)

abbrev pub is_client_copy : Item → PeerHttp → Bool
is_client_copy it p =
    length (etag it) == p.http_request.entity_tag_length
    && starts_with p.http_request.entity_tag (etag it)

abbrev pub with_type : Env → ℕ → Item → ℕ → List ℕ × PeerHttp → PeerHttp
with_type env a it expiration (mime_type, p) =
    if is_client_copy it p
    then finish (not_modified mime_type it expiration p)
    else finish (send_encoded a mime_type it expiration (encode_item env mime_type it p))

-- `%s/` of the key, in a page and in its header.
abbrev pub moved_body : PeerHttp → List ℕ
moved_body p =
    codes
      "<HTML><HEAD><TITLE>301 Moved</TITLE></HEAD><BODY><H1>301 Moved</H1>The document has moved<A HREF=\""
    ++ c_string p.key
    ++ codes "/\">here</A>.</BODY></HTML>"

abbrev pub moved_header : PeerHttp → List ℕ
moved_header p =
    print_uint (length (moved_body p))
    ++ codes "\r\nLocation: "
    ++ c_string p.key
    ++ codes "/\r\n\r\n"

unfoldable pub moved : PeerHttp → PeerHttp
unfolding write_printed get_res_301_keep_alive get_res_301_close c_string print_uint
moved p =
    write_printed (by_keepalive get_res_301_keep_alive get_res_301_close p)
      ((35 + p.key_length) % 2 ^ 32) (moved_header p) ((150 + p.key_length) % 2 ^ 32) (moved_body p)
      p

-- The reference to the item stays with the session until the reply is sent.
unfoldable pub answer_get : Env → Got → PeerHttp
unfolding get_mime_type etag not_modified send_encoded encode_item moved write_error starts_with
answer_get env (some a, reason, expiration, p) =
    let it = p.mgr.items a in
    with_type env a it expiration (get_mime_type env it (record p { cache_item = some a }))
answer_get env (none, reason, expiration, p) =
    if reason == moved_permanently then moved p else write_error reason p

unfoldable pub process_get : Env → PeerHttp → PeerHttp
unfolding answer_get get_cache_item
process_get env p = answer_get env (get_cache_item env false p)

abbrev pub base_text : List ℕ → Item → ℕ → List ℕ
base_text mime_type it expiration =
    codes "{\"cacheid\":"
    ++ print_uint it.cache_id
    ++ codes ",\"flags\":"
    ++ print_uint it.flags
    ++ codes ",\"expiration\":"
    ++ print_uint expiration
    ++ codes ",\"mime_type\":\""
    ++ c_string mime_type
    ++ codes "\",\"size\":"
    ++ print_uint it.data_size
    ++ codes "}"

abbrev pub base_typed : ℕ → Item → ℕ → List ℕ × PeerHttp → PeerHttp
base_typed a it expiration (mime_type, p) =
    write_body 200 30 (base_text mime_type it expiration)
      (record p { mgr = release_reference p.mgr a })

unfoldable pub answer_get_base : Env → Got → PeerHttp
unfolding get_mime_type write_body write_error release_reference print_uint c_string
answer_get_base env (some a, reason, expiration, p) =
    base_typed a (p.mgr.items a) expiration (get_mime_type env (p.mgr.items a) p)
answer_get_base env (none, reason, expiration, p) = write_error reason p

unfoldable pub process_get_base : Env → PeerHttp → PeerHttp
unfolding answer_get_base get_cache_item
process_get_base env p = answer_get_base env (get_cache_item env true p)
