-- ===== src/Http/Fields.antt =====
-- src/peer_http.cpp: the fields of a request's header.
use xixi.Prelude.{
  ℕ, zero, suc, ◌+◌, ◌-◌, Bool, true, false, ◌&&◌, Option, none, some, List, ltb, leb, ◌==◌,
  if◌then◌else◌, length, take, drop, codes,
}
use xixi.Http.Args.{unless_refused}
use xixi.Http.State.{PeerHttp, HttpRequest, prepare_buf}
use xixi.Http.Text.{next_field, Field}
use xixi.Util.{safe_toui32, memfind}
use xixi.Util.Text.{strcasecmp, is_same, strstr}

abbrev pub in_request : (HttpRequest → HttpRequest) → PeerHttp → PeerHttp
in_request change p = record p { http_request = change p.http_request }

-- `value` copied into a region of its own; the flag is false where there is none.
abbrev pub copied : (HttpRequest → HttpRequest) → Option (ℕ × ℕ) × PeerHttp → Bool × PeerHttp
copied change (none, p) = (false, p)
copied change (some at, p) = (true, in_request change p)

abbrev pub form_type : List ℕ
form_type = codes "application/x-www-form-urlencoded"

abbrev pub multipart_type : List ℕ
multipart_type = codes "multipart/form-data"

abbrev pub with_type : List ℕ → ℕ → HttpRequest → HttpRequest
with_type text size r = record r { content_type = text; content_type_length = size }

-- The boundary behind "boundary=", which is looked for behind the name of the type.
abbrev pub with_boundary : List ℕ → Option ℕ → HttpRequest → HttpRequest
with_boundary text none r = r
with_boundary text (some i) r = record r {
  boundary = drop (19 + i + 9) text;
  boundary_length = length text - (19 + i + 9);
}

unfoldable pub content_type_of : List ℕ → HttpRequest → HttpRequest
unfolding strcasecmp strstr take drop
content_type_of value r =
    if ltb 33 (length value) && is_same (strcasecmp value form_type 33)
    then with_type (take 33 value) 33 r
    else if ltb 30 (length value) && is_same (strcasecmp value multipart_type 19)
    then with_type (take 19 value) 19
        (with_boundary value (strstr (drop 19 value) (codes "boundary=")) r)
    else with_type value (length value) r

abbrev pub is_some : Option ℕ → Bool
is_some none = false
is_some (some i) = true

abbrev pub with_length : PeerHttp → Option ℕ → Bool × PeerHttp
with_length p none = (false, p)
with_length p (some n) = (true, record p { content_length = n })

-- `name_length == ... && strcasecmp(name, ..., name_length) == 0`
abbrev pub is_named : List ℕ → List ℕ → Bool
is_named name text =
    if length name == length text then is_same (strcasecmp name text (length text)) else false

-- The flag is false where the request is refused.
unfoldable pub handle_request_header_field : List ℕ → List ℕ → PeerHttp → Bool × PeerHttp
unfolding strcasecmp content_type_of prepare_buf safe_toui32 memfind
handle_request_header_field name value p =
    if is_named name (codes "Connection")
    then (
      true,
      (if leb 10 (length value) && is_same (strcasecmp value (codes "Keep-Alive") 10)
          then in_request (λ r. record r { keepalive = true }) p
          else p),
    )
    else if is_named name (codes "content-type")
    then if ltb 0 (length value)
      then copied (content_type_of value) (prepare_buf (length value + 1) p)
      else (true, p)
    else if is_named name (codes "if-none-match")
    then copied (λ r. record r { entity_tag = value; entity_tag_length = length value })
        (prepare_buf (length value + 1) p)
    else if is_named name (codes "content-length")
    then with_length p (safe_toui32 value)
    else if is_named name (codes "Accept-Encoding")
    then (
      true,
      in_request (λ r. record r { accept_gzip = is_some (memfind value (codes "gzip")) }) p,
    )
    else (true, p)

abbrev pub fields_rest :
    Option (List ℕ) → (List ℕ → PeerHttp → Bool × PeerHttp) → PeerHttp → Bool × PeerHttp
fields_rest none next p = (true, p)
fields_rest (some rest) next p = next rest p

abbrev pub fields_round :
    Option Field → PeerHttp → (List ℕ → PeerHttp → Bool × PeerHttp) → Bool × PeerHttp
fields_round none p next = (true, p)
fields_round (some field) p next =
    unless_refused (handle_request_header_field field.name field.value p)
      (λ q. fields_rest field.rest next q)

-- The loop, with the rounds left. Each field has a byte at least.
unfoldable pub fields_from : ℕ → List ℕ → PeerHttp → Bool × PeerHttp
unfolding next_field handle_request_header_field unless_refused
fields_from zero fields p = (true, p)
fields_from (suc rounds) fields p =
    fields_round (next_field fields) p (λ rest q. fields_from rounds rest q)

unfoldable pub process_request_header_fields : List ℕ → PeerHttp → Bool × PeerHttp
unfolding fields_from
process_request_header_fields fields p = fields_from (length fields) fields p
