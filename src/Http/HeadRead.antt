-- ===== src/Http/HeadRead.antt =====
-- src/peer_http.cpp: the head of a request is taken from the bytes that have come, and answered.
use xixi.Prelude.{
  ℕ, zero, suc, ◌+◌, ◌-◌, ◌*◌, ◌%◌, ◌^◌, ◌≡◌, refl, ◌⊎◌, inl, inr, Bool, true, false, ◌&&◌, Option,
  none, some, List, [], ltb, leb, ◌==◌, length, take, drop, codes,
}
use xixi.CacheMgr.State.{too_large, out_of_memory}
use xixi.Http.Answering.{Kept, Kept-refl, Kept-trans, write_error-Replies, prepare_buf-Kept}
use xixi.Http.ArgsKept.{branch}
use xixi.Http.Dispatched.{process_command-Answers, Answers-trans}
use xixi.Http.Fields.{
  copied, content_type_of, with_length, is_named, handle_request_header_field, fields_rest,
  fields_round, fields_from, process_request_header_fields,
}
use xixi.Http.Args.{unless_refused}
use xixi.Http.Header.{
  split_line, method_of, set_version, uri_of, with_uri, uri_copied, body_prepared, expect_body,
  fields_read, with_method, with_line, process_request_header,
}
use xixi.Http.Replies.{write_error, invalid_parameter, reason_code}
use xixi.Http.State.{Env, PeerHttp, HttpRequest, prepare_buf, post_method}
use xixi.Http.Text.{Field, next_field}
use xixi.Http.WatchReplies.{Answers}
use xixi.Session.Peer.{PeerState}
use xixi.Util.{memfind, safe_toui32, starts_with}
use xixi.Util.Text.{strcasecmp, is_same}

-- The session goes on after a field, or it does not; it has not replied yet.
abbrev FieldKept : PeerHttp → Bool × PeerHttp → Type 0
FieldKept p (go_on, q) = Kept p q

copied-Kept :
    (change : HttpRequest → HttpRequest) (p : PeerHttp) (r : Option (ℕ × ℕ) × PeerHttp)
    → Kept p r.1
    → FieldKept p (copied change r)
copied-Kept change p (none, q) h = h
copied-Kept change p (some at, q) h = h

with_length-Kept : (p : PeerHttp) (o : Option ℕ) → FieldKept p (with_length p o)
with_length-Kept p none = Kept-refl p
with_length-Kept p (some n) = Kept-refl p

field-Kept :
    (name value : List ℕ) (p : PeerHttp) → FieldKept p (handle_request_header_field name value p)
unfolding handle_request_header_field
field-Kept name value p =
    let room = prepare_buf (length value + 1) p in
    branch (FieldKept p) (is_named name (codes "Connection"))
      (branch (Kept p) (leb 10 (length value) && is_same (strcasecmp value (codes "Keep-Alive") 10))
        (Kept-refl p) (Kept-refl p))
      (branch (FieldKept p) (is_named name (codes "content-type"))
        (branch (FieldKept p) (ltb 0 (length value))
          (copied-Kept (content_type_of value) p room (prepare_buf-Kept (length value + 1) p))
          (Kept-refl p))
        (branch (FieldKept p) (is_named name (codes "if-none-match"))
          (copied-Kept (λ r. record r { entity_tag = value; entity_tag_length = length value }) p
            room (prepare_buf-Kept (length value + 1) p))
          (branch (FieldKept p) (is_named name (codes "content-length"))
            (with_length-Kept p (safe_toui32 value))
            (branch (FieldKept p) (is_named name (codes "Accept-Encoding")) (Kept-refl p)
              (Kept-refl p)))))

FieldKept-trans : (p q : PeerHttp) (r : Bool × PeerHttp) → Kept p q → FieldKept q r → FieldKept p r
FieldKept-trans p q (go_on, r) h k = Kept-trans p q r h k

unless_refused-Kept :
    (p : PeerHttp) (r : Bool × PeerHttp) (next : PeerHttp → Bool × PeerHttp)
    → FieldKept p r
    → ((q : PeerHttp) → FieldKept q (next q))
    → FieldKept p (unless_refused r next)
unfolding unless_refused
unless_refused-Kept p (true, q) next h k = FieldKept-trans p q (next q) h (k q)
unless_refused-Kept p (false, q) next h k = h

abbrev NextKept : (List ℕ → PeerHttp → Bool × PeerHttp) → Type 0
NextKept next = (rest : List ℕ) (q : PeerHttp) → FieldKept q (next rest q)

fields_rest-Kept :
    (o : Option (List ℕ)) (next : List ℕ → PeerHttp → Bool × PeerHttp) (p : PeerHttp)
    → NextKept next
    → FieldKept p (fields_rest o next p)
fields_rest-Kept none next p h = Kept-refl p
fields_rest-Kept (some rest) next p h = h rest p

fields_round-Kept :
    (o : Option Field) (p : PeerHttp) (next : List ℕ → PeerHttp → Bool × PeerHttp)
    → NextKept next
    → FieldKept p (fields_round o p next)
fields_round-Kept none p next h = Kept-refl p
fields_round-Kept (some field) p next h =
    unless_refused-Kept p (handle_request_header_field field.name field.value p)
      (λ q. fields_rest field.rest next q) (field-Kept field.name field.value p)
      (λ q. fields_rest-Kept field.rest next q h)

fields_from-Kept :
    (rounds : ℕ) (fields : List ℕ) (p : PeerHttp) → FieldKept p (fields_from rounds fields p)
unfolding fields_from
fields_from-Kept zero fields p = Kept-refl p
fields_from-Kept (suc rounds) fields p =
    fields_round-Kept (next_field fields) p (λ rest q. fields_from rounds rest q)
      (λ rest q. fields_from-Kept rounds rest q)

-- The request is answered, or the session waits for its body, or for the timer of a watch.
abbrev pub HeadEnds : PeerHttp → PeerHttp → Type 0
HeadEnds p q = Answers p q ⊎ (Kept p q × (q.state ≡ PeerState.read_body_extras))

HeadEnds-trans : (p q r : PeerHttp) → Kept p q → HeadEnds q r → HeadEnds p r
HeadEnds-trans p q r h (inl k) = inl (Answers-trans p q r h k)
HeadEnds-trans p q r h (inr (k, body)) = inr (Kept-trans p q r h k, body)

fails :
    (p : PeerHttp) (error_code : ℕ) (q : PeerHttp)
    → Kept p q
    → HeadEnds p (write_error error_code q)
fails p error_code q h = inl (inl (write_error-Replies p error_code q h))

uri_copied-Ends :
    (p : PeerHttp) (r : Option (ℕ × ℕ) × PeerHttp)
    → Kept p r.1
    → r.1.state ≡ PeerState.read_body_extras
    → HeadEnds p (uri_copied r)
uri_copied-Ends p (none, q) h body =
    inl (inl ((write_error-Replies p (reason_code out_of_memory) q h).0, inl refl))
uri_copied-Ends p (some at, q) h body = inr (h, body)

prepare_buf-state : (size : ℕ) (p : PeerHttp) → (prepare_buf size p).1.state ≡ p.state
unfolding prepare_buf
prepare_buf-state size p = refl

body_prepared-Ends :
    (p : PeerHttp) (r : Option (ℕ × ℕ) × PeerHttp) → Kept p r.1 → HeadEnds p (body_prepared r)
body_prepared-Ends p (none, q) h =
    fails p (reason_code out_of_memory) (record q { post_data = [] }) h
body_prepared-Ends p (some at, q) h =
    let q' = record q {
      post_data = [];
      next_data_len = q.content_length;
      state = PeerState.read_body_extras;
    } in
    let size = q.http_request.uri_length + 1 in
    uri_copied-Ends p (prepare_buf size q')
      (Kept-trans p q' (prepare_buf size q').1 h (prepare_buf-Kept size q'))
      (prepare_buf-state size q')

expect_body-Ends : (env : Env) (p : PeerHttp) → HeadEnds p (expect_body env p)
unfolding expect_body
expect_body-Ends env p =
    let size = (p.content_length + 1) % 2 ^ 32 in
    branch (HeadEnds p) ((p.http_request.method == post_method) && ltb 0 p.content_length)
      (branch (HeadEnds p) (ltb (env.settings.item_size_max * 3 % 2 ^ 32) p.content_length)
        (fails p (reason_code too_large) p (Kept-refl p))
        (body_prepared-Ends p (prepare_buf size p) (prepare_buf-Kept size p)))
      (inl (process_command-Answers env p))

fields_read-Ends :
    (env : Env) (p : PeerHttp) (r : Bool × PeerHttp)
    → FieldKept p r
    → HeadEnds p (fields_read env r)
fields_read-Ends env p (false, q) h = fails p invalid_parameter q h
fields_read-Ends env p (true, q) h =
    HeadEnds-trans p q (expect_body env q) h (expect_body-Ends env q)

with_method-Ends :
    (env : Env) (line fields : List ℕ) (o : Option (ℕ × ℕ)) (p : PeerHttp)
    → HeadEnds p (with_method env line fields o p)
unfolding process_request_header_fields
with_method-Ends env line fields none p = fails p invalid_parameter p (Kept-refl p)
with_method-Ends env line fields (some (method, offset)) p =
    let q = with_uri method (uri_of (drop offset line)) p in
    fields_read-Ends env p (process_request_header_fields fields q)
      (fields_from-Kept (length fields) fields q)

set_version-Kept : (line : List ℕ) (p : PeerHttp) → Kept p (set_version line p)
unfolding set_version
set_version-Kept line p =
    branch (Kept p) (starts_with (drop (length line - 3) line) (codes "1.1")) (Kept-refl p)
      (Kept-refl p)

with_line-Ends :
    (env : Env) (line fields : List ℕ) (p : PeerHttp) → HeadEnds p (with_line env (line, fields) p)
with_line-Ends env line fields p =
    let q = set_version line p in
    branch (HeadEnds p) (leb 6 (length line))
      (HeadEnds-trans p q (with_method env line fields (method_of line) q) (set_version-Kept line p)
        (with_method-Ends env line fields (method_of line) q))
      (fails p invalid_parameter p (Kept-refl p))

split_line-Ends :
    (env : Env) (header : List ℕ) (o : Option ℕ) (p : PeerHttp)
    → HeadEnds p (with_line env (split_line header o) p)
split_line-Ends env header none p = with_line-Ends env header [] p
split_line-Ends env header (some i) p = with_line-Ends env (take i header) (drop (i + 2) header) p

pub process_request_header-Ends :
    (env : Env) (header : List ℕ) (p : PeerHttp) → HeadEnds p (process_request_header env header p)
unfolding process_request_header
process_request_header-Ends env header p =
    split_line-Ends env header (memfind header (codes "\r\n")) p
