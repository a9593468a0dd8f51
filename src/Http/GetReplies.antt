-- ===== src/Http/GetReplies.antt =====
-- src/peer_http.cpp: `process_get` and `process_get_base` reply, whether there is an item or not.
use xixi.Prelude.{
  ℕ, ◌+◌, ◌%◌, ◌^◌, Bool, true, false, not, ◌&&◌, Option, none, some, List, [], ◌∷◌, ltb, leb, ◌==◌,
  if◌then◌else◌, length, take,
}
use xixi.CacheMgr.Access.{release_reference}
use xixi.CacheMgr.State.{Item}
use xixi.Http.Answering.{
  Kept, Replies, Kept-refl, Kept-trans, Replies-trans, add_printed-Kept, add_write_buf-Kept,
  finish-Replies, prepare_buf-Kept, printed-Kept, write_error-Replies, write_body-Replies,
  write_printed-Replies, either,
}
use xixi.Http.Files.{Got, get_cache_item, key_bytes, find_mime}
use xixi.Http.Gets.{
  type_copied, type_found, type_of_suffix, get_mime_type, add_chunks, chunk_size, not_modified,
  add_body, send_encoded, encode_item, with_type, moved, moved_header, moved_body, answer_get,
  process_get, base_typed, base_text, answer_get_base, process_get_base, encoding, header_200,
  header_304, is_client_copy, is_gzip_mime_type, max_mime_type_length,
}
use xixi.Http.Encodings.{EncodedKept, gzip_encode-Kept, either_encoded}
use xixi.Http.Gzip.{Encoded, gzip_encode}
use xixi.Http.Lookups.{GotKept, get_cache_item-Kept}
use xixi.Http.Replies.{
  moved_permanently, write_error, by_keepalive, get_res_200_keep_alive, get_res_200_close,
  get_res_304_keep_alive, get_res_304_close, get_res_301_keep_alive, get_res_301_close,
}
use xixi.Http.State.{
  Env, PeerHttp, Chunk, prepare_buf, printed, finish, add_text, add_write_buf, add_printed,
  head_method,
}
use xixi.Util.Text.{get_suffix}

type_copied-Kept :
    (mime_type : List ℕ) (p : PeerHttp) (r : Option (ℕ × ℕ) × PeerHttp)
    → Kept p r.1
    → Kept p (type_copied mime_type r).1
type_copied-Kept mime_type p (none, q) h = h
type_copied-Kept mime_type p (some at, q) h = h

either_type :
    (p : PeerHttp) (b : Bool) (r s : List ℕ × PeerHttp)
    → Kept p r.1
    → Kept p s.1
    → Kept p (if b then r else s).1
either_type p true r s h k = h
either_type p false r s h k = k

type_found-Kept : (env : Env) (o : Option (List ℕ)) (p : PeerHttp) → Kept p (type_found env o p).1
type_found-Kept env none p = Kept-refl p
type_found-Kept env (some mime_type) p =
    either_type p (leb (length mime_type) max_mime_type_length)
      (type_copied mime_type (prepare_buf (length mime_type + 1) p))
      (env.settings.default_mime_type, p)
      (type_copied-Kept mime_type p (prepare_buf (length mime_type + 1) p)
        (prepare_buf-Kept (length mime_type + 1) p))
      (Kept-refl p)

type_of_suffix-Kept :
    (env : Env) (o : Option (List ℕ)) (p : PeerHttp) → Kept p (type_of_suffix env o p).1
type_of_suffix-Kept env none p = Kept-refl p
type_of_suffix-Kept env (some suffix) p =
    type_found-Kept env (find_mime suffix env.settings.ext_mime_map) p

get_mime_type-Kept : (env : Env) (it : Item) (p : PeerHttp) → Kept p (get_mime_type env it p).1
unfolding get_mime_type
get_mime_type-Kept env it p =
    either_type p (ltb 0 it.ext_size && leb it.ext_size max_mime_type_length)
      (type_copied (take it.ext_size it.ext) (prepare_buf (it.ext_size + 1) p))
      (type_of_suffix env (get_suffix (key_bytes p)) p)
      (type_copied-Kept (take it.ext_size it.ext) p (prepare_buf (it.ext_size + 1) p)
        (prepare_buf-Kept (it.ext_size + 1) p))
      (type_of_suffix-Kept env (get_suffix (key_bytes p)) p)

encoding-Kept :
    (it : Item) (p : PeerHttp) (r : Encoded) → EncodedKept p r → EncodedKept p (encoding it r)
encoding-Kept it p (size, chunks, q) h = h

abbrev allows : Env → List ℕ → Item → PeerHttp → Bool
allows env mime_type it p =
    not (p.http_request.method == head_method)
    && (p.http_request.accept_gzip
        && (leb env.settings.min_gzip_size it.data_size
            && (leb it.data_size env.settings.max_gzip_size
                && is_gzip_mime_type mime_type env.settings.gzip_mime_map)))

encode_item-Kept :
    (env : Env) (mime_type : List ℕ) (it : Item) (p : PeerHttp)
    → EncodedKept p (encode_item env mime_type it p)
unfolding encode_item
encode_item-Kept env mime_type it p =
    let r = gzip_encode env (take it.data_size it.value) p in
    either_encoded p (allows env mime_type it p) (encoding it r) (0, [], p)
      (encoding-Kept it p r (gzip_encode-Kept env (take it.data_size it.value) p)) (Kept-refl p)

add_chunks-Kept : (chunks : List Chunk) (p : PeerHttp) → Kept p (add_chunks chunks p)
unfolding add_chunks
add_chunks-Kept [] p = Kept-refl p
add_chunks-Kept (chunk ∷ chunks) p =
    let q = add_write_buf chunk (chunk_size chunk) p in
    Kept-trans p q (add_chunks chunks q) (add_write_buf-Kept chunk (chunk_size chunk) p)
      (add_chunks-Kept chunks q)

either-Kept : (p q r : PeerHttp) (b : Bool) → Kept p q → Kept p r → Kept p (if b then q else r)
either-Kept p q r true h k = h
either-Kept p q r false h k = k

add_body-Kept :
    (a : ℕ) (it : Item) (size : ℕ) (chunks : List Chunk) (p : PeerHttp)
    → Kept p (add_body a it size chunks p)
add_body-Kept a it size chunks p =
    let whole = add_write_buf (Chunk.item_data a it.data_size) it.data_size p in
    let body = if ltb 0 size then add_chunks chunks p else whole in
    either-Kept p p body (p.http_request.method == head_method) (Kept-refl p) (
      either-Kept p (add_chunks chunks p) whole (ltb 0 size) (add_chunks-Kept chunks p)
        (add_write_buf-Kept (Chunk.item_data a it.data_size) it.data_size p))

send_encoded-Replies :
    (p : PeerHttp) (a : ℕ) (mime_type : List ℕ) (it : Item) (expiration : ℕ) (r : Encoded)
    → EncodedKept p r
    → Replies p (finish (send_encoded a mime_type it expiration r))
unfolding send_encoded
send_encoded-Replies p a mime_type it expiration (size, chunks, q) h =
    let header = header_200 mime_type size it expiration in
    let status = by_keepalive get_res_200_keep_alive get_res_200_close q in
    let (at, q1) = printed 300 header q in
    let q2 = add_text status q1 in
    let q3 = add_printed header at q2 in
    Replies-trans p q (finish (add_body a it size chunks q3)) h (
      Replies-trans q q1 (finish (add_body a it size chunks q3)) (printed-Kept 300 header q) (
        finish-Replies status q1 (add_body a it size chunks q3) (
          Kept-trans q2 q3 (add_body a it size chunks q3) (add_printed-Kept header at q2)
            (add_body-Kept a it size chunks q3))))

not_modified-Replies :
    (mime_type : List ℕ) (it : Item) (expiration : ℕ) (p : PeerHttp)
    → Replies p (finish (not_modified mime_type it expiration p))
unfolding not_modified
not_modified-Replies mime_type it expiration p =
    let header = header_304 mime_type it expiration in
    let status = by_keepalive get_res_304_keep_alive get_res_304_close p in
    let (at, q1) = printed 200 header p in
    let q2 = add_text status q1 in
    Replies-trans p q1 (finish (add_printed header at q2)) (printed-Kept 200 header p)
      (finish-Replies status q1 (add_printed header at q2) (add_printed-Kept header at q2))

with_type-Replies :
    (p : PeerHttp) (env : Env) (a : ℕ) (it : Item) (expiration : ℕ) (r : List ℕ × PeerHttp)
    → Kept p r.1
    → Replies p (with_type env a it expiration r)
with_type-Replies p env a it expiration (mime_type, q) h =
    let copy = finish (not_modified mime_type it expiration q) in
    let sent = finish (send_encoded a mime_type it expiration (encode_item env mime_type it q)) in
    either p copy sent (is_client_copy it q)
      (Replies-trans p q copy h (not_modified-Replies mime_type it expiration q))
      (Replies-trans p q sent h (
        send_encoded-Replies q a mime_type it expiration (encode_item env mime_type it q)
          (encode_item-Kept env mime_type it q)))

moved-Replies : (p : PeerHttp) → Replies p (moved p)
unfolding moved
moved-Replies p =
    write_printed-Replies p (by_keepalive get_res_301_keep_alive get_res_301_close p)
      ((35 + p.key_length) % 2 ^ 32) (moved_header p) ((150 + p.key_length) % 2 ^ 32) (moved_body p)
      p (Kept-refl p)

answer_get-Replies :
    (p : PeerHttp) (env : Env) (r : Got) → GotKept p r → Replies p (answer_get env r)
unfolding answer_get
answer_get-Replies p env (some a, reason, expiration, q) h =
    let q' = record q { cache_item = some a } in
    with_type-Replies p env a (q.mgr.items a) expiration (get_mime_type env (q.mgr.items a) q') (
      Kept-trans p q' (get_mime_type env (q.mgr.items a) q').1 h
        (get_mime_type-Kept env (q.mgr.items a) q'))
answer_get-Replies p env (none, reason, expiration, q) h =
    either p (moved q) (write_error reason q) (reason == moved_permanently)
      (Replies-trans p q (moved q) h (moved-Replies q)) (write_error-Replies p reason q h)

pub process_get-Replies : (env : Env) (p : PeerHttp) → Replies p (process_get env p)
unfolding process_get
process_get-Replies env p =
    answer_get-Replies p env (get_cache_item env false p) (get_cache_item-Kept env false p)

base_typed-Replies :
    (p : PeerHttp) (a : ℕ) (it : Item) (expiration : ℕ) (r : List ℕ × PeerHttp)
    → Kept p r.1
    → Replies p (base_typed a it expiration r)
base_typed-Replies p a it expiration (mime_type, q) h =
    write_body-Replies p 200 30 (base_text mime_type it expiration)
      (record q { mgr = release_reference q.mgr a }) h

answer_get_base-Replies :
    (p : PeerHttp) (env : Env) (r : Got) → GotKept p r → Replies p (answer_get_base env r)
unfolding answer_get_base
answer_get_base-Replies p env (some a, reason, expiration, q) h =
    base_typed-Replies p a (q.mgr.items a) expiration (get_mime_type env (q.mgr.items a) q) (
      Kept-trans p q (get_mime_type env (q.mgr.items a) q).1 h
        (get_mime_type-Kept env (q.mgr.items a) q))
answer_get_base-Replies p env (none, reason, expiration, q) h = write_error-Replies p reason q h

pub process_get_base-Replies : (env : Env) (p : PeerHttp) → Replies p (process_get_base env p)
unfolding process_get_base
process_get_base-Replies env p =
    answer_get_base-Replies p env (get_cache_item env true p) (get_cache_item-Kept env true p)
