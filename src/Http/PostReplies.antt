-- ===== src/Http/PostReplies.antt =====
-- src/peer_http.cpp: `process_post` answers every body.
use xixi.Prelude.{
  ℕ, zero, suc, ◌+◌, ◌-◌, ◌%◌, ◌^◌, refl, inl, Bool, true, false, ◌&&◌, Option, none, some, List,
  ltb, ◌==◌, length, take, drop, codes,
}
use xixi.Http.Answering.{Kept, Kept-refl, write_error-Replies}
use xixi.Http.Args.{process_request_arg}
use xixi.Http.ArgsKept.{
  Passed, branch, number_arg-Passed, unless_refused-Passed, process_request_arg-Passed,
  Passed-trans,
}
use xixi.Http.Dispatch.{process_command}
use xixi.Http.Dispatched.{process_command-Answers, Answers-trans}
use xixi.Http.Fields.{form_type, multipart_type}
use xixi.Http.Post.{
  behind, short_type, type_at, or_zero, set_content_type, letter_of, set_part, part_ended,
  part_value, part_named, parts_from, parts_at, then_command, has_type, process_post,
}
use xixi.Http.Replies.{invalid_parameter}
use xixi.Http.State.{Env, PeerHttp}
use xixi.Http.Text.{skip_blanks}
use xixi.Http.WatchReplies.{Answers}
use xixi.Util.{memfind}
use xixi.Util.Text.{strstr}

short_type-Kept : (text : List ℕ) (o : Option ℕ) (p : PeerHttp) → Kept p (short_type text o p)
short_type-Kept text none p = Kept-refl p
short_type-Kept text (some size) p = branch (Kept p) (ltb size 128) (Kept-refl p) (Kept-refl p)

type_at-Kept : (o : Option (List ℕ)) (p : PeerHttp) → Kept p (type_at o p)
type_at-Kept none p = Kept-refl p
type_at-Kept (some text) p =
    short_type-Kept (skip_blanks text) (strstr (skip_blanks text) (codes "\r\n")) p

set_content_type-Kept :
    (name_length : ℕ) (name : List ℕ) (p : PeerHttp) → Kept p (set_content_type name_length name p)
unfolding set_content_type
set_content_type-Kept name_length name p =
    branch (Kept p) (name_length == 1 && (letter_of name == b'v'))
      (type_at-Kept (behind 15 (strstr (drop 2 name) (codes "\r\nContent-Type:")) (drop 2 name)) p)
      (Kept-refl p)

set_part-Passed :
    (name_length : ℕ) (name value : List ℕ) (value_length : ℕ) (p : PeerHttp)
    → Passed p (set_part name_length name value value_length p)
unfolding set_part
set_part-Passed name_length name value value_length p =
    branch (Passed p) (name_length == 1)
      (branch (Passed p) (letter_of name == b'k') (Kept-refl p) (
        branch (Passed p) (letter_of name == b'v') (Kept-refl p)
          (number_arg-Passed (letter_of name) (take value_length value) p)))
      (Kept-refl p)

abbrev NextPassed : (List ℕ → PeerHttp → Bool × PeerHttp) → Type 0
NextPassed next = (text : List ℕ) (q : PeerHttp) → Passed q (next text q)

part_ended-Passed :
    (name_length : ℕ) (name value : List ℕ) (o : Option ℕ) (p : PeerHttp)
    (next : List ℕ → PeerHttp → Bool × PeerHttp)
    → NextPassed next
    → Passed p (part_ended name_length name value o p next)
part_ended-Passed name_length name value none p next h = Kept-refl p
part_ended-Passed name_length name value (some i) p next h =
    unless_refused-Passed p (set_part name_length name value ((i + 2 ^ 32 - 4) % 2 ^ 32) p)
      (λ q. next (drop i value) q)
      (set_part-Passed name_length name value ((i + 2 ^ 32 - 4) % 2 ^ 32) p)
      (λ q. h (drop i value) q)

part_value-Passed :
    (boundary : List ℕ) (name_length : ℕ) (name : List ℕ) (o : Option (List ℕ)) (p : PeerHttp)
    (next : List ℕ → PeerHttp → Bool × PeerHttp)
    → NextPassed next
    → Passed p (part_value boundary name_length name o p next)
part_value-Passed boundary name_length name none p next h = (Kept-refl p, inl refl)
part_value-Passed boundary name_length name (some value) p next h =
    part_ended-Passed name_length name value (memfind value boundary) p next h

part_named-Passed :
    (boundary : List ℕ) (o : Option (List ℕ)) (p : PeerHttp)
    (next : List ℕ → PeerHttp → Bool × PeerHttp)
    → NextPassed next
    → Passed p (part_named boundary o p next)
part_named-Passed boundary none p next h = Kept-refl p
part_named-Passed boundary (some name) p next h =
    let name_length = or_zero (strstr name (codes "\"")) in
    let q = set_content_type name_length name p in
    let o = behind 4 (strstr (drop 2 name) (codes "\r\n\r\n")) (drop 2 name) in
    Passed-trans p q (part_value boundary name_length name o q next)
      (set_content_type-Kept name_length name p)
      (part_value-Passed boundary name_length name o q next h)

parts_from-Passed :
    (rounds : ℕ) (boundary text : List ℕ) (p : PeerHttp)
    → Passed p (parts_from rounds boundary text p)
unfolding parts_from
parts_from-Passed zero boundary text p = Kept-refl p
parts_from-Passed (suc rounds) boundary text p =
    let part = drop (length boundary + 2) text in
    part_named-Passed boundary (behind 7 (strstr part (codes " name=\"")) part) p
      (λ rest q. parts_from rounds boundary rest q)
      (λ rest q. parts_from-Passed rounds boundary rest q)

parts_at-Passed :
    (boundary : List ℕ) (o : Option ℕ) (p : PeerHttp) → Passed p (parts_at boundary o p)
parts_at-Passed boundary none p = Kept-refl p
parts_at-Passed boundary (some i) p =
    parts_from-Passed (length p.post_data) boundary (drop i p.post_data) p

then_command-Answers :
    (p : PeerHttp) (env : Env) (r : Bool × PeerHttp) → Passed p r → Answers p (then_command env r)
then_command-Answers p env (false, q) h = inl h
then_command-Answers p env (true, q) h =
    Answers-trans p q (process_command env q) h (process_command-Answers env q)

pub process_post-Answers : (env : Env) (p : PeerHttp) → Answers p (process_post env p)
unfolding process_post
process_post-Answers env p =
    let boundary = take p.http_request.boundary_length p.http_request.boundary in
    branch (Answers p) (has_type form_type p)
      (then_command-Answers p env (process_request_arg p.post_data p)
        (process_request_arg-Passed p.post_data p))
      (branch (Answers p) (has_type multipart_type p && ltb 0 p.http_request.boundary_length)
        (then_command-Answers p env (parts_at boundary (memfind p.post_data boundary) p)
          (parts_at-Passed boundary (memfind p.post_data boundary) p))
        (inl (write_error-Replies p invalid_parameter p (Kept-refl p))))
