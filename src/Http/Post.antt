-- ===== src/Http/Post.antt =====
-- src/peer_http.cpp: `process_post`, which reads the body of a POST request.
use xixi.Prelude.{
  ℕ, zero, suc, ◌+◌, ◌-◌, ◌%◌, ◌^◌, Bool, true, false, ◌&&◌, Option, none, some, List, [], ◌∷◌, ltb,
  ◌==◌, if◌then◌else◌, length, take, drop, codes,
}
use xixi.Http.Args.{process_request_arg, number_arg, unless_refused}
use xixi.Http.Dispatch.{process_command}
use xixi.Http.Fields.{form_type, multipart_type}
use xixi.Http.Replies.{write_error, invalid_parameter}
use xixi.Http.State.{Env, PeerHttp}
use xixi.Http.Text.{skip_blanks}
use xixi.Util.{memfind}
use xixi.Util.Text.{strcasecmp, is_same, strstr}

-- The memory behind what `strstr` finds, from an offset on.
abbrev pub behind : ℕ → Option ℕ → List ℕ → Option (List ℕ)
behind offset none text = none
behind offset (some i) text = some (drop (i + offset) text)

abbrev pub short_type : List ℕ → Option ℕ → PeerHttp → PeerHttp
short_type content_type none p = p
short_type content_type (some size) p =
    if ltb size 128
    then record p { value_content_type = content_type; value_content_type_length = size }
    else p

abbrev pub type_at : Option (List ℕ) → PeerHttp → PeerHttp
type_at none p = p
type_at (some text) p =
    let content_type = skip_blanks text in
    short_type content_type (strstr content_type (codes "\r\n")) p

-- `name_length`: the bytes before the closing quote.
abbrev pub or_zero : Option ℕ → ℕ
or_zero none = 0
or_zero (some n) = n

abbrev pub letter_of : List ℕ → ℕ
letter_of [] = 0
letter_of (c ∷ name) = c

-- The type of a part named "v".
unfoldable pub set_content_type : ℕ → List ℕ → PeerHttp → PeerHttp
unfolding strstr skip_blanks drop
set_content_type name_length name p =
    if name_length == 1 && (letter_of name == b'v')
    then type_at (behind 15 (strstr (drop 2 name) (codes "\r\nContent-Type:")) (drop 2 name)) p
    else p

-- A part, whose value ends four bytes before the next boundary.
unfoldable pub set_part : ℕ → List ℕ → List ℕ → ℕ → PeerHttp → Bool × PeerHttp
unfolding number_arg take
set_part name_length name value value_length p =
    if name_length == 1
    then if letter_of name == b'k'
      then (true, record p { key = value; key_length = value_length })
      else if letter_of name == b'v'
      then (true, record p { value = value; value_length = value_length })
      else number_arg (letter_of name) (take value_length value) p
    else (true, p)

-- The part up to the next boundary; without one the loop ends.
abbrev pub part_ended :
    ℕ
    → List ℕ
    → List ℕ
    → Option ℕ
    → PeerHttp
    → (List ℕ → PeerHttp → Bool × PeerHttp)
    → Bool × PeerHttp
part_ended name_length name value none p next = (true, p)
part_ended name_length name value (some i) p next =
    unless_refused (set_part name_length name value ((i + 2 ^ 32 - 4) % 2 ^ 32) p)
      (λ q. next (drop i value) q)

-- Without an empty line the search goes on from a null pointer.
abbrev pub part_value :
    List ℕ
    → ℕ
    → List ℕ
    → Option (List ℕ)
    → PeerHttp
    → (List ℕ → PeerHttp → Bool × PeerHttp)
    → Bool × PeerHttp
part_value boundary name_length name none p next = (false, record p { crashed = true })
part_value boundary name_length name (some value) p next =
    part_ended name_length name value (memfind value boundary) p next

abbrev pub part_named :
    List ℕ → Option (List ℕ) → PeerHttp → (List ℕ → PeerHttp → Bool × PeerHttp) → Bool × PeerHttp
part_named boundary none p next = (true, p)
part_named boundary (some name) p next =
    let name_length = or_zero (strstr name (codes "\"")) in
    part_value boundary name_length name
      (behind 4 (strstr (drop 2 name) (codes "\r\n\r\n")) (drop 2 name))
      (set_content_type name_length name p) next

-- The loop over the parts, from a boundary on, with the rounds left. What lies past the end of the body is
-- taken to be empty.
unfoldable pub parts_from : ℕ → List ℕ → List ℕ → PeerHttp → Bool × PeerHttp
unfolding strstr memfind drop set_content_type set_part unless_refused
parts_from zero boundary text p = (true, p)
parts_from (suc rounds) boundary text p =
    let part = drop (length boundary + 2) text in
    part_named boundary (behind 7 (strstr part (codes " name=\"")) part) p
      (λ rest q. parts_from rounds boundary rest q)

abbrev pub parts_at : List ℕ → Option ℕ → PeerHttp → Bool × PeerHttp
parts_at boundary none p = (true, p)
parts_at boundary (some i) p = parts_from (length p.post_data) boundary (drop i p.post_data) p

-- The commands run where no error was answered.
abbrev pub then_command : Env → Bool × PeerHttp → PeerHttp
then_command env (false, p) = p
then_command env (true, p) = process_command env p

abbrev pub has_type : List ℕ → PeerHttp → Bool
has_type type p =
    if p.http_request.content_type_length == length type
    then is_same (strcasecmp p.http_request.content_type type (length type))
    else false

unfoldable pub process_post : Env → PeerHttp → PeerHttp
unfolding process_request_arg process_command parts_from write_error strcasecmp memfind drop take
process_post env p =
    let boundary = take p.http_request.boundary_length p.http_request.boundary in
    if has_type form_type p
    then then_command env (process_request_arg p.post_data p)
    else if has_type multipart_type p && ltb 0 p.http_request.boundary_length
    then then_command env (parts_at boundary (memfind p.post_data boundary) p)
    else write_error invalid_parameter p
