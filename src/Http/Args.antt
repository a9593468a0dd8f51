-- ===== src/Http/Args.antt =====
-- src/peer_http.cpp: the arguments of a request, `decode_uri` and `process_request_arg`.
use xixi.Prelude.{
  ℕ, zero, suc, ◌+◌, Bool, true, false, Option, none, some, List, [], ◌∷◌, ◌==◌, if◌then◌else◌,
  length,
}
use xixi.CacheMgr.State.{out_of_memory}
use xixi.Http.Replies.{write_error, reason_code, invalid_parameter}
use xixi.Http.State.{PeerHttp, prepare_buf}
use xixi.Http.Text.{get_arg, decode_from}
use xixi.Util.{safe_toui32, safe_toui64, safe_toi64}
use xixi.Util.Text.{c_string}

abbrev pub decoded_at : List ℕ → Option (ℕ × ℕ) × PeerHttp → Option (List ℕ) × PeerHttp
decoded_at text (none, p) = (none, p)
decoded_at text (some at, p) = (some text, p)

-- The text in a region of its own; none for NULL.
unfoldable pub decode_uri : List ℕ → PeerHttp → Option (List ℕ) × PeerHttp
unfolding decode_from prepare_buf
decode_uri uri p = decoded_at (decode_from 0 uri) (prepare_buf (length uri + 1) p)

-- The flag is false where the request is answered with an error.
unfoldable pub refused : ℕ → PeerHttp → Bool × PeerHttp
unfolding write_error
refused error_code p = (false, write_error error_code p)

-- What comes next where no error was answered.
unfoldable pub unless_refused : Bool × PeerHttp → (PeerHttp → Bool × PeerHttp) → Bool × PeerHttp
unless_refused (false, p) next = (false, p)
unless_refused (true, p) next = next p

-- `if (!safe_toui32(...)) { write_error(...); return false; }`
abbrev pub assigned : (ℕ → PeerHttp → PeerHttp) → PeerHttp → Option ℕ → Bool × PeerHttp
assigned set p none = refused invalid_parameter p
assigned set p (some x) = (true, set x p)

-- The branches for numbers, which `process_request_arg` and `process_post` share.
unfoldable pub number_arg : ℕ → List ℕ → PeerHttp → Bool × PeerHttp
unfolding refused safe_toui32 safe_toui64 safe_toi64
number_arg name text p =
    if name == b'g'
    then assigned (λ x q. record q { group_id = x }) p (safe_toui32 text)
    else if name == b'w'
    then assigned (λ x q. record q { watch_id = x }) p (safe_toui32 text)
    else if name == b'f'
    then assigned (λ x q. record q { flags = x }) p (safe_toui32 text)
    else if name == b'c'
    then assigned (λ x q. record q { cache_id = x }) p (safe_toui64 text)
    else if name == b'd'
    then assigned (λ x q. record q { delta = x }) p (safe_toi64 text)
    else if name == b'e'
    then assigned (λ x q. record q { expiration = x }) (record p { touch_flag = true })
        (safe_toui32 text)
    else if name == b'a'
    then assigned (λ x q. record q { ack_sequence = x }) p (safe_toui32 text)
    else if name == b'i'
    then assigned (λ x q. record q { interval = x }) p (safe_toui32 text)
    else if name == b't'
    then assigned (λ x q. record q { timeout = x }) p (safe_toui32 text)
    else if name == b's'
    then assigned (λ x q. record q { sub_op = x }) p (safe_toui32 text)
    else (true, p)

abbrev pub key_decoded : Option (List ℕ) × PeerHttp → Bool × PeerHttp
key_decoded (none, p) = refused (reason_code out_of_memory) (record p { key = [] })
key_decoded (some text, p) = (true, record p { key = text; key_length = length text })

abbrev pub value_decoded : Option (List ℕ) × PeerHttp → Bool × PeerHttp
value_decoded (none, p) = refused (reason_code out_of_memory) (record p { value = [] })
value_decoded (some text, p) = (true, record p { value = text; value_length = length text })

unfoldable pub handle_named : ℕ → List ℕ → PeerHttp → Bool × PeerHttp
unfolding refused decode_uri number_arg
handle_named name text p =
    if name == b'k'
    then key_decoded (decode_uri text p)
    else if name == b'v'
    then value_decoded (decode_uri text p)
    else number_arg name text p

-- The body of the loop: an argument of another form is passed over.
unfoldable pub handle_arg : List ℕ → PeerHttp → Bool × PeerHttp
unfolding handle_named
handle_arg (name ∷ sign ∷ text) p = if sign == b'=' then handle_named name text p else (true, p)
handle_arg _ p = (true, p)

abbrev pub args_round :
    Option (List ℕ × List ℕ) → PeerHttp → (List ℕ → PeerHttp → Bool × PeerHttp) → Bool × PeerHttp
args_round none p next = (true, p)
args_round (some (arg, rest)) p next = unless_refused (handle_arg arg p) (λ q. next rest q)

-- The loop, with the rounds left. There are at most as many arguments as bytes.
unfoldable pub args_from : ℕ → List ℕ → PeerHttp → Bool × PeerHttp
unfolding get_arg handle_arg unless_refused
args_from zero args p = (true, p)
args_from (suc rounds) args p = args_round (get_arg args) p (λ rest q. args_from rounds rest q)

unfoldable pub process_request_arg : List ℕ → PeerHttp → Bool × PeerHttp
unfolding args_from c_string
process_request_arg args p = args_from (length (c_string args)) (c_string args) p
