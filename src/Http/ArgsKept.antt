-- ===== src/Http/ArgsKept.antt =====
-- src/peer_http.cpp: an argument is taken into the session, or the request is answered with an error.
use xixi.Prelude.{
  ℕ, zero, suc, ◌+◌, Bool, true, false, Option, none, some, List, [], ◌∷◌, ◌==◌, if◌then◌else◌,
  length,
}
use xixi.CacheMgr.State.{out_of_memory}
use xixi.Http.Answering.{
  Kept, Replies, Kept-refl, Kept-trans, Replies-trans, write_error-Replies, prepare_buf-Kept,
}
use xixi.Http.Args.{
  unless_refused, handle_arg, handle_named, number_arg, refused, assigned, key_decoded,
  value_decoded, decode_uri, decoded_at, args_round, args_from, process_request_arg,
}
use xixi.Http.Replies.{invalid_parameter, reason_code}
use xixi.Http.State.{PeerHttp, prepare_buf}
use xixi.Http.Text.{get_arg, decode_from}
use xixi.Util.{safe_toui32, safe_toui64, safe_toi64}
use xixi.Util.Text.{c_string}

-- The session goes on with the request, or it has replied.
abbrev pub Passed : PeerHttp → Bool × PeerHttp → Type 0
Passed p (true, q) = Kept p q
Passed p (false, q) = Replies p q

-- What holds of both results of a test holds of its result.
pub branch {ℓ} :
    {A : Type ℓ} (P : A → Type 0) {q r : A} (b : Bool) → P q → P r → P (if b then q else r)
branch P true h k = h
branch P false h k = k

refused-Passed :
    (p : PeerHttp) (error_code : ℕ) (q : PeerHttp) → Kept p q → Passed p (refused error_code q)
unfolding refused
refused-Passed p error_code q h = write_error-Replies p error_code q h

assigned-Passed :
    (set : ℕ → PeerHttp → PeerHttp) (p : PeerHttp) (o : Option ℕ)
    → ((x : ℕ) → Kept p (set x p))
    → Passed p (assigned set p o)
assigned-Passed set p none h = refused-Passed p invalid_parameter p (Kept-refl p)
assigned-Passed set p (some x) h = h x

pub number_arg-Passed :
    (name : ℕ) (text : List ℕ) (p : PeerHttp) → Passed p (number_arg name text p)
unfolding number_arg
number_arg-Passed name text p =
    let n32 = safe_toui32 text in
    branch (Passed p) (name == b'g')
      (assigned-Passed (λ x q. record q { group_id = x }) p n32 (λ x. Kept-refl p))
      (branch (Passed p) (name == b'w')
        (assigned-Passed (λ x q. record q { watch_id = x }) p n32 (λ x. Kept-refl p))
        (branch (Passed p) (name == b'f')
          (assigned-Passed (λ x q. record q { flags = x }) p n32 (λ x. Kept-refl p))
          (branch (Passed p) (name == b'c')
            (assigned-Passed (λ x q. record q { cache_id = x }) p (safe_toui64 text)
              (λ x. Kept-refl p))
            (branch (Passed p) (name == b'd')
              (assigned-Passed (λ x q. record q { delta = x }) p (safe_toi64 text)
                (λ x. Kept-refl p))
              (branch (Passed p) (name == b'e')
                (assigned-Passed (λ x q. record q { expiration = x })
                  (record p { touch_flag = true }) n32 (λ x. Kept-refl p))
                (branch (Passed p) (name == b'a')
                  (assigned-Passed (λ x q. record q { ack_sequence = x }) p n32 (λ x. Kept-refl p))
                  (branch (Passed p) (name == b'i')
                    (assigned-Passed (λ x q. record q { interval = x }) p n32 (λ x. Kept-refl p))
                    (branch (Passed p) (name == b't')
                      (assigned-Passed (λ x q. record q { timeout = x }) p n32 (λ x. Kept-refl p))
                      (branch (Passed p) (name == b's')
                        (assigned-Passed (λ x q. record q { sub_op = x }) p n32 (λ x. Kept-refl p))
                        (Kept-refl p))))))))))

-- The session of a result.
decoded_at-Kept :
    (text : List ℕ) (p : PeerHttp) (r : Option (ℕ × ℕ) × PeerHttp)
    → Kept p r.1
    → Kept p (decoded_at text r).1
decoded_at-Kept text p (none, q) h = h
decoded_at-Kept text p (some at, q) h = h

decode_uri-Kept : (text : List ℕ) (p : PeerHttp) → Kept p (decode_uri text p).1
unfolding decode_uri
decode_uri-Kept text p =
    decoded_at-Kept (decode_from 0 text) p (prepare_buf (length text + 1) p)
      (prepare_buf-Kept (length text + 1) p)

key_decoded-Passed :
    (p : PeerHttp) (r : Option (List ℕ) × PeerHttp) → Kept p r.1 → Passed p (key_decoded r)
key_decoded-Passed p (none, q) h =
    refused-Passed p (reason_code out_of_memory) (record q { key = [] }) h
key_decoded-Passed p (some text, q) h = h

value_decoded-Passed :
    (p : PeerHttp) (r : Option (List ℕ) × PeerHttp) → Kept p r.1 → Passed p (value_decoded r)
value_decoded-Passed p (none, q) h =
    refused-Passed p (reason_code out_of_memory) (record q { value = [] }) h
value_decoded-Passed p (some text, q) h = h

handle_named-Passed :
    (name : ℕ) (text : List ℕ) (p : PeerHttp) → Passed p (handle_named name text p)
unfolding handle_named
handle_named-Passed name text p =
    branch (Passed p) (name == b'k')
      (key_decoded-Passed p (decode_uri text p) (decode_uri-Kept text p))
      (branch (Passed p) (name == b'v')
        (value_decoded-Passed p (decode_uri text p) (decode_uri-Kept text p))
        (number_arg-Passed name text p))

handle_arg-Passed : (arg : List ℕ) (p : PeerHttp) → Passed p (handle_arg arg p)
unfolding handle_arg
handle_arg-Passed [] p = Kept-refl p
handle_arg-Passed (name ∷ []) p = Kept-refl p
handle_arg-Passed (name ∷ sign ∷ text) p =
    branch (Passed p) (sign == b'=') (handle_named-Passed name text p) (Kept-refl p)

pub Passed-trans : (p q : PeerHttp) (r : Bool × PeerHttp) → Kept p q → Passed q r → Passed p r
Passed-trans p q (true, r) h k = Kept-trans p q r h k
Passed-trans p q (false, r) h k = Replies-trans p q r h k

pub unless_refused-Passed :
    (p : PeerHttp) (r : Bool × PeerHttp) (next : PeerHttp → Bool × PeerHttp)
    → Passed p r
    → ((q : PeerHttp) → Passed q (next q))
    → Passed p (unless_refused r next)
unfolding unless_refused
unless_refused-Passed p (true, q) next h k = Passed-trans p q (next q) h (k q)
unless_refused-Passed p (false, q) next h k = h

args_round-Passed :
    (o : Option (List ℕ × List ℕ)) (p : PeerHttp) (next : List ℕ → PeerHttp → Bool × PeerHttp)
    → ((rest : List ℕ) (q : PeerHttp) → Passed q (next rest q))
    → Passed p (args_round o p next)
args_round-Passed none p next h = Kept-refl p
args_round-Passed (some (arg, rest)) p next h =
    unless_refused-Passed p (handle_arg arg p) (λ q. next rest q) (handle_arg-Passed arg p)
      (λ q. h rest q)

args_from-Passed : (rounds : ℕ) (args : List ℕ) (p : PeerHttp) → Passed p (args_from rounds args p)
unfolding args_from
args_from-Passed zero args p = Kept-refl p
args_from-Passed (suc rounds) args p =
    args_round-Passed (get_arg args) p (λ rest q. args_from rounds rest q)
      (λ rest q. args_from-Passed rounds rest q)

pub process_request_arg-Passed :
    (args : List ℕ) (p : PeerHttp) → Passed p (process_request_arg args p)
unfolding process_request_arg
process_request_arg-Passed args p = args_from-Passed (length (c_string args)) (c_string args) p
