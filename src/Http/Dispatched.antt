-- ===== src/Http/Dispatched.antt =====
-- src/peer_http.cpp: `process_command` replies to every request, and waits for none: no URI leads to
-- `process_watch`, unless it has a 0 in it.
use mathlib.Core.Path.{subst}
use xixi.Prelude.{
  ℕ, zero, suc, ◌+◌, ◌-◌, ◌%◌, ◌^◌, ◌≡◌, refl, sym, ◌≢◌, inl, inr, Bool, true, false, Option, none,
  some, List, [], ◌∷◌, ◌++◌, arith, ◌==◌, if◌then◌else◌, length, All, take, drop, codes,
}
use xixi.Http.Answering.{Kept, Replies, Kept-refl, Replies-trans, write_error-Replies, Kept-trans}
use xixi.Http.ArgsKept.{Passed, branch, process_request_arg-Passed}
use xixi.Http.Args.{process_request_arg}
use xixi.Http.CommandReplies.{
  process_update-Replies, process_delete-Replies, process_delta-Replies,
  process_update_flags-Replies, process_touch-Replies, process_create_watch-Replies,
  process_flush-Replies, process_stats-Replies,
}
use xixi.Http.Commands.{process_update, process_create_watch}
use xixi.Http.Dispatch.{
  unknown, is_cmd, run_3, run_4, run_5, run_7, run_10, watch_literal, run_command, with_args,
  manager_command, is_manager, process_command,
}
use xixi.Http.GetReplies.{process_get-Replies, process_get_base-Replies}
use xixi.Http.Gets.{process_get}
use xixi.Http.Replies.{invalid_parameter}
use xixi.Http.State.{Env, PeerHttp}
use xixi.Http.WatchReplies.{Answers, process_watch-Answers}
use xixi.Http.Watching.{process_watch}
use xixi.Util.{starts_with}
use xixi.Util.Text.{strrchr}

unknown-Replies : (p : PeerHttp) → Replies p (unknown p)
unfolding unknown
unknown-Replies p = write_error-Replies p invalid_parameter p (Kept-refl p)

run_3-Replies : (env : Env) (cmd : List ℕ) (p : PeerHttp) → Replies p (run_3 env cmd p)
unfolding run_3
run_3-Replies env cmd p =
    branch (Replies p) (is_cmd cmd (codes "get")) (process_get-Replies env p) (
      branch (Replies p) (is_cmd cmd (codes "set")) (process_update-Replies env 0 p) (
        branch (Replies p) (is_cmd cmd (codes "add")) (process_update-Replies env 1 p) (
          branch (Replies p) (is_cmd cmd (codes "del")) (process_delete-Replies p)
            (unknown-Replies p))))

run_4-Replies : (cmd : List ℕ) (p : PeerHttp) → Replies p (run_4 cmd p)
unfolding run_4
run_4-Replies cmd p =
    branch (Replies p) (is_cmd cmd (codes "incr")) (process_delta-Replies true p) (
      branch (Replies p) (is_cmd cmd (codes "decr")) (process_delta-Replies false p)
        (unknown-Replies p))

run_5-Replies : (env : Env) (cmd : List ℕ) (p : PeerHttp) → Replies p (run_5 env cmd p)
unfolding run_5
run_5-Replies env cmd p =
    branch (Replies p) (is_cmd cmd (codes "flush")) (process_flush-Replies p) (
      branch (Replies p) (is_cmd cmd (codes "touch")) (process_touch-Replies p) (
        branch (Replies p) (is_cmd cmd (codes "flags")) (process_update_flags-Replies p) (
          branch (Replies p) (is_cmd cmd (codes "stats")) (process_stats-Replies env p)
            (unknown-Replies p))))

run_7-Replies : (env : Env) (cmd : List ℕ) (p : PeerHttp) → Replies p (run_7 env cmd p)
unfolding run_7
run_7-Replies env cmd p =
    branch (Replies p) (is_cmd cmd (codes "replace")) (process_update-Replies env 2 p) (
      branch (Replies p) (is_cmd cmd (codes "prepend")) (process_update-Replies env 4 p) (
        branch (Replies p) (is_cmd cmd (codes "getbase")) (process_get_base-Replies env p)
          (unknown-Replies p)))

-- Only the name of ten letters can lead to something else than a reply.
run_command_holds :
    (P : PeerHttp → Type 0) (env : Env) (cmd_length : ℕ) (cmd : List ℕ) (p : PeerHttp)
    → ((q : PeerHttp) → Replies p q → P q)
    → P (run_10 env cmd p)
    → P (run_command env cmd_length cmd p)
unfolding run_command
run_command_holds P env cmd_length cmd p ok watch =
    let no = ok (unknown p) (unknown-Replies p) in
    branch P (cmd_length == 3) (ok (run_3 env cmd p) (run_3-Replies env cmd p)) (
      branch P (cmd_length == 4) (ok (run_4 cmd p) (run_4-Replies cmd p)) (
        branch P (cmd_length == 5) (ok (run_5 env cmd p) (run_5-Replies env cmd p)) (
          branch P (cmd_length == 6)
            (branch P (is_cmd cmd (codes "append"))
              (ok (process_update env 3 p) (process_update-Replies env 3 p)) no)
            (branch P (cmd_length == 7) (ok (run_7 env cmd p) (run_7-Replies env cmd p)) (
              branch P (cmd_length == 10) watch (
                branch P (cmd_length == 11)
                  (branch P (is_cmd cmd (codes "createwatch"))
                    (ok (process_create_watch p) (process_create_watch-Replies p)) no)
                  no))))))

run_10-Answers : (env : Env) (cmd : List ℕ) (p : PeerHttp) → Answers p (run_10 env cmd p)
unfolding run_10
run_10-Answers env cmd p =
    branch (Answers p) (is_cmd cmd (watch_literal env)) (process_watch-Answers p)
      (inl (unknown-Replies p))

-- A text with no 0 in it.
abbrev pub HasNoZero : List ℕ → Type 0
HasNoZero text = All (λ c. c ≢ 0) text

no_zero_inside :
    (text sub behind : List ℕ) → HasNoZero text → starts_with text (sub ++ 0 ∷ behind) ≡ false
unfolding starts_with
no_zero_inside [] [] behind h = refl
no_zero_inside [] (s ∷ sub) behind h = refl
no_zero_inside (c ∷ text) [] behind (h, rest) = ground (arith, h)
no_zero_inside (c ∷ text) (s ∷ sub) behind (h, rest) =
    let later = no_zero_inside text sub behind rest in ground (arith, later)

run_10-Replies :
    (env : Env) (cmd : List ℕ) (p : PeerHttp) → HasNoZero cmd → Replies p (run_10 env cmd p)
unfolding run_10
run_10-Replies env cmd p h =
    subst (λ b. Replies p (if b then process_watch p else unknown p))
      (sym (no_zero_inside cmd (codes "watch") (take 4 env.behind_watch) h)) (unknown-Replies p)

run_command-Replies :
    (env : Env) (cmd_length : ℕ) (cmd : List ℕ) (p : PeerHttp)
    → HasNoZero cmd
    → Replies p (run_command env cmd_length cmd p)
run_command-Replies env cmd_length cmd p h =
    run_command_holds (Replies p) env cmd_length cmd p (λ q r. r) (run_10-Replies env cmd p h)

run_command-Answers :
    (env : Env) (cmd_length : ℕ) (cmd : List ℕ) (p : PeerHttp)
    → Answers p (run_command env cmd_length cmd p)
run_command-Answers env cmd_length cmd p =
    run_command_holds (Answers p) env cmd_length cmd p (λ q r. inl r) (run_10-Answers env cmd p)

pub Answers-trans : (p q r : PeerHttp) → Kept p q → Answers q r → Answers p r
Answers-trans p q r h (inl k) = inl (Replies-trans p q r h k)
Answers-trans p q r h (inr (k, wait)) = inr (Kept-trans p q r h k, wait)

with_args-Replies :
    (env : Env) (cmd_length : ℕ) (cmd : List ℕ) (p : PeerHttp) (r : Bool × PeerHttp)
    → HasNoZero cmd
    → Passed p r
    → Replies p (with_args env cmd_length cmd r)
with_args-Replies env cmd_length cmd p (false, q) h k = k
with_args-Replies env cmd_length cmd p (true, q) h k =
    Replies-trans p q (run_command env cmd_length cmd q) k
      (run_command-Replies env cmd_length cmd q h)

with_args-Answers :
    (env : Env) (cmd_length : ℕ) (cmd : List ℕ) (p : PeerHttp) (r : Bool × PeerHttp)
    → Passed p r
    → Answers p (with_args env cmd_length cmd r)
with_args-Answers env cmd_length cmd p (false, q) k = inl k
with_args-Answers env cmd_length cmd p (true, q) k =
    Answers-trans p q (run_command env cmd_length cmd q) k
      (run_command-Answers env cmd_length cmd q)

drop-HasNoZero : (n : ℕ) (text : List ℕ) → HasNoZero text → HasNoZero (drop n text)
unfolding drop
drop-HasNoZero zero text h = h
drop-HasNoZero (suc n) [] h = h
drop-HasNoZero (suc n) (c ∷ text) (h, rest) = drop-HasNoZero n text rest

manager_command-Replies :
    (env : Env) (o : Option ℕ) (p : PeerHttp)
    → HasNoZero p.http_request.uri
    → Replies p (manager_command env o p)
unfolding manager_command
manager_command-Replies env none p h =
    let base = env.settings.manager_base_url in
    run_command-Replies env (p.http_request.uri_length - length base)
      (drop (length base) p.http_request.uri) p (drop-HasNoZero (length base) p.http_request.uri h)
manager_command-Replies env (some i) p h =
    let base = env.settings.manager_base_url in
    let args = drop (i + 1) p.http_request.uri in
    with_args-Replies env ((i + 2 ^ 32 - length base) % 2 ^ 32)
      (drop (length base) p.http_request.uri) p (process_request_arg args p)
      (drop-HasNoZero (length base) p.http_request.uri h) (process_request_arg-Passed args p)

manager_command-Answers :
    (env : Env) (o : Option ℕ) (p : PeerHttp) → Answers p (manager_command env o p)
unfolding manager_command
manager_command-Answers env none p =
    let base = env.settings.manager_base_url in
    run_command-Answers env (p.http_request.uri_length - length base)
      (drop (length base) p.http_request.uri) p
manager_command-Answers env (some i) p =
    let base = env.settings.manager_base_url in
    let args = drop (i + 1) p.http_request.uri in
    with_args-Answers env ((i + 2 ^ 32 - length base) % 2 ^ 32)
      (drop (length base) p.http_request.uri) p (process_request_arg args p)
      (process_request_arg-Passed args p)

key_got-Replies :
    (env : Env) (p : PeerHttp)
    → Replies p (
        process_get env
          (record p { key = p.http_request.uri; key_length = p.http_request.uri_length }))
key_got-Replies env p =
    process_get-Replies env
      (record p { key = p.http_request.uri; key_length = p.http_request.uri_length })

pub process_command-Answers : (env : Env) (p : PeerHttp) → Answers p (process_command env p)
unfolding process_command
process_command-Answers env p =
    branch (Answers p) (is_manager env p)
      (manager_command-Answers env (strrchr b'?' p.http_request.uri) p)
      (inl (key_got-Replies env p))

-- Where no byte of the URI is 0, the request has its reply in line, or the session wrote through a null
-- pointer: no such request waits for a watch, "watch" included.
pub process_command-Replies :
    (env : Env) (p : PeerHttp) → HasNoZero p.http_request.uri → Replies p (process_command env p)
unfolding process_command
process_command-Replies env p h =
    branch (Replies p) (is_manager env p)
      (manager_command-Replies env (strrchr b'?' p.http_request.uri) p h) (key_got-Replies env p)
