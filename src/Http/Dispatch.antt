-- ===== src/Http/Dispatch.antt =====
-- src/peer_http.cpp: `process_command`, which finds the handler of a request by its URI.
use xixi.Prelude.{
  ℕ, ◌+◌, ◌-◌, ◌%◌, ◌^◌, Bool, true, false, not, ◌&&◌, Option, none, some, List, ◌∷◌, ◌++◌, ◌==◌,
  if◌then◌else◌, length, take, drop, codes,
}
use xixi.Http.Args.{process_request_arg}
use xixi.Http.Commands.{
  process_update, process_delete, process_delta, process_update_flags, process_touch,
  process_create_watch, process_flush, process_stats,
}
use xixi.Http.Gets.{process_get, process_get_base}
use xixi.Http.Replies.{write_error, invalid_parameter}
use xixi.Http.State.{Env, PeerHttp, head_method}
use xixi.Http.Watching.{process_watch}
use xixi.Util.{starts_with}
use xixi.Util.Text.{strrchr}

-- A name that is not known.
unfoldable pub unknown : PeerHttp → PeerHttp
unfolding write_error
unknown p = write_error invalid_parameter p

-- `memcmp(cmd, ..., cmd_length) == 0`
abbrev pub is_cmd : List ℕ → List ℕ → Bool
is_cmd cmd name = starts_with cmd name

-- The literal in the comparison of ten bytes, with its end and the memory behind it.
abbrev pub watch_literal : Env → List ℕ
watch_literal env = codes "watch" ++ 0 ∷ take 4 env.behind_watch

-- The handlers with a name of three letters, and so on.
unfoldable pub run_3 : Env → List ℕ → PeerHttp → PeerHttp
unfolding starts_with unknown process_get process_update process_delete
run_3 env cmd p =
    if is_cmd cmd (codes "get")
    then process_get env p
    else if is_cmd cmd (codes "set")
    then process_update env 0 p
    else if is_cmd cmd (codes "add")
    then process_update env 1 p
    else if is_cmd cmd (codes "del")
    then process_delete p
    else unknown p

unfoldable pub run_4 : List ℕ → PeerHttp → PeerHttp
unfolding starts_with unknown process_delta
run_4 cmd p =
    if is_cmd cmd (codes "incr")
    then process_delta true p
    else if is_cmd cmd (codes "decr")
    then process_delta false p
    else unknown p

unfoldable pub run_5 : Env → List ℕ → PeerHttp → PeerHttp
unfolding starts_with unknown process_flush process_touch process_update_flags process_stats
run_5 env cmd p =
    if is_cmd cmd (codes "flush")
    then process_flush p
    else if is_cmd cmd (codes "touch")
    then process_touch p
    else if is_cmd cmd (codes "flags")
    then process_update_flags p
    else if is_cmd cmd (codes "stats")
    then process_stats env p
    else unknown p

unfoldable pub run_7 : Env → List ℕ → PeerHttp → PeerHttp
unfolding starts_with unknown process_update process_get_base
run_7 env cmd p =
    if is_cmd cmd (codes "replace")
    then process_update env 2 p
    else if is_cmd cmd (codes "prepend")
    then process_update env 4 p
    else if is_cmd cmd (codes "getbase")
    then process_get_base env p
    else unknown p

unfoldable pub run_10 : Env → List ℕ → PeerHttp → PeerHttp
unfolding starts_with unknown process_watch take
run_10 env cmd p = if is_cmd cmd (watch_literal env) then process_watch p else unknown p

-- The handler, by the length of the name and then by the name.
unfoldable pub run_command : Env → ℕ → List ℕ → PeerHttp → PeerHttp
unfolding run_3 run_4 run_5 run_7 run_10 starts_with unknown process_update process_create_watch
run_command env cmd_length cmd p =
    if cmd_length == 3
    then run_3 env cmd p
    else if cmd_length == 4
    then run_4 cmd p
    else if cmd_length == 5
    then run_5 env cmd p
    else if cmd_length == 6
    then if is_cmd cmd (codes "append") then process_update env 3 p else unknown p
    else if cmd_length == 7
    then run_7 env cmd p
    else if cmd_length == 10
    then run_10 env cmd p
    else if cmd_length == 11
    then if is_cmd cmd (codes "createwatch") then process_create_watch p else unknown p
    else unknown p

abbrev pub with_args : Env → ℕ → List ℕ → Bool × PeerHttp → PeerHttp
with_args env cmd_length cmd (false, p) = p
with_args env cmd_length cmd (true, p) = run_command env cmd_length cmd p

-- `cmd_length` is unsigned; the arguments start behind the last question mark.
unfoldable pub manager_command : Env → Option ℕ → PeerHttp → PeerHttp
unfolding run_command process_request_arg drop
manager_command env none p =
    let base = env.settings.manager_base_url in
    run_command env (p.http_request.uri_length - length base)
      (drop (length base) p.http_request.uri) p
manager_command env (some i) p =
    let base = env.settings.manager_base_url in
    with_args env ((i + 2 ^ 32 - length base) % 2 ^ 32) (drop (length base) p.http_request.uri)
      (process_request_arg (drop (i + 1) p.http_request.uri) p)

abbrev pub is_manager : Env → PeerHttp → Bool
is_manager env p =
    not (p.http_request.method == head_method)
    && starts_with p.http_request.uri env.settings.manager_base_url

unfoldable pub process_command : Env → PeerHttp → PeerHttp
unfolding manager_command strrchr process_get starts_with
process_command env p =
    if is_manager env p
    then manager_command env (strrchr b'?' p.http_request.uri) p
    else process_get env
        (record p { key = p.http_request.uri; key_length = p.http_request.uri_length })
