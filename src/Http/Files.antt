-- ===== src/Http/Files.antt =====
-- src/peer_http.cpp: `get_cache_item` and `get_welcome_file`, which find the item of a key in the cache, or
-- load it from a file.
use xixi.Prelude.{
  ℕ, ◌+◌, ◌-◌, Bool, true, false, Option, none, some, List, [], ◌∷◌, ◌++◌, leb, ◌==◌, if◌then◌else◌,
  length, take, bytes_eq, codes,
}
use xixi.CacheMgr.Access.{get, get_touch}
use xixi.CacheMgr.Files.{load_from_file}
use xixi.CacheMgr.State.{Key, Mgr, Reason, success, not_found}
use xixi.Http.Replies.{reason_code, moved_permanently}
use xixi.Http.State.{Env, PeerHttp, PathKind, missing, directory, file, fails, prepare_buf}
use xixi.Util.Text.{c_string, get_suffix}

-- `Settings::get_mime_type`; none for NULL.
unfoldable pub find_mime : List ℕ → List (List ℕ × List ℕ) → Option (List ℕ)
unfolding bytes_eq
find_mime ext [] = none
find_mime ext ((e, mime_type) ∷ entries) =
    let rest = find_mime ext entries in if bytes_eq e ext then some mime_type else rest

-- The item, the reason, the seconds that are left to it, and the session.
abbrev pub Got : Type 0
Got = Option ℕ × ℕ × ℕ × PeerHttp

-- The bytes of the key.
abbrev pub key_bytes : PeerHttp → List ℕ
key_bytes p = take p.key_length p.key

abbrev pub key_of : PeerHttp → Key
key_of p = record { group_id = p.group_id; bytes = key_bytes p }

abbrev pub touched : PeerHttp → Option ℕ × Reason × Mgr → Got
touched p (it, reason, m) = (it, reason_code reason, p.expiration, record p { mgr = m })

abbrev pub got : PeerHttp → Option ℕ × ℕ × Reason × Mgr → Got
got p (it, expiration, reason, m) = (it, reason_code reason, expiration, record p { mgr = m })

-- `get_touch` or `get` of the cache.
unfoldable pub look_up : Bool → List ℕ → PeerHttp → Got
unfolding get get_touch
look_up is_base bytes p =
    let k : Key = record { group_id = p.group_id; bytes = bytes } in
    if p.touch_flag
    then touched p (get_touch p.mgr k p.watch_id p.expiration)
    else got p (get p.mgr k p.watch_id is_base 0)

abbrev of_suffix : Option (List ℕ) → List ℕ
of_suffix none = []
of_suffix (some suffix) = suffix

abbrev mime_or_empty : Option (List ℕ) → List ℕ
mime_or_empty none = []
mime_or_empty (some mime_type) = mime_type

-- `home_dir + "webapps" + key`
unfoldable pub filename : Env → List ℕ → List ℕ
unfolding c_string
filename env key = env.settings.home_dir ++ codes "webapps" ++ c_string key

abbrev loaded : PeerHttp → ℕ → Option ℕ × Reason × Mgr → Got
loaded p expiration (it, reason, m) = (it, reason_code reason, expiration, record p { mgr = m })

-- The call of `load_from_file`, whose file is named by the memory at `key`, with the time that an item stays.
unfoldable pub load : Env → List ℕ → List ℕ → PeerHttp → Got
unfolding load_from_file find_mime get_suffix filename
load env key bytes p =
    let expiration = if p.touch_flag then p.expiration else env.settings.default_cache_expiration in
    loaded p expiration (
      load_from_file env.hash32 (env.file_bytes (filename env key))
        (mime_or_empty (find_mime (of_suffix (get_suffix bytes)) env.settings.ext_mime_map)) p.mgr
        (record { group_id = p.group_id; bytes = bytes }) p.watch_id expiration)

-- A name that no file has is passed over.
abbrev pub unless_missing : Got → (PeerHttp → Got) → Got
unless_missing (it, reason, expiration, p) next =
    if reason == reason_code not_found then next p else (it, reason, expiration, p)

abbrev pub welcome_found : Env → List ℕ → Got → (PeerHttp → Got) → Got
welcome_found env bytes (some a, reason, expiration, p) next =
    (some a, reason_code success, expiration, p)
welcome_found env bytes (none, reason, expiration, p) next =
    unless_missing (load env bytes bytes p) next

abbrev pub with_room : Option (ℕ × ℕ) × PeerHttp → (PeerHttp → Got) → Got
with_room (none, p) next = (none, reason_code not_found, 0, record p { crashed = true })
with_room (some at, p) next = next p

-- The loop of `get_welcome_file`. The reference parameter `expiration` matters only where there is an item.
unfoldable pub welcome_from : Env → Bool → List (List ℕ) → PeerHttp → Got
unfolding prepare_buf look_up load take
welcome_from env is_base [] p = (none, reason_code not_found, 0, p)
welcome_from env is_base (welcome ∷ others) p =
    let bytes = key_bytes p ++ welcome in
    with_room (prepare_buf (length bytes + 1) p) (λ q.
      welcome_found env bytes (look_up is_base bytes q) (λ r. welcome_from env is_base others r))

-- The count of the elements below the start, after one more of them; none where it leaves the start.
abbrev pub count_by : (is_parent is_self : Bool) → ℕ → Option ℕ
count_by true is_self path_count = if leb path_count 1 then none else some (path_count - 1)
count_by false true path_count = some path_count
count_by false false path_count = some (path_count + 1)

unfoldable pub next_count : ℕ → List ℕ → Option ℕ
unfolding bytes_eq
next_count path_count element =
    count_by (bytes_eq element (codes "..")) (bytes_eq element (codes ".")) path_count

abbrev pub while_below : Option ℕ → (ℕ → Bool) → Bool
while_below none next = false
while_below (some path_count) next = next path_count

-- The loop over the elements of the path: false where it leaves the directory that it starts in.
unfoldable pub stays_below : ℕ → List (List ℕ) → Bool
unfolding next_count
stays_below path_count [] = true
stays_below path_count (element ∷ elements) =
    while_below (next_count path_count element) (λ n. stays_below n elements)

abbrev pub is_last : ℕ → List ℕ → Bool
is_last c [] = false
is_last c (x ∷ []) = x == c
is_last c (x ∷ y ∷ text) = is_last c (y ∷ text)

-- What stands at the path decides.
unfoldable pub from_path : Env → Bool → ℕ → ℕ → PathKind → PeerHttp → Got
unfolding welcome_from load take
from_path env is_base reason expiration missing p = (none, reason_code not_found, expiration, p)
from_path env is_base reason expiration fails p = (none, reason_code not_found, expiration, p)
from_path env is_base reason expiration directory p =
    if is_last b'/' (key_bytes p)
    then welcome_from env is_base env.settings.welcome_file_list p
    else (none, moved_permanently, expiration, p)
from_path env is_base reason expiration file p = load env p.key (key_bytes p) p

abbrev pub starts_with_slash : List ℕ → Bool
starts_with_slash [] = false
starts_with_slash (c ∷ text) = c == b'/'

-- An item that the cache does not have is looked for in the files.
unfoldable pub or_file : Env → Bool → Got → Got
unfolding stays_below from_path filename c_string take
or_file env is_base (some a, reason, expiration, p) = (some a, reason, expiration, p)
or_file env is_base (none, reason, expiration, p) =
    if starts_with_slash (key_bytes p)
    then if stays_below 0 (env.path_elements (c_string p.key))
      then from_path env is_base reason expiration (env.path_kind (filename env p.key)) p
      else (none, reason_code not_found, expiration, p)
    else (none, reason, expiration, p)

unfoldable pub get_cache_item : Env → Bool → PeerHttp → Got
unfolding or_file look_up take
get_cache_item env is_base p = or_file env is_base (look_up is_base (key_bytes p) p)
