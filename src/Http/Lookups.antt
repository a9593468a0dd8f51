-- ===== src/Http/Lookups.antt =====
-- src/peer_http.cpp: the lookups of an item keep the bytes that have come and the chunks in line.
use xixi.Prelude.{
  ℕ, ◌+◌, Bool, true, false, Option, none, some, List, [], ◌∷◌, ◌++◌, ◌==◌, if◌then◌else◌, length,
}
use xixi.CacheMgr.Access.{get, get_touch}
use xixi.CacheMgr.State.{Key}
use xixi.Http.Answering.{Kept, Kept-refl, Kept-trans, prepare_buf-Kept}
use xixi.Http.Files.{
  Got, touched, got, look_up, load, unless_missing, welcome_found, with_room, welcome_from,
  from_path, or_file, get_cache_item, key_bytes, stays_below, filename, starts_with_slash, is_last,
}
use xixi.Http.Replies.{reason_code, moved_permanently}
use xixi.Http.State.{Env, PeerHttp, PathKind, missing, directory, file, fails, prepare_buf}
use xixi.CacheMgr.State.{not_found}
use xixi.Util.Text.{c_string}

-- What a lookup does to the session.
abbrev pub GotKept : PeerHttp → Got → Type 0
GotKept p (it, reason, expiration, q) = Kept p q

either_got :
    (p : PeerHttp) (b : Bool) (r s : Got)
    → GotKept p r
    → GotKept p s
    → GotKept p (if b then r else s)
either_got p true r s h k = h
either_got p false r s h k = k

look_up-Kept :
    (is_base : Bool) (bytes : List ℕ) (p : PeerHttp) → GotKept p (look_up is_base bytes p)
unfolding look_up
look_up-Kept is_base bytes p =
    let k : Key = record { group_id = p.group_id; bytes = bytes } in
    either_got p p.touch_flag (touched p (get_touch p.mgr k p.watch_id p.expiration))
      (got p (get p.mgr k p.watch_id is_base 0)) (Kept-refl p) (Kept-refl p)

load-Kept : (env : Env) (key bytes : List ℕ) (p : PeerHttp) → GotKept p (load env key bytes p)
unfolding load
load-Kept env key bytes p = Kept-refl p

GotKept-trans : (p q : PeerHttp) (r : Got) → Kept p q → GotKept q r → GotKept p r
GotKept-trans p q (it, reason, expiration, r) h k = Kept-trans p q r h k

unless_missing-Kept :
    (p : PeerHttp) (r : Got) (next : PeerHttp → Got)
    → GotKept p r
    → ((q : PeerHttp) → GotKept q (next q))
    → GotKept p (unless_missing r next)
unless_missing-Kept p (it, reason, expiration, q) next h k =
    either_got p (reason == reason_code not_found) (next q) (it, reason, expiration, q)
      (GotKept-trans p q (next q) h (k q)) h

welcome_found-Kept :
    (env : Env) (bytes : List ℕ) (p : PeerHttp) (r : Got) (next : PeerHttp → Got)
    → GotKept p r
    → ((q : PeerHttp) → GotKept q (next q))
    → GotKept p (welcome_found env bytes r next)
welcome_found-Kept env bytes p (some a, reason, expiration, q) next h k = h
welcome_found-Kept env bytes p (none, reason, expiration, q) next h k =
    unless_missing-Kept p (load env bytes bytes q) next
      (GotKept-trans p q (load env bytes bytes q) h (load-Kept env bytes bytes q)) k

with_room-Kept :
    (p : PeerHttp) (r : Option (ℕ × ℕ) × PeerHttp) (next : PeerHttp → Got)
    → Kept p r.1
    → ((q : PeerHttp) → GotKept q (next q))
    → GotKept p (with_room r next)
with_room-Kept p (none, q) next h k = h
with_room-Kept p (some at, q) next h k = GotKept-trans p q (next q) h (k q)

welcome_from-Kept :
    (env : Env) (is_base : Bool) (welcomes : List (List ℕ)) (p : PeerHttp)
    → GotKept p (welcome_from env is_base welcomes p)
unfolding welcome_from
welcome_from-Kept env is_base [] p = Kept-refl p
welcome_from-Kept env is_base (welcome ∷ others) p =
    let bytes = key_bytes p ++ welcome in
    with_room-Kept p (prepare_buf (length bytes + 1) p)
      (λ q.
        welcome_found env bytes (look_up is_base bytes q) (λ r. welcome_from env is_base others r))
      (prepare_buf-Kept (length bytes + 1) p)
      (λ q.
        welcome_found-Kept env bytes q (look_up is_base bytes q)
          (λ r. welcome_from env is_base others r) (look_up-Kept is_base bytes q)
          (λ r. welcome_from-Kept env is_base others r))

from_path-Kept :
    (env : Env) (is_base : Bool) (reason expiration : ℕ) (kind : PathKind) (p : PeerHttp)
    → GotKept p (from_path env is_base reason expiration kind p)
unfolding from_path
from_path-Kept env is_base reason expiration missing p = Kept-refl p
from_path-Kept env is_base reason expiration fails p = Kept-refl p
from_path-Kept env is_base reason expiration directory p =
    either_got p (is_last b'/' (key_bytes p))
      (welcome_from env is_base env.settings.welcome_file_list p)
      (none, moved_permanently, expiration, p)
      (welcome_from-Kept env is_base env.settings.welcome_file_list p) (Kept-refl p)
from_path-Kept env is_base reason expiration file p = load-Kept env p.key (key_bytes p) p

or_file-Kept :
    (env : Env) (is_base : Bool) (p : PeerHttp) (r : Got)
    → GotKept p r
    → GotKept p (or_file env is_base r)
unfolding or_file
or_file-Kept env is_base p (some a, reason, expiration, q) h = h
or_file-Kept env is_base p (none, reason, expiration, q) h =
    let found = from_path env is_base reason expiration (env.path_kind (filename env q.key)) q in
    let out : Got = (none, reason_code not_found, expiration, q) in
    let inside = stays_below 0 (env.path_elements (c_string q.key)) in
    either_got p (starts_with_slash (key_bytes q)) (if inside then found else out)
      (none, reason, expiration, q)
      (either_got p inside found out
        (GotKept-trans p q found h
          (from_path-Kept env is_base reason expiration (env.path_kind (filename env q.key)) q))
        h)
      h

pub get_cache_item-Kept :
    (env : Env) (is_base : Bool) (p : PeerHttp) → GotKept p (get_cache_item env is_base p)
unfolding get_cache_item
get_cache_item-Kept env is_base p =
    or_file-Kept env is_base p (look_up is_base (key_bytes p) p)
      (look_up-Kept is_base (key_bytes p) p)
