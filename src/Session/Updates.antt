-- ===== src/Session/Updates.antt =====
-- src/peer_cache.cpp: the two handlers of Peer_Cache for an update request, before and after the bytes
-- of its item have come.
use xixi.Prelude.{
  ℕ, ◌+◌, ◌%◌, ◌^◌, Bool, true, Option, none, some, List, [], ◌++◌, ◌==◌, if◌then◌else◌, take, drop,
}
use xixi.CacheMgr.Access.{alloc_item, item_size_ok, release_reference}
use xixi.CacheMgr.Extend.{append, prepend}
use xixi.CacheMgr.State.{Mgr, Reason, too_large, out_of_memory, write}
use xixi.CacheMgr.Store.{set, add, replace}
use xixi.Pdu.Response.{update_res}
use xixi.Session.Peer.{
  Env, Peer, read_body_extras, reason_code, unknown_command, write_res, finish, skip, write_error,
}
use xixi.Session.Requests.{is_reply}

-- No item: the bytes of the request are skipped behind the answer.
unfoldable pub refuse : ℕ → Peer → Bool × Mgr → Peer
unfolding write_error
refuse data_len p (size_ok, m) =
    let p' = record p { mgr = m; cache_item = none } in
    if size_ok
    then write_error (reason_code out_of_memory) data_len is_reply p'
    else write_error (reason_code too_large) data_len is_reply p'

-- Bytes written into the item of the request, behind those that are there. Its key and its data are the
-- bytes that have come.
unfoldable pub copied : List ℕ → Peer → Option ℕ → Peer
copied bytes p none = record p { crashed = true }
copied bytes p (some a) =
    let it = p.mgr.items a in
    let all = p.item_bytes ++ bytes in
    record p {
      item_bytes = all;
      mgr =
          write a (record it { key = take it.key_length all; value = drop it.key_length all })
            p.mgr;
    }

-- With an item, of which no byte has come yet, its bytes are read next.
unfoldable pub allocated : ℕ → ℕ → ℕ → Peer → Option ℕ × Mgr → Peer
unfolding refuse item_size_ok copied
allocated key_length data_length data_len p (none, m) =
    refuse data_len p (item_size_ok m key_length data_length 0)
allocated key_length data_length data_len p (some a, m) =
    copied []
      (record p {
        mgr = m;
        cache_item = some a;
        item_bytes = [];
        next_data_len = data_len;
        state = read_body_extras;
      })
      (some a)

unfoldable pub process_update_req_pdu_fixed : ℕ → ℕ → ℕ → ℕ → ℕ → Peer → Peer
unfolding allocated alloc_item
process_update_req_pdu_fixed group_id flags expiration key_length data_length p =
    allocated key_length data_length ((key_length + data_length) % 2 ^ 32) p
      (alloc_item p.mgr group_id key_length flags expiration data_length 0)

-- Bytes that come in through `read_item_buf_`: the key first, the data behind it.
unfoldable pub receive_item : List ℕ → Peer → Peer
unfolding copied
receive_item bytes p = copied bytes p p.cache_item

abbrev coded : Reason × ℕ × Mgr → ℕ × ℕ × Mgr
coded (reason, cache_id, m) = (reason_code reason, cache_id, m)

-- The switch on `sub_op`, the lowest three bits.
unfoldable pub update_by : ℕ → Mgr → ℕ → ℕ → ℕ × ℕ × Mgr
unfolding set add replace append prepend
update_by op_flag m a watch_id =
    let sub_op = op_flag % 8 in
    if sub_op == 0
    then coded (set m a watch_id 0)
    else if sub_op == 1
    then coded (add m a watch_id 0)
    else if sub_op == 2
    then coded (replace m a watch_id 0)
    else if sub_op == 3
    then coded (append m a watch_id 0)
    else if sub_op == 4
    then coded (prepend m a watch_id 0)
    else (unknown_command, 0, m)

unfoldable pub answer_update : Peer → ℕ × ℕ × Mgr → Peer
unfolding write_res write_error
answer_update p (reason, cache_id, m) =
    let p' = record p { mgr = m } in
    if is_reply
    then if reason == 0
      then finish (write_res (update_res cache_id) p')
      else write_error reason 0 true p'
    else skip p'

-- The reference of the session goes back.
unfoldable pub release_item : ℕ → Peer → Peer
unfolding release_reference
release_item a p = record p { mgr = release_reference p.mgr a; cache_item = none }

-- The item of the request, complete now, goes to the cache.
unfoldable pub store_item : Env → ℕ → ℕ → ℕ → Peer → Option ℕ → Peer
unfolding update_by answer_update release_item
store_item env op_flag cache_id watch_id p none = record p { crashed = true }
store_item env op_flag cache_id watch_id p (some a) =
    let it = p.mgr.items a in
    let ready =
      write a (record it { hash_value = env.hash32 it.key it.group_id; cache_id = cache_id })
        p.mgr in
    release_item a (answer_update p (update_by op_flag ready a watch_id))

unfoldable pub process_update_req_pdu_extras : Env → ℕ → ℕ → ℕ → Peer → Peer
unfolding store_item
process_update_req_pdu_extras env op_flag cache_id watch_id p =
    store_item env op_flag cache_id watch_id p p.cache_item
