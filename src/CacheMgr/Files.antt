-- ===== src/CacheMgr/Files.antt =====
-- src/cache.cpp: Cache_Mgr::load_from_file.
use xixi.Prelude.{ℕ, ◌%◌, ◌^◌, Bool, true, false, Option, none, some, List, length, take}
use xixi.CacheMgr.Access.{alloc_item, item_size_ok}
use xixi.CacheMgr.Items.{do_get, do_link, do_release_reference}
use xixi.CacheMgr.State.{
  Key, Item, Mgr, Reason, success, not_found, too_large, out_of_memory, total_size, write,
}
use xixi.CacheMgr.Store.{admit, watch_item}
use xixi.Stats.{StatsCall}

-- The answer of the watch test: the item is linked, or given back.
unfoldable pub link_loaded : Reason × Mgr → ℕ → ℕ → Option ℕ × Reason × Mgr
unfolding watch_item do_link do_release_reference
link_loaded (success, m) a watch_id = (some a, success, do_link (watch_item m a watch_id) a)
link_loaded (reason, m) a watch_id = (none, reason, do_release_reference m a)

-- An item that another request linked meanwhile takes the place of the loaded one.
unfoldable pub loaded_found : Mgr → Item → ℕ → ℕ → Option ℕ × Mgr → Option ℕ × Reason × Mgr
unfolding admit total_size link_loaded do_release_reference
loaded_found m it a watch_id (none, m') =
    link_loaded
      (admit m' watch_id (StatsCall.add_success it.group_id it.class_id (total_size m it))
        (StatsCall.add_success_watch it.group_id it.class_id (total_size m it))
        (StatsCall.add_watch_miss it.group_id it.class_id))
      a watch_id
loaded_found m it a watch_id (some old, m') = (some old, success, do_release_reference m' a)

abbrev size_reason : Bool × Mgr → Option ℕ × Reason × Mgr
size_reason (true, m) = (none, out_of_memory, m)
size_reason (false, m) = (none, too_large, m)

-- An item with the key, the bytes and the type of the file. The bytes follow as much of the key as the item's 16-bit length
-- tells, so a longer key is cut.
unfoldable pub loaded_into :
    (List ℕ → ℕ → ℕ) → Key → List ℕ → List ℕ → ℕ → Option ℕ × Mgr → Option ℕ × Reason × Mgr
unfolding item_size_ok loaded_found do_get
loaded_into hash32 k bytes mime_type watch_id (none, m) =
    size_reason (item_size_ok m (length k.bytes) (length bytes % 2 ^ 32) (length mime_type))
loaded_into hash32 k bytes mime_type watch_id (some a, m) =
    let key : List ℕ = take (m.items a).key_length k.bytes in
    let it = record (m.items a) {
      key = key;
      value = take (length bytes % 2 ^ 32) bytes;
      ext = mime_type;
      hash_value = hash32 key k.group_id;
    } in
    let m' = write a it m in loaded_found m' it a watch_id (do_get m' k)

-- `file` holds what `fopen` and `fread` find, none for NULL, and `mime_type` the type of the key's suffix, empty
-- where the settings have none.
unfoldable pub load_from_file :
    (List ℕ → ℕ → ℕ) → Option (List ℕ) → List ℕ → Mgr → Key → ℕ → ℕ → Option ℕ × Reason × Mgr
unfolding loaded_into alloc_item
load_from_file hash32 none mime_type m k watch_id expiration = (none, not_found, m)
load_from_file hash32 (some bytes) mime_type m k watch_id expiration =
    loaded_into hash32 k bytes mime_type watch_id (
      alloc_item m k.group_id (length k.bytes) 0 expiration (length bytes % 2 ^ 32)
        (length mime_type))
