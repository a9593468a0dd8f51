-- ===== src/CacheMgr/Extend.antt =====
-- src/cache.cpp: Cache_Mgr::append and prepend, which join the item's bytes and those of the entry in
-- a new item. The watch is added to the item that the caller passed, as the code does it.
use xixi.Prelude.{
  ℕ, ◌+◌, ◌%◌, ◌^◌, Bool, not, ◌&&◌, Option, none, some, List, ◌++◌, ◌==◌, if◌then◌else◌,
}
use xixi.CacheMgr.Items.{do_get, do_replace, do_release_reference, do_alloc}
use xixi.CacheMgr.State.{
  Item, Mgr, Reason, success, not_found, mismatch, out_of_memory, key_of, report, write, total_size,
}
use xixi.CacheMgr.Store.{admit, watch_item}
use xixi.Stats.{StatsCall}

-- The key, the joined bytes and the old extension, copied into the new item.
unfoldable pub fill : Mgr → ℕ → Item → Item → List ℕ → Mgr
fill m new_a it old_it value =
    write new_a
      (record (m.items new_a) {
        key = it.key;
        hash_value = it.hash_value;
        value = value;
        ext = old_it.ext;
      })
      m

-- The end of `append`: the new item replaces the old one if the watch test passed.
unfoldable pub append_link : Reason × Mgr → ℕ → ℕ → ℕ → ℕ → ℕ → Reason × ℕ × Mgr
append_link (success, m) old new_a a watch_id cache_id =
    let m' = watch_item (do_replace m old new_a) a watch_id in
    (success, (m'.items new_a).cache_id, do_release_reference (do_release_reference m' new_a) old)
append_link (reason, m) old new_a a watch_id cache_id =
    (reason, cache_id, do_release_reference (do_release_reference m new_a) old)

-- The end of `prepend`, where the watch is added first.
unfoldable pub prepend_link : Reason × Mgr → ℕ → ℕ → ℕ → ℕ → ℕ → Reason × ℕ × Mgr
prepend_link (success, m) old new_a a watch_id cache_id =
    let m' = do_replace (watch_item m a watch_id) old new_a in
    (success, (m'.items new_a).cache_id, do_release_reference (do_release_reference m' new_a) old)
prepend_link (reason, m) old new_a a watch_id cache_id =
    (reason, cache_id, do_release_reference (do_release_reference m new_a) old)

-- `it->cache_id != 0 && it->cache_id != old_it->cache_id`
abbrev disagrees : ℕ → ℕ → Bool
disagrees wanted actual = not (wanted == 0) && not (wanted == actual)

-- The allocation that both make, with the old item's flags, deadline and extension size.
unfoldable pub alloc_joined : Mgr → Item → Item → Option ℕ × Mgr
alloc_joined m it old_it =
    do_alloc m it.group_id it.key_length old_it.flags old_it.expire_time
      ((it.data_size + old_it.data_size) % 2 ^ 32) old_it.ext_size

unfoldable pub append_into : Item → Item → ℕ → ℕ → ℕ → ℕ → Option ℕ × Mgr → Reason × ℕ × Mgr
append_into it old_it old a watch_id cache_id (none, m) = (
  out_of_memory,
  cache_id,
  do_release_reference (report (StatsCall.append_out_of_memory it.group_id it.class_id) m) old,
)
append_into it old_it old a watch_id cache_id (some new_a, m) =
    append_link
      (admit (fill m new_a it old_it (old_it.value ++ it.value)) watch_id
        (StatsCall.append_success old_it.group_id old_it.class_id (total_size m it))
        (StatsCall.append_success_watch it.group_id it.class_id (total_size m it))
        (StatsCall.append_watch_miss it.group_id it.class_id))
      old new_a a watch_id cache_id

-- A mismatch keeps the reference that `do_get` took.
unfoldable pub append_found : Item → ℕ → ℕ → ℕ → Option ℕ × Mgr → Reason × ℕ × Mgr
append_found it a watch_id cache_id (none, m) =
    (not_found, cache_id, report (StatsCall.append_miss it.group_id) m)
append_found it a watch_id cache_id (some old, m) =
    let old_it = m.items old in
    if disagrees it.cache_id old_it.cache_id
    then (mismatch, cache_id, report (StatsCall.append_mismatch it.group_id it.class_id) m)
    else append_into it old_it old a watch_id cache_id (alloc_joined m it old_it)

unfoldable pub append : Mgr → ℕ → ℕ → ℕ → Reason × ℕ × Mgr
append m a watch_id cache_id =
    append_found (m.items a) a watch_id cache_id (do_get m (key_of (m.items a)))

unfoldable pub prepend_into : Item → Item → ℕ → ℕ → ℕ → ℕ → Option ℕ × Mgr → Reason × ℕ × Mgr
prepend_into it old_it old a watch_id cache_id (none, m) = (
  out_of_memory,
  cache_id,
  do_release_reference (report (StatsCall.prepend_out_of_memory it.group_id it.class_id) m) old,
)
prepend_into it old_it old a watch_id cache_id (some new_a, m) =
    prepend_link
      (admit (fill m new_a it old_it (it.value ++ old_it.value)) watch_id
        (StatsCall.prepend_success old_it.group_id old_it.class_id (total_size m it))
        (StatsCall.prepend_success_watch it.group_id it.class_id (total_size m it))
        (StatsCall.prepend_watch_miss it.group_id it.class_id))
      old new_a a watch_id cache_id

unfoldable pub prepend_found : Item → ℕ → ℕ → ℕ → Option ℕ × Mgr → Reason × ℕ × Mgr
prepend_found it a watch_id cache_id (none, m) =
    (not_found, cache_id, report (StatsCall.prepend_miss it.group_id) m)
prepend_found it a watch_id cache_id (some old, m) =
    let old_it = m.items old in
    if disagrees it.cache_id old_it.cache_id
    then (mismatch, cache_id, report (StatsCall.prepend_mismatch it.group_id it.class_id) m)
    else prepend_into it old_it old a watch_id cache_id (alloc_joined m it old_it)

unfoldable pub prepend : Mgr → ℕ → ℕ → ℕ → Reason × ℕ × Mgr
prepend m a watch_id cache_id =
    prepend_found (m.items a) a watch_id cache_id (do_get m (key_of (m.items a)))
