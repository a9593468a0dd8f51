-- ===== src/CacheMgr/Store.antt =====
-- src/cache.cpp: Cache_Mgr::add, set, replace, append, prepend and remove. Each takes and returns the
-- reference parameter `cache_id`.
use xixi.Prelude.{ℕ, Bool, ◌||◌, Option, none, some, ◌==◌, if◌then◌else◌}
use xixi.CacheMgr.Items.{
  is_valid_watch_id, add_watch, do_get, do_link, do_unlink, do_replace, do_release_reference,
}
use xixi.CacheMgr.State.{
  Key, Item, Mgr, Reason, success, not_found, exists, mismatch, watch_not_found, key_of, report,
  total_size, deleted,
}
use xixi.Stats.{StatsCall}

-- The test of the watch id that the writing operations share, with the three reports of each.
unfoldable pub admit : Mgr → ℕ → StatsCall → StatsCall → StatsCall → Reason × Mgr
admit m watch_id plain watched missed =
    if watch_id == 0
    then (success, report plain m)
    else if is_valid_watch_id m watch_id
    then (success, report watched m)
    else (watch_not_found, report missed m)

-- `if (watch_id != 0) item->add_watch(watch_id)`
unfoldable pub watch_item : Mgr → ℕ → ℕ → Mgr
watch_item m a watch_id = if watch_id == 0 then m else add_watch m a watch_id

-- What `add` and `set` do for a key that is absent, `r` being the answer of the watch test.
unfoldable pub link_new : Reason × Mgr → ℕ → ℕ → ℕ → Reason × ℕ × Mgr
link_new (success, m) a watch_id cache_id =
    let m' = do_link (watch_item m a watch_id) a in (success, (m'.items a).cache_id, m')
link_new (reason, m) a watch_id cache_id = (reason, cache_id, m)

-- What `set` and `replace` do for a key that is there: the new watch is added after the old ones are
-- notified.
unfoldable pub link_over : Reason × Mgr → ℕ → ℕ → ℕ → ℕ → Reason × ℕ × Mgr
link_over (success, m) old a watch_id cache_id =
    let m' = watch_item (do_replace m old a) a watch_id in
    (success, (m'.items a).cache_id, do_release_reference m' old)
link_over (reason, m) old a watch_id cache_id = (reason, cache_id, do_release_reference m old)

-- `item->cache_id == 0 || item->cache_id == old_it->cache_id`
abbrev pub agrees : ℕ → ℕ → Bool
agrees wanted actual = wanted == 0 || wanted == actual

-- `add`, for what `do_get` answered; `it` is the item.
unfoldable pub add_found : Mgr → Item → ℕ → ℕ → ℕ → Option ℕ × Mgr → Reason × ℕ × Mgr
add_found m it a watch_id cache_id (none, m') =
    link_new
      (admit m' watch_id (StatsCall.add_success it.group_id it.class_id (total_size m it))
        (StatsCall.add_success_watch it.group_id it.class_id (total_size m it))
        (StatsCall.add_watch_miss it.group_id it.class_id))
      a watch_id cache_id
add_found m it a watch_id cache_id (some old, m') = (
  exists,
  cache_id,
  report (StatsCall.add_fail it.group_id it.class_id) (do_release_reference m' old),
)

unfoldable pub add : Mgr → ℕ → ℕ → ℕ → Reason × ℕ × Mgr
add m a watch_id cache_id =
    let it = m.items a in add_found m it a watch_id cache_id (do_get m (key_of it))

unfoldable pub set_found : Mgr → Item → ℕ → ℕ → ℕ → Option ℕ × Mgr → Reason × ℕ × Mgr
set_found m it a watch_id cache_id (none, m') =
    link_new
      (admit m' watch_id (StatsCall.set_success it.group_id it.class_id (total_size m it))
        (StatsCall.set_success_watch it.group_id it.class_id (total_size m it))
        (StatsCall.set_watch_miss it.group_id it.class_id))
      a watch_id cache_id
set_found m it a watch_id cache_id (some old, m') =
    if agrees it.cache_id (m'.items old).cache_id
    then link_over
        (admit m' watch_id (StatsCall.set_success it.group_id it.class_id (total_size m it))
          (StatsCall.set_success_watch it.group_id it.class_id (total_size m it))
          (StatsCall.set_watch_miss it.group_id it.class_id))
        old a watch_id cache_id
    else (
      mismatch,
      cache_id,
      do_release_reference (report (StatsCall.set_mismatch it.group_id it.class_id) m') old,
    )

unfoldable pub set : Mgr → ℕ → ℕ → ℕ → Reason × ℕ × Mgr
set m a watch_id cache_id =
    let it = m.items a in set_found m it a watch_id cache_id (do_get m (key_of it))

unfoldable pub replace_found : Mgr → Item → ℕ → ℕ → ℕ → Option ℕ × Mgr → Reason × ℕ × Mgr
replace_found m it a watch_id cache_id (none, m') =
    (not_found, cache_id, report (StatsCall.replace_miss it.group_id) m')
replace_found m it a watch_id cache_id (some old, m') =
    let old_it = m'.items old in
    if agrees it.cache_id old_it.cache_id
    then link_over
        (admit m' watch_id
          (StatsCall.replace_success old_it.group_id old_it.class_id (total_size m it))
          (StatsCall.replace_success_watch it.group_id it.class_id (total_size m it))
          (StatsCall.replace_watch_miss it.group_id it.class_id))
        old a watch_id cache_id
    else (
      mismatch,
      cache_id,
      do_release_reference (report (StatsCall.replace_mismatch it.group_id it.class_id) m') old,
    )

unfoldable pub replace : Mgr → ℕ → ℕ → ℕ → Reason × ℕ × Mgr
replace m a watch_id cache_id =
    let it = m.items a in replace_found m it a watch_id cache_id (do_get m (key_of it))

unfoldable pub remove_found : Key → ℕ → Option ℕ × Mgr → Reason × Mgr
remove_found k cache_id (none, m') = (not_found, report (StatsCall.delete_miss k.group_id) m')
remove_found k cache_id (some a, m') =
    let it = m'.items a in
    if agrees cache_id it.cache_id
    then (
      success,
      do_release_reference
          (do_unlink (report (StatsCall.delete_success k.group_id it.class_id) m') a deleted) a,
    )
    else (
      mismatch,
      do_release_reference (report (StatsCall.delete_mismatch k.group_id it.class_id) m') a,
    )

-- `Cache_Mgr::remove`, for the key that its arguments make up.
unfoldable pub remove : Mgr → Key → ℕ → Reason × Mgr
remove m k cache_id = remove_found k cache_id (do_get m k)
