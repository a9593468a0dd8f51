-- ===== src/CacheMgr/Access.antt =====
-- src/cache.cpp: Cache_Mgr::get, get_touch, update_flags, update_expiration, alloc_item,
-- release_reference and item_size_ok. `k` is the key that the arguments make up.
use xixi.Prelude.{
  ℕ, ◌+◌, ◌%◌, ◌^◌, Bool, true, false, not, ◌||◌, Option, none, some, ◌∷◌, ◌==◌, if◌then◌else◌,
  update, erase,
}
use xixi.CacheMgr.Classes.{get_class_id}
use xixi.CacheMgr.Expirations.{get_expiration_id}
use xixi.CacheMgr.Items.{
  is_valid_watch_id, add_watch, notify_watch, next_cache_id, do_get, do_get_fresh, do_get_touch,
  do_release_reference, do_alloc,
}
use xixi.CacheMgr.State.{
  Key, Mgr, Reason, success, not_found, watch_not_found, report, write, total_size,
  base_info_updated,
}
use xixi.CurrTime.{realtime}
use xixi.Stats.{StatsCall}

-- The end of `get`, for what `do_get` answered: the item, the remaining life, the reason.
unfoldable pub get_found : Key → ℕ → Bool → Option ℕ × ℕ × Mgr → Option ℕ × ℕ × Reason × Mgr
get_found k watch_id is_base (none, expiration, m) = (
  none,
  expiration,
  not_found,
  report (if is_base then StatsCall.get_base_miss k.group_id else StatsCall.get_miss k.group_id) m,
)
get_found k watch_id is_base (some a, expiration, m) =
    let it = m.items a in
    if watch_id == 0
    then (
      some a,
      expiration,
      success,
      report
          (if is_base
            then StatsCall.get_base_hit it.group_id it.class_id
            else StatsCall.get_hit_no_watch k.group_id it.class_id (total_size m it))
          m,
    )
    else if is_valid_watch_id m watch_id
    then (
      some a,
      expiration,
      success,
      report (StatsCall.get_hit_watch k.group_id it.class_id (total_size m it))
          (add_watch m a watch_id),
    )
    else (
      none,
      expiration,
      watch_not_found,
      do_release_reference (report (StatsCall.get_hit_watch_miss k.group_id it.class_id) m) a,
    )

unfoldable pub get : Mgr → Key → ℕ → Bool → ℕ → Option ℕ × ℕ × Reason × Mgr
get m k watch_id is_base expiration = get_found k watch_id is_base (do_get_fresh m k expiration)

unfoldable pub get_touch_found : Key → ℕ → Option ℕ × Mgr → Option ℕ × Reason × Mgr
get_touch_found k watch_id (none, m) =
    (none, not_found, report (StatsCall.get_touch_miss k.group_id) m)
get_touch_found k watch_id (some a, m) =
    let it = m.items a in
    if watch_id == 0
    then (
      some a,
      success,
      report (StatsCall.get_touch_hit_no_watch k.group_id it.class_id (total_size m it)) m,
    )
    else if is_valid_watch_id m watch_id
    then (
      some a,
      success,
      report (StatsCall.get_touch_hit_watch k.group_id it.class_id (total_size m it))
          (add_watch m a watch_id),
    )
    else (
      none,
      watch_not_found,
      do_release_reference (report (StatsCall.get_touch_hit_watch_miss k.group_id it.class_id) m) a,
    )

unfoldable pub get_touch : Mgr → Key → ℕ → ℕ → Option ℕ × Reason × Mgr
get_touch m k watch_id expiration = get_touch_found k watch_id (do_get_touch m k expiration)

-- What a successful `update_flags` does to the item before it gives the reference back.
unfoldable pub write_flags : Mgr → ℕ → ℕ → Mgr
write_flags m a flags =
    let m1 = notify_watch (write a (record (m.items a) { flags = flags }) m) a base_info_updated in
    let id = next_cache_id m1 in
    write a (record (m1.items a) { cache_id = id; last_update_time = m.current_time })
      (record m1 { last_cache_id = id })

-- `update_flags`: whether it succeeded, and the cache id returned. A mismatch keeps the reference
-- that `do_get` took.
unfoldable pub update_flags_found : Key → ℕ → ℕ → Option ℕ × Mgr → Bool × ℕ × Mgr
update_flags_found k cache_id flags (none, m) =
    (false, 0, report (StatsCall.update_flags_miss k.group_id) m)
update_flags_found k cache_id flags (some a, m) =
    let it = m.items a in
    if cache_id == 0 || cache_id == it.cache_id
    then (
      true,
      ((write_flags m a flags).items a).cache_id,
      do_release_reference
          (report (StatsCall.update_flags_success it.group_id it.class_id) (write_flags m a flags))
          a,
    )
    else (false, it.cache_id, report (StatsCall.update_flags_mismatch it.group_id it.class_id) m)

unfoldable pub update_flags : Mgr → Key → ℕ → ℕ → Bool × ℕ × Mgr
update_flags m k cache_id flags = update_flags_found k cache_id flags (do_get m k)

-- The item moves to the front of the list of its new deadline, unless it stands there already.
unfoldable pub move_item : Mgr → ℕ → ℕ → Mgr
move_item m a expire_time =
    let it = m.items a in
    let id = get_expiration_id m.current_time expire_time in
    let taken = update m.expire_list it.expiration_id (erase a (m.expire_list it.expiration_id)) in
    if id == it.expiration_id
    then write a (record it { expire_time = expire_time }) m
    else write a (record it { expiration_id = id % 2 ^ 8; expire_time = expire_time })
        (record m { expire_list = update taken id (a ∷ taken id) })

-- `update_expiration`; a mismatch returns the cache id -1, and keeps the reference too.
unfoldable pub update_expiration_found : Key → ℕ → ℕ → Option ℕ × Mgr → Bool × ℕ × Mgr
update_expiration_found k cache_id expiration (none, m) =
    (false, 0, report (StatsCall.update_expiration_miss k.group_id) m)
update_expiration_found k cache_id expiration (some a, m) =
    let it = m.items a in
    if cache_id == 0 || cache_id == it.cache_id
    then (
      true,
      it.cache_id,
      do_release_reference
          (report (StatsCall.update_expiration_success it.group_id it.class_id)
            (move_item m a (realtime m.current_time expiration)))
          a,
    )
    else (
      false,
      0xffff_ffff_ffff_ffff,
      report (StatsCall.update_expiration_mismatch it.group_id it.class_id) m,
    )

unfoldable pub update_expiration : Mgr → Key → ℕ → ℕ → Bool × ℕ × Mgr
update_expiration m k cache_id expiration =
    update_expiration_found k cache_id expiration (do_get m k)

unfoldable pub alloc_item : Mgr → ℕ → ℕ → ℕ → ℕ → ℕ → ℕ → Option ℕ × Mgr
alloc_item m group_id key_length flags expiration data_size ext_size =
    do_alloc m group_id key_length flags (realtime m.current_time expiration) data_size ext_size

unfoldable pub release_reference : Mgr → ℕ → Mgr
release_reference m a = do_release_reference m a

-- The test runs without the lock, and may change `last_class_id_`.
unfoldable pub item_size_ok : Mgr → ℕ → ℕ → ℕ → Bool × Mgr
item_size_ok m key_length data_size ext_size =
    let (id, last) =
      get_class_id m ((m.sizeof_item + key_length + data_size + ext_size) % 2 ^ 32) in
    (not (id == 0), record m { last_class_id = last })
