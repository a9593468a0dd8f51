-- ===== src/CacheMgr/Sweep.antt =====
-- src/cache.cpp: Cache_Mgr::flush, expire_items, expire_watchs, free_flushed_items and check_expired.
-- Each loop takes an item's successor before it unlinks the item, so it runs over the list as it was.
use xixi.Prelude.{
  ℕ, zero, suc, ◌+◌, ◌-◌, ◌%◌, ◌^◌, Option, none, some, List, [], ◌∷◌, leb, ◌==◌, if◌then◌else◌,
  update, erase,
}
use xixi.CacheMgr.Expirations.{expiration_time}
use xixi.CacheMgr.Items.{do_unlink, do_release_reference}
use xixi.CacheMgr.State.{Mgr, report, write, total_size, expired, flushed}
use xixi.CurrTime.{realtime}
use xixi.Stats.{StatsCall}
use xixi.Watch
use xixi.Watch.{Watch}

-- `for (int j = i; j >= 0; j--)`: the first list whose time the remaining life reaches.
unfoldable pub slot_down : ℕ → ℕ → Option ℕ
slot_down zero expiration = if leb (expiration_time 0) expiration then some 0 else none
slot_down (suc j) expiration =
    let rest = slot_down j expiration in
    if leb (expiration_time (suc j)) expiration then some (suc j) else rest

-- The item leaves list `i` and comes first in list `j`.
unfoldable pub shift_item : Mgr → ℕ → ℕ → ℕ → Mgr
shift_item m i j a =
    let taken = update m.expire_list i (erase a (m.expire_list i)) in
    write a (record (m.items a) { expiration_id = j })
      (record m { expire_list = update taken j (a ∷ taken j) })

-- One round of the loop over list `i`.
unfoldable pub sweep_item : Mgr → ℕ → ℕ → ℕ → Mgr
sweep_item m i curr_time a =
    if leb (m.items a).expire_time curr_time
    then do_unlink m a expired
    else (elim (slot_down i ((m.items a).expire_time - curr_time)) [
      | none ↦ m
      | some j ↦ shift_item m i j a
    ])

unfoldable pub sweep_list : Mgr → ℕ → ℕ → List ℕ → Mgr
sweep_list m i curr_time [] = m
sweep_list m i curr_time (a ∷ l) = sweep_list (sweep_item m i curr_time a) i curr_time l

-- List `i`, if its time has come.
unfoldable pub sweep_slot : Mgr → ℕ → ℕ → Mgr
sweep_slot m i curr_time =
    if leb (m.expire_check_time i) curr_time
    then sweep_list
        (record m {
          expire_check_time = update m.expire_check_time i (realtime curr_time (expiration_time i));
        })
        i curr_time (m.expire_list i)
    else m

-- `for (int i = 0; i < 33; i++)`, with the rounds left.
unfoldable pub sweep_slots : ℕ → ℕ → ℕ → Mgr → Mgr
sweep_slots zero i curr_time m = m
sweep_slots (suc rounds) i curr_time m =
    sweep_slots rounds (i + 1) curr_time (sweep_slot m i curr_time)

unfoldable pub expire_items : Mgr → ℕ → Mgr
expire_items m curr_time = sweep_slots 33 0 curr_time m

unfoldable pub live_watches : ℕ → List (ℕ × Watch) → List (ℕ × Watch)
live_watches curr_time [] = []
live_watches curr_time ((id, w) ∷ l) =
    if Watch.is_expired w curr_time
    then live_watches curr_time l
    else (id, w) ∷ live_watches curr_time l

unfoldable pub expire_watchs : Mgr → ℕ → Mgr
expire_watchs m curr_time = record m { watch_map = live_watches curr_time m.watch_map }

unfoldable pub release_all : List ℕ → Mgr → Mgr
release_all [] m = m
release_all (a ∷ l) m =
    release_all l
      (do_release_reference (record m { flush_cache_list = erase a m.flush_cache_list }) a)

unfoldable pub free_flushed_items : Mgr → Mgr
free_flushed_items m = release_all m.flush_cache_list m

unfoldable pub check_expired : Mgr → Mgr
check_expired m =
    let now = m.current_time in
    if now == m.last_check_expired_time
    then m
    else free_flushed_items
        (expire_items (expire_watchs (record m { last_check_expired_time = now }) now) now)

-- The state with the count and the size of what was flushed so far.
unfoldable pub flush_list : ℕ → List ℕ → Mgr × ℕ × ℕ → Mgr × ℕ × ℕ
flush_list group_id [] s = s
flush_list group_id (a ∷ l) (m, count, size) = flush_list group_id l (
    if (m.items a).group_id == group_id
    then (do_unlink m a flushed, (count + 1) % 2 ^ 32, (size + total_size m (m.items a)) % 2 ^ 64)
    else (m, count, size))

-- `for (int i = 0; i < 34; i++)`, with the rounds left.
unfoldable pub flush_slots : ℕ → ℕ → ℕ → Mgr × ℕ × ℕ → Mgr × ℕ × ℕ
flush_slots zero i group_id s = s
flush_slots (suc rounds) i group_id s =
    flush_slots rounds (i + 1) group_id (flush_list group_id (s.0.expire_list i) s)

-- The state, `flush_count` and `flush_size`.
unfoldable pub flush : Mgr → ℕ → Mgr × ℕ × ℕ
flush m group_id =
    let (m', count, size) = flush_slots 34 0 group_id (m, 0, 0) in
    (report (StatsCall.flush group_id) m', count, size)
