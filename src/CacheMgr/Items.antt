-- ===== src/CacheMgr/Items.antt =====
-- src/cache.cpp: the private operations of Cache_Mgr on items, which run with the lock held. The
-- asserts, which compile away in a release build, are not part of them.
use xixi.Prelude.{
  ℕ, ◌+◌, ◌-◌, ◌%◌, ◌^◌, Bool, true, false, Option, none, some, List, [], ◌∷◌, ◌++◌, ltb, leb, ◌==◌,
  if◌then◌else◌, update, length, erase,
}
use xixi.CacheMgr.Classes.{get_class_id}
use xixi.CacheMgr.Expirations.{get_expiration_id}
use xixi.CurrTime.{realtime}
use xixi.CacheMgr.State.{
  data_updated, expired, Key, Item, Mgr, reset, blank, key_of, write, total_size, find, insert,
  remove,
}
use xixi.Stats.{StatsCall}
use xixi.Watch
use xixi.Watch.{Watch}

-- `watch_map_.find`
unfoldable pub find_watch : ℕ → List (ℕ × Watch) → Option Watch
find_watch id [] = none
find_watch id ((i, w) ∷ l) = if i == id then some w else find_watch id l

unfoldable pub put_watch : ℕ → Watch → List (ℕ × Watch) → List (ℕ × Watch)
put_watch id w [] = (id, w) ∷ []
put_watch id w ((i, v) ∷ l) = if i == id then (i, w) ∷ l else (i, v) ∷ put_watch id w l

unfoldable pub is_valid_watch_id : Mgr → ℕ → Bool
unfolding find_watch
is_valid_watch_id m watch_id = elim (find_watch watch_id m.watch_map) [
  | none ↦ false
  | some w ↦ true
]

-- The loop of `notify_watch` over the ids of one item. The ids with no watch leave the set.
unfoldable pub notify_ids :
    (ℕ → Bool) → ℕ → ℕ → List ℕ → List (ℕ × Watch) → List ℕ × List (ℕ × Watch) × List (ℕ × ℕ)
unfolding find_watch put_watch
notify_ids live cache_id type [] watches = ([], watches, [])
notify_ids live cache_id type (id ∷ ids) watches = elim (find_watch id watches) [
  | none ↦ notify_ids live cache_id type ids watches
  | some w ↦
      let (w', calls) = Watch.notify_watch live w cache_id type in
      let (ids', watches', calls') = notify_ids live cache_id type ids (put_watch id w' watches) in
      (id ∷ ids', watches', calls ++ calls')
]

-- The three parts of the state that a notification changes. With no set there is nothing to do.
unfoldable pub notify_watch : Mgr → ℕ → ℕ → Mgr
unfolding notify_ids
notify_watch m a type = elim (m.items a).watch_item [
  | none ↦ m
  | some ids ↦
      let (ids', watches', calls) = notify_ids m.live (m.items a).cache_id type ids m.watch_map in
      record m {
        items = update m.items a (record (m.items a) { watch_item = some ids' });
        watch_map = watches';
        sink_calls = m.sink_calls ++ calls;
      }
]

-- `std::set::insert`: the ids stand in ascending order, each once.
unfoldable pub insert_id : ℕ → List ℕ → List ℕ
insert_id id [] = id ∷ []
insert_id id (x ∷ xs) =
    if id == x then x ∷ xs else if ltb id x then id ∷ x ∷ xs else x ∷ insert_id id xs

-- `Cache_Item::add_watch`
unfoldable pub add_watch : Mgr → ℕ → ℕ → Mgr
unfolding insert_id
add_watch m a watch_id =
    let ids : List ℕ = elim (m.items a).watch_item [ none ↦ [] | some ids ↦ ids ] in
    write a (record (m.items a) { watch_item = some (insert_id watch_id ids) }) m

-- `++last_cache_id_`, past 0.
unfoldable pub next_cache_id : Mgr → ℕ
next_cache_id m = let id = (m.last_cache_id + 1) % 2 ^ 64 in if id == 0 then 1 else id

unfoldable pub free_item : Mgr → ℕ → Mgr
unfolding reset
free_item m a =
    let id = (m.items a).class_id in
    let m' = write a (reset (m.items a)) m in
    if ltb (length (m.free_cache_list id)) (m.free_cache_max_count id)
    then record m' { free_cache_list = update m.free_cache_list id (a ∷ m.free_cache_list id) }
    else record m' { mem_used = (m.mem_used + 2 ^ 64 - m.max_size id) % 2 ^ 64 }

-- The `uint16_t` counter.
abbrev pub dec_ref : Item → Item
dec_ref it = record it { ref_count = (it.ref_count + 0xffff) % 2 ^ 16 }

abbrev pub inc_ref : Item → Item
inc_ref it = record it { ref_count = (it.ref_count + 1) % 2 ^ 16 }

unfoldable pub do_release_reference : Mgr → ℕ → Mgr
unfolding free_item
do_release_reference m a =
    let it = dec_ref (m.items a) in
    let m' = write a it m in if it.ref_count == 0 then free_item m' a else m'

unfoldable pub do_link : Mgr → ℕ → Mgr
unfolding next_cache_id total_size
do_link m a =
    let it = m.items a in
    let linked = record (inc_ref it) {
      cache_id = next_cache_id m;
      last_update_time = m.current_time;
    } in
    record m {
      cache_hash_map = insert (key_of it) a m.cache_hash_map;
      stats = StatsCall.item_link it.group_id it.class_id (total_size m it) ∷ m.stats;
      last_cache_id = next_cache_id m;
      items = update m.items a linked;
      expire_list =
          update m.expire_list it.expiration_id (m.expire_list it.expiration_id ++ a ∷ []);
    }

-- The first half of `do_unlink`: the item leaves the map and its list.
unfoldable pub take_out : Mgr → ℕ → Mgr
unfolding remove erase total_size
take_out m a =
    let it = m.items a in
    record m {
      stats = StatsCall.item_unlink it.group_id it.class_id (total_size m it) ∷ m.stats;
      cache_hash_map = remove (key_of it) m.cache_hash_map;
      expire_list =
          update m.expire_list it.expiration_id (erase a (m.expire_list it.expiration_id));
    }

-- The notification, then `delete it->watch_item`.
unfoldable pub drop_watches : Mgr → ℕ → ℕ → Mgr
unfolding notify_watch
drop_watches m a type =
    let m' = notify_watch m a type in write a (record (m'.items a) { watch_item = none }) m'

unfoldable pub do_unlink : Mgr → ℕ → ℕ → Mgr
do_unlink m a type = do_release_reference (drop_watches (take_out m a) a type) a

unfoldable pub do_replace : Mgr → ℕ → ℕ → Mgr
do_replace m a new_a = do_link (do_unlink m a data_updated) new_a

-- `do_get` without the deadline: the item with one more reference.
unfoldable pub do_get : Mgr → Key → Option ℕ × Mgr
unfolding find
do_get m k = elim (find k m.cache_hash_map) [
  | none ↦ (none, m)
  | some a ↦ (some a, write a (inc_ref (m.items a)) m)
]

-- `do_get` with the deadline: the item, the remaining life, and the state. An item whose deadline has
-- passed is unlinked, and `expiration` is then left as it was.
unfoldable pub do_get_fresh : Mgr → Key → ℕ → Option ℕ × ℕ × Mgr
unfolding find
do_get_fresh m k expiration = elim (find k m.cache_hash_map) [
  | none ↦ (none, expiration, m)
  | some a ↦
      let it = m.items a in
      if it.expire_time == 0
      then (some a, 0, write a (inc_ref it) m)
      else if ltb m.current_time it.expire_time
      then (some a, it.expire_time - m.current_time, write a (inc_ref it) m)
      else (none, expiration, do_unlink m a expired)
]

unfoldable pub do_get_touch : Mgr → Key → ℕ → Option ℕ × Mgr
unfolding find realtime
do_get_touch m k expiration = elim (find k m.cache_hash_map) [
  | none ↦ (none, m)
  | some a ↦ (
    some a,
    write a (record (inc_ref (m.items a)) { expire_time = realtime m.current_time expiration }) m,
  )
]

-- The fields that `do_alloc` sets, at the widths of the item's fields.
unfoldable pub init_item : Mgr → ℕ → ℕ → ℕ → ℕ → ℕ → ℕ → ℕ → ℕ → Mgr
unfolding get_expiration_id
init_item m a id group_id key_length flags expire_time data_size ext_size =
    write a
      (record (m.items a) {
        class_id = id % 2 ^ 8;
        expiration_id = get_expiration_id m.current_time expire_time % 2 ^ 8;
        ref_count = 1;
        group_id = group_id;
        key_length = key_length % 2 ^ 16;
        data_size = data_size;
        expire_time = expire_time;
        flags = flags;
        ext_size = ext_size % 2 ^ 8;
      })
      m

-- One call of `malloc`, and the construction of an item in the block.
unfoldable pub malloc_item : Mgr → ℕ → Option ℕ × Mgr
malloc_item m item_size = elim m.mallocs [
  | [] ↦ (none, m)
  | answer ∷ rest ↦
      if answer
      then (
        some m.next_addr,
        record m {
          mallocs = rest;
          next_addr = m.next_addr + 1;
          block_sizes = update m.block_sizes m.next_addr item_size;
          items = update m.items m.next_addr blank;
          mem_used = (m.mem_used + item_size) % 2 ^ 64;
        },
      )
      else (none, record m { mallocs = rest })
]

-- A free item of the class, or a new block within the limit.
unfoldable pub obtain : Mgr → ℕ → Option ℕ × Mgr
unfolding malloc_item
obtain m id = elim (m.free_cache_list id) [
  | [] ↦
      if leb ((m.mem_used + m.max_size id) % 2 ^ 64) m.mem_limit
      then malloc_item m (m.max_size id)
      else (none, m)
  | a ∷ rest ↦ (some a, record m { free_cache_list = update m.free_cache_list id rest })
]

-- The end of `do_alloc`, for the item that was obtained.
unfoldable pub init_got : Option ℕ × Mgr → ℕ → ℕ → ℕ → ℕ → ℕ → ℕ → ℕ → Option ℕ × Mgr
init_got (none, m) id group_id key_length flags expire_time data_size ext_size = (none, m)
init_got (some a, m) id group_id key_length flags expire_time data_size ext_size =
    (some a, init_item m a id group_id key_length flags expire_time data_size ext_size)

-- `do_alloc` after the search for the class, which also says which class to remember.
unfoldable pub alloc_in : Mgr → ℕ × ℕ → ℕ → ℕ → ℕ → ℕ → ℕ → ℕ → Option ℕ × Mgr
unfolding init_got
alloc_in m (id, last) group_id key_length flags expire_time data_size ext_size =
    let m' = record m { last_class_id = last } in
    if id == 0
    then (none, m')
    else init_got (obtain m' id) id group_id key_length flags expire_time data_size ext_size

-- The size is cut to 32 bits.
unfoldable pub do_alloc : Mgr → ℕ → ℕ → ℕ → ℕ → ℕ → ℕ → Option ℕ × Mgr
do_alloc m group_id key_length flags expire_time data_size ext_size =
    alloc_in m (get_class_id m ((m.sizeof_item + key_length + data_size + ext_size) % 2 ^ 32))
      group_id key_length flags expire_time data_size ext_size
