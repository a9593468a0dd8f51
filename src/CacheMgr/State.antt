-- ===== src/CacheMgr/State.antt =====
-- src/cache.h: Cache_Key, Cache_Item and the state of Cache_Mgr, with the global objects that its
-- methods read and write: the clock, the statistics and the allocator.
-- An item's address is a number, and `items` is the heap. The list templates are lists of addresses,
-- and the hash map is its list of entries, newest first.
use xixi.Prelude.{
  ℕ, ◌+◌, ◌%◌, ◌^◌, ◌≡◌, Bool, true, ◌&&◌, Option, none, some, List, [], ◌∷◌, arith, ◌==◌,
  if◌then◌else◌, update, bytes_eq, bytes_eq_sound, bytes_eq_refl,
}
use xixi.Stats.{StatsCall}
use xixi.Watch.{Watch}

pub record Key : Type 0 where
  pub group_id : ℕ
  pub bytes : List ℕ

-- `Cache_Item::is_key`: group, length and bytes.
unfoldable pub key_eq : Key → Key → Bool
key_eq p q = p.group_id == q.group_id && bytes_eq p.bytes q.bytes

pub key_eq_sound : (p q : Key) → key_eq p q ≡ true → p ≡ q
unfolding key_eq
key_eq_sound p q h = ground (arith, bytes_eq_sound p.bytes q.bytes)

pub key_eq_refl : (p : Key) → key_eq p p ≡ true
unfolding key_eq
key_eq_refl p = ground (arith, bytes_eq_refl p.bytes)

-- The three parts of `body` are the bytes last copied there; `reset` leaves them.
-- `watch_item` is the set of watch ids in ascending order, or none for a null pointer.
pub record Item : Type 0 where
  pub expire_time : ℕ
  pub watch_item : Option (List ℕ)
  pub cache_id : ℕ
  pub group_id : ℕ
  pub flags : ℕ
  pub data_size : ℕ
  pub last_update_time : ℕ
  pub ref_count : ℕ
  pub key_length : ℕ
  pub ext_size : ℕ
  pub item_flag : ℕ
  pub class_id : ℕ
  pub expiration_id : ℕ
  pub hash_value : ℕ
  pub key : List ℕ
  pub value : List ℕ
  pub ext : List ℕ

-- `Cache_Item::reset`
unfoldable pub reset : Item → Item
reset it = record it {
  expire_time = 0;
  watch_item = none;
  cache_id = 0;
  group_id = 0;
  flags = 0;
  data_size = 0;
  last_update_time = 0;
  ref_count = 0;
  key_length = 0;
  ext_size = 0;
  item_flag = 0;
  class_id = 0;
  expiration_id = 0;
}

-- A constructed item whose body is not written yet.
abbrev pub blank : Item
blank = record {
  expire_time = 0;
  watch_item = none;
  cache_id = 0;
  group_id = 0;
  flags = 0;
  data_size = 0;
  last_update_time = 0;
  ref_count = 0;
  key_length = 0;
  ext_size = 0;
  item_flag = 0;
  class_id = 0;
  expiration_id = 0;
  hash_value = 0;
  key = [];
  value = [];
  ext = [];
}

abbrev pub key_of : Item → Key
key_of it = record { group_id = it.group_id; bytes = it.key }

-- `mallocs` holds whether the coming calls of `malloc` succeed; a block that it returns has the
-- address `next_addr`, and `block_sizes` has the sizes that the blocks were asked for. `live` says which sinks exist. `stats` holds the calls made so far,
-- the newest first, and `sink_calls` those of sinks, the oldest first. `sizeof_item` is `sizeof(Cache_Item)`.
pub record Mgr : Type 0 where
  pub current_time : ℕ
  pub live : ℕ → Bool
  pub sizeof_item : ℕ
  pub mallocs : List Bool
  pub next_addr : ℕ
  pub block_sizes : ℕ → ℕ
  pub items : ℕ → Item
  pub cache_hash_map : List (Key × ℕ)
  pub expire_list : ℕ → List ℕ
  pub expire_check_time : ℕ → ℕ
  pub max_size : ℕ → ℕ
  pub class_id_max : ℕ
  pub last_class_id : ℕ
  pub free_cache_max_count : ℕ → ℕ
  pub free_cache_list : ℕ → List ℕ
  pub flush_cache_list : List ℕ
  pub last_cache_id : ℕ
  pub mem_limit : ℕ
  pub mem_used : ℕ
  pub last_check_expired_time : ℕ
  pub last_watch_id : ℕ
  pub watch_map : List (ℕ × Watch)
  pub stats : List StatsCall
  pub sink_calls : List (ℕ × ℕ)

abbrev pub report : StatsCall → Mgr → Mgr
report c m = record m { stats = c ∷ m.stats }

-- A write through an item's pointer.
abbrev pub write : ℕ → Item → Mgr → Mgr
write a it m = record m { items = update m.items a it }

-- `Cache_Item::total_size`
unfoldable pub total_size : Mgr → Item → ℕ
total_size m it = (m.sizeof_item + it.key_length + it.data_size + it.ext_size) % 2 ^ 32

-- The hash map as its clients see it: `find`, `insert` and `remove` by key.
unfoldable pub find : Key → List (Key × ℕ) → Option ℕ
find k [] = none
find k ((q, a) ∷ l) = if key_eq k q then some a else find k l

abbrev pub insert : Key → ℕ → List (Key × ℕ) → List (Key × ℕ)
insert k a l = (k, a) ∷ l

unfoldable pub remove : Key → List (Key × ℕ) → List (Key × ℕ)
remove k [] = []
remove k ((q, a) ∷ l) = if key_eq k q then l else (q, a) ∷ remove k l

-- The results of the operations (src/xixibase.h).
pub data Reason : Type 0 where
  success not_found exists too_large mismatch out_of_memory watch_not_found : Reason

-- The kinds of notification (src/peer_cache_pdu.h).
abbrev pub base_info_updated : ℕ
base_info_updated = 1

abbrev pub data_updated : ℕ
data_updated = 2

abbrev pub deleted : ℕ
deleted = 3

abbrev pub expired : ℕ
expired = 4

abbrev pub flushed : ℕ
flushed = 5
