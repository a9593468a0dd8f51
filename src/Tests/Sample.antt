-- ===== src/Tests/Sample.antt =====
-- A cache with two entries and an item that is not linked yet, for the examples.
use xixi.CacheMgr.State.{Key, key_eq, Item, blank, Mgr}
use xixi.CacheMgr.View.{IsLinked}
use xixi.CacheMgr.Linking.{IsReady}
use xixi.CacheMgr.Changing.{HasRoom}
use xixi.CacheMgr.Classes.{HasClasses}
use xixi.Prelude.{ℕ, zero, suc, ◌*◌, refl, true, [], ◌∷◌, arith, bytes_eq}

abbrev pub letter : ℕ → Key
letter c = record { group_id = 1; bytes = c ∷ [] }

abbrev item_of : ℕ → ℕ → ℕ → Item
item_of c id expire_time = record blank {
  group_id = 1;
  key_length = 1;
  key = c ∷ [];
  cache_id = id;
  expire_time = expire_time;
  ref_count = 1;
}

-- The items 1 and 2 are linked under the letters 97 and 98; item 3 has the letter 97 too.
abbrev heap : ℕ → Item
heap zero = blank
heap (suc zero) = item_of 97 5 20
heap (suc (suc zero)) = item_of 98 6 0
heap (suc (suc (suc a))) = item_of 97 0 0

abbrev pub sample : Mgr
sample = record {
  current_time = 30;
  live = λ s. true;
  sizeof_item = 80;
  mallocs = [];
  next_addr = 4;
  block_sizes = λ a. 100;
  items = heap;
  cache_hash_map = (letter 97, 1) ∷ (letter 98, 2) ∷ [];
  expire_list = λ i. [];
  expire_check_time = λ i. 0;
  max_size = λ c. c * 100;
  class_id_max = 9;
  last_class_id = 2;
  free_cache_max_count = λ c. 0;
  free_cache_list = λ c. [];
  flush_cache_list = [];
  last_cache_id = 6;
  mem_limit = 1000;
  mem_used = 162;
  last_check_expired_time = 0;
  last_watch_id = 0;
  watch_map = [];
  stats = [];
  sink_calls = [];
}

pub sample-IsLinked : IsLinked sample
unfolding key_eq bytes_eq
sample-IsLinked = record {
  holds = ((refl, omega arith, omega arith), ((refl, omega arith, omega arith), tt));
  apart = (((omega arith, refl), tt), (tt, tt));
}

pub sample-IsReady : IsReady sample 3
sample-IsReady = record { away = (omega arith, (omega arith, tt)); room = omega arith }

pub sample-HasRoom : HasRoom sample
sample-HasRoom = (omega arith, (omega arith, tt))

pub sample-HasClasses : HasClasses sample
sample-HasClasses = record {
  bottom = refl;
  rising = λ c h. omega arith;
  last_pos = omega arith;
  last_le = omega arith;
}
