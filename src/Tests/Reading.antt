-- ===== src/Tests/Reading.antt =====
-- The other operations of src/cache.cpp, at the sample cache.
use xixi.CacheMgr.State.{Key, find, key_eq}
use xixi.CacheMgr.View.{entry, IsLinked}
use xixi.CacheMgr.Linking.{watch_ok}
use xixi.CacheMgr.Items.{next_cache_id}
use xixi.CacheMgr.Access.{get, update_flags, update_expiration}
use xixi.CacheMgr.Getting.{Lookup, get-Lookup}
use xixi.CacheMgr.Updating.{
  Updates, with_flags, with_expire_time, update_ok, update_flags-Updates, update_expiration-Updates,
  mismatch_leaks,
}
use xixi.CacheMgr.Sweep.{sweep_item}
use xixi.CacheMgr.Deadlines.{sweep_item-stored}
use xixi.Util.{safe_toui64}
use xixi.Util.Decimal.{decimal, safe_toui64_digits}
use xixi.CacheMgr.Classes.{Answers, get_class_id, get_class_id_lem}
use xixi.CacheMgr.Expirations.{IsSlot, get_expiration_id, get_expiration_id_lem}
use xixi.CurrTime.{CurrentTime, realtime, ticks}
use xixi.CurrTime.Bounds.{ticks_bounds}
use xixi.Tests.Sample.{letter, sample, sample-IsLinked, sample-HasRoom, sample-HasClasses}
use xixi.Prelude.{
  ℕ, ◌+◌, ◌*◌, ◌≤◌, ◌<◌, ◌≡◌, refl, ◌⊎◌, true, false, ◌&&◌, none, some, [], ◌∷◌, arith,
  if◌then◌else◌, bytes_eq, codes,
}

get-Lookup_example :
    Lookup sample (letter 97) (watch_ok sample 0) (get sample (letter 97) 0 false 0)
get-Lookup_example = get-Lookup sample (letter 97) 0 false 0 sample-HasRoom sample-IsLinked

update_flags-Updates_example :
    Updates sample
      (letter 98)
      (with_flags 7 (next_cache_id sample) (entry sample (letter 98)))
      (update_ok (entry sample (letter 98)) 6)
      (update_flags sample (letter 98) 6 7)
update_flags-Updates_example =
    update_flags-Updates sample (letter 98) 6 7 sample-HasRoom sample-IsLinked

update_expiration-Updates_example :
    Updates sample
      (letter 98)
      (with_expire_time (realtime 30 60) (entry sample (letter 98)))
      (update_ok (entry sample (letter 98)) 0)
      (update_expiration sample (letter 98) 0 60)
update_expiration-Updates_example =
    update_expiration-Updates sample (letter 98) 0 60 sample-HasRoom sample-IsLinked

found_97 : find (letter 97) sample.cache_hash_map ≡ some 1
unfolding find key_eq bytes_eq
found_97 = refl

found_98 : find (letter 98) sample.cache_hash_map ≡ some 2
unfolding find key_eq bytes_eq
found_98 = refl

mismatch_leaks_example :
    (((update_flags sample (letter 98) 5 7).2.items 2).ref_count ≡ 2)
    × (((update_expiration sample (letter 98) 5 60).2.items 2).ref_count ≡ 2)
mismatch_leaks_example = mismatch_leaks sample (letter 98) 2 5 7 60 found_98 refl

sweep_item-stored_example :
    ((q : Key)
      → entry (sweep_item sample 3 30 1) q
        ≡ (if true && key_eq (letter 97) q then none else entry sample q))
    × IsLinked (sweep_item sample 3 30 1)
sweep_item-stored_example = sweep_item-stored sample (letter 97) 3 30 1 sample-IsLinked found_97

get_class_id_lem_example : Answers sample 250 (get_class_id sample 250)
get_class_id_lem_example = get_class_id_lem sample 250 sample-HasClasses (omega arith)

abbrev deadline : ℕ
deadline = 90

abbrev minute : ℕ
minute = 60

get_expiration_id_lem_example :
    ((deadline ≡ 0) × (get_expiration_id 30 deadline ≡ 33))
    ⊎ ((30 < deadline) × IsSlot 60 (get_expiration_id 30 deadline))
    ⊎ ((0 < deadline) × (deadline ≤ 30) × (get_expiration_id 30 deadline ≡ 0))
get_expiration_id_lem_example = get_expiration_id_lem 30 deadline

abbrev clock : CurrentTime
clock = record { start_time = 1000; current_time = 8; last_time = 1000 }

ticks_bounds_example :
    (8 ≤ (ticks clock (1001 ∷ 900 ∷ [])).current_time)
    × ((ticks clock (1001 ∷ 900 ∷ [])).current_time ≤ 8 + 10 * 2)
ticks_bounds_example = ticks_bounds clock (1001 ∷ 900 ∷ []) (omega arith)

safe_toui64_digits_example : safe_toui64 (codes "120") ≡ some (decimal 0 (codes "120"))
unfolding decimal
safe_toui64_digits_example =
    safe_toui64_digits 49 (50 ∷ 48 ∷ [])
      ((omega arith, omega arith), ((omega arith, omega arith), ((omega arith, omega arith), tt)))
      (omega arith)
