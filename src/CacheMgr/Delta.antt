-- ===== src/CacheMgr/Delta.antt =====
-- src/cache.cpp: Cache_Mgr::delta, which adds to the number that an entry's text stands for. Numbers are
-- the 64 bits of two's complement.
use xixi.Prelude.{
  ℕ, zero, suc, ◌+◌, ◌/◌, ◌%◌, ◌^◌, Bool, ◌||◌, Option, none, some, List, [], ◌∷◌, ltb, ◌==◌,
  if◌then◌else◌, length,
}
use xixi.Util.{negate, safe_toi64}
use xixi.CacheMgr.Items.{do_get, do_replace, do_release_reference, do_alloc, next_cache_id}
use xixi.CacheMgr.State.{
  Key, Mgr, Reason, success, not_found, mismatch, out_of_memory, report, write,
}
use xixi.CacheMgr.Extend.{fill}
use xixi.Stats.{StatsCall}

-- The decimal digits of a number in front of `acc`; a number of 64 bits has at most 20.
unfoldable pub decimal_from : ℕ → ℕ → List ℕ → List ℕ
decimal_from zero x acc = acc
decimal_from (suc rounds) x acc =
    let rest = decimal_from rounds (x / 10) ((48 + x % 10) ∷ acc) in
    if ltb x 10 then (48 + x) ∷ acc else rest

-- `_snprintf` with the format of an `int64_t`.
unfoldable pub print_int64 : ℕ → List ℕ
unfolding decimal_from
print_int64 x = if ltb x (2 ^ 63) then decimal_from 20 x [] else 45 ∷ decimal_from 20 (negate x) []

-- The value of the text, 0 where there is none, and the change.
unfoldable pub delta_value : Bool → ℕ → List ℕ → ℕ
unfolding safe_toi64
delta_value incr delta text =
    let value : ℕ = elim (safe_toi64 text) [ none ↦ 0 | some x ↦ x ] in
    if incr then (value + delta) % 2 ^ 64 else (value + negate delta) % 2 ^ 64

abbrev delta_success : Bool → ℕ → StatsCall
delta_success incr group_id =
    if incr then StatsCall.incr_success group_id else StatsCall.decr_success group_id

-- The new text, of another length, goes into a new item, which replaces the old one.
unfoldable pub delta_into : Bool → ℕ → ℕ → ℕ → ℕ → Option ℕ × Mgr → Reason × ℕ × ℕ × Mgr
unfolding do_replace do_release_reference fill print_int64
delta_into incr group_id a cache_id value (none, m) =
    (out_of_memory, cache_id, value, do_release_reference m a)
delta_into incr group_id a cache_id value (some new_a, m) =
    let m1 = do_replace (fill m new_a (m.items a) (m.items a) (print_int64 value)) a new_a in
    (
      success,
      (m1.items new_a).cache_id,
      value,
      do_release_reference (report (delta_success incr group_id) (do_release_reference m1 new_a)) a,
    )

-- The new text, of the same length, is written over the old one.
unfoldable pub delta_over : Mgr → Bool → ℕ → ℕ → ℕ → Reason × ℕ × ℕ × Mgr
unfolding do_release_reference next_cache_id print_int64
delta_over m incr group_id a value =
    let id = next_cache_id m in
    let it = record (m.items a) {
      cache_id = id;
      last_update_time = m.current_time;
      value = print_int64 value;
    } in
    (
      success,
      id,
      value,
      do_release_reference
          (report (delta_success incr group_id) (write a it (record m { last_cache_id = id }))) a,
    )

unfoldable pub delta_found : Bool → ℕ → ℕ → ℕ → Option ℕ × Mgr → Reason × ℕ × ℕ × Mgr
unfolding delta_into delta_over delta_value print_int64 do_alloc do_release_reference
delta_found incr delta group_id cache_id (none, m) = (
  not_found,
  0,
  0,
  report (if incr then StatsCall.incr_miss group_id else StatsCall.decr_miss group_id) m,
)
delta_found incr delta group_id cache_id (some a, m) =
    let it = m.items a in
    let value = delta_value incr delta it.value in
    let data_size = length (print_int64 value) in
    if cache_id == 0 || cache_id == it.cache_id
    then if data_size == it.data_size
      then delta_over m incr group_id a value
      else delta_into incr group_id a cache_id value
          (do_alloc m it.group_id it.key_length it.flags it.expire_time data_size it.ext_size)
    else (
      mismatch,
      0,
      0,
      do_release_reference
          (report
            (if incr then StatsCall.incr_mismatch group_id else StatsCall.decr_mismatch group_id) m)
          a,
    )

-- The reason, the cache id and the value that come back.
unfoldable pub delta : Mgr → Key → Bool → ℕ → ℕ → Reason × ℕ × ℕ × Mgr
unfolding delta_found
delta m k incr amount cache_id = delta_found incr amount k.group_id cache_id (do_get m k)
