-- ===== src/Stats.antt =====
-- src/stats.h: the calls by which the cache reports to Stats, one constructor for each method
-- with its arguments (group id, class id, bytes).
use xixi.Prelude.{ℕ}

pub data StatsCall : Type 0 where
  get_hit_no_watch get_hit_watch : ℕ → ℕ → ℕ → StatsCall
  get_hit_watch_miss : ℕ → ℕ → StatsCall
  get_miss : ℕ → StatsCall
  get_touch_hit_no_watch get_touch_hit_watch : ℕ → ℕ → ℕ → StatsCall
  get_touch_hit_watch_miss : ℕ → ℕ → StatsCall
  get_touch_miss : ℕ → StatsCall
  get_base_hit : ℕ → ℕ → StatsCall
  get_base_miss : ℕ → StatsCall
  update_flags_success update_flags_mismatch : ℕ → ℕ → StatsCall
  update_flags_miss : ℕ → StatsCall
  update_expiration_success update_expiration_mismatch : ℕ → ℕ → StatsCall
  update_expiration_miss : ℕ → StatsCall
  add_success add_success_watch : ℕ → ℕ → ℕ → StatsCall
  add_watch_miss add_fail : ℕ → ℕ → StatsCall
  set_success set_success_watch : ℕ → ℕ → ℕ → StatsCall
  set_watch_miss set_mismatch : ℕ → ℕ → StatsCall
  replace_success replace_success_watch : ℕ → ℕ → ℕ → StatsCall
  replace_watch_miss replace_mismatch : ℕ → ℕ → StatsCall
  replace_miss : ℕ → StatsCall
  append_success append_success_watch : ℕ → ℕ → ℕ → StatsCall
  append_watch_miss append_mismatch append_out_of_memory : ℕ → ℕ → StatsCall
  append_miss : ℕ → StatsCall
  prepend_success prepend_success_watch : ℕ → ℕ → ℕ → StatsCall
  prepend_watch_miss prepend_mismatch prepend_out_of_memory : ℕ → ℕ → StatsCall
  prepend_miss : ℕ → StatsCall
  delete_success delete_mismatch : ℕ → ℕ → StatsCall
  delete_miss : ℕ → StatsCall
  incr_success incr_mismatch incr_miss : ℕ → StatsCall
  decr_success decr_mismatch decr_miss : ℕ → StatsCall
  create_watch check_watch check_watch_miss : ℕ → StatsCall
  flush : ℕ → StatsCall
  item_link item_unlink : ℕ → ℕ → ℕ → StatsCall
