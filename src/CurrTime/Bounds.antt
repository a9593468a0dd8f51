-- ===== src/CurrTime/Bounds.antt =====
-- src/currtime.h and src/currtime.cpp: how far the clock moves, and when a deadline is in range.
use xixi.Prelude.{ℕ, ◌+◌, ◌*◌, ◌^◌, ◌≤◌, ◌<◌, ◌≡◌, ◌⊎◌, List, [], ◌∷◌, arith, length}
use xixi.CurrTime.{CurrentTime, set_current_time, ticks, realtime}

-- A deadline is the sum of the clock and a positive expiration exactly if that fits 32 bits; for an
-- expiration of 0 and for a sum that does not fit the answer is 0, which means never.
pub realtime_cases :
    (curr_time expiration : ℕ)
    → ((0 < expiration)
        × (curr_time + expiration < 2 ^ 32)
        × (realtime curr_time expiration ≡ curr_time + expiration))
      ⊎ (((expiration ≡ 0) ⊎ (2 ^ 32 ≤ curr_time + expiration))
          × (realtime curr_time expiration ≡ 0))
unfolding realtime
realtime_cases curr_time expiration = ground arith

set_current_time_step :
    (c : CurrentTime) (t : ℕ)
    → c.current_time + 10 < 2 ^ 32
    → (c.current_time ≤ (set_current_time c t).current_time)
      × ((set_current_time c t).current_time ≤ c.current_time + 10)
unfolding set_current_time
set_current_time_step c t h = ground arith

-- Whatever values the wall clock takes, while the clock is that far from 2 ^ 32 it never goes back,
-- and it advances by at most ten for each call of the timer.
pub ticks_bounds :
    (c : CurrentTime) (ts : List ℕ)
    → c.current_time + 10 * length ts < 2 ^ 32
    → (c.current_time ≤ (ticks c ts).current_time)
      × ((ticks c ts).current_time ≤ c.current_time + 10 * length ts)
unfolding ticks
ticks_bounds c [] h = omega arith
ticks_bounds c (t ∷ ts) h =
    let s = set_current_time_step c t (omega arith) in
    let r = ticks_bounds (set_current_time c t) ts (omega arith) in (omega arith, omega arith)
