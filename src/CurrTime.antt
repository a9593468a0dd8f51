-- ===== src/CurrTime.antt =====
-- src/currtime.h and src/currtime.cpp: the server's clock, a `uint32_t` that a timer advances.
-- `time(NULL)` is an argument, as the number that the C library returns.
pub mod Bounds
use xixi.Prelude.{ℕ, ◌+◌, ◌-◌, ◌%◌, ◌^◌, Bool, false, List, [], ◌∷◌, ltb, leb, ◌==◌, if◌then◌else◌}

pub record CurrentTime : Type 0 where
  pub start_time : ℕ
  pub current_time : ℕ
  pub last_time : ℕ

-- The constructor, run when `time(NULL)` returns `time`.
unfoldable pub new : ℕ → CurrentTime
new time = record { start_time = time % 2 ^ 32; current_time = 8; last_time = time % 2 ^ 32 }

-- `set_current_time`: a step of at most ten seconds, and none when the wall clock went back.
unfoldable pub set_current_time : CurrentTime → ℕ → CurrentTime
set_current_time c time =
    let tt = time % 2 ^ 32 in
    let d = tt - c.last_time in
    let step : ℕ = if ltb 10 d then 10 else d in
    if ltb c.last_time tt
    then record c { current_time = (c.current_time + step) % 2 ^ 32; last_time = tt }
    else record c { last_time = tt }

-- The timer's calls, one for each value that `time(NULL)` returns.
unfoldable pub ticks : CurrentTime → List ℕ → CurrentTime
ticks c [] = c
ticks c (t ∷ ts) = ticks (set_current_time c t) ts

unfoldable pub get_start_time : CurrentTime → ℕ
get_start_time c = c.start_time

-- The static `realtime`; the sum is taken in 64 bits, where two 32-bit numbers do not wrap.
unfoldable pub realtime : ℕ → ℕ → ℕ
realtime curr_time expiration =
    let t = expiration + curr_time in
    if expiration == 0 then 0 else if leb t 0xffff_ffff then t else 0

-- The sum `last_time + timeout` wraps.
unfoldable pub is_timeout : CurrentTime → ℕ → ℕ → Bool
is_timeout c last_time timeout =
    if last_time == 0 then false else leb ((last_time + timeout) % 2 ^ 32) c.current_time
