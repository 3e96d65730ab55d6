-- ===== src/Sys/Clock.antt =====
-- plat_time_usec of linux/platform.c: the clock in microseconds, in 32 bits.
use libuwifi.Base.{ℕ, ◌+◌, ◌-◌, ◌*◌, ◌/◌, ◌<◌, ◌≤◌, ◌^◌, ◌≡◌, u32, sub32, arith}

-- `struct timespec` of the monotonic clock.
pub record Timespec : Type 0 where
  pub tv_sec : ℕ
  pub tv_nsec : ℕ

-- The time in microseconds, which a 64-bit time_t holds.
abbrev pub micros : Timespec → ℕ
micros t = t.tv_sec * 1000000 + t.tv_nsec / 1000

-- plat_time_usec, for the answer of clock_gettime.
unfoldable pub time_usec : Timespec → ℕ
time_usec t = u32 (micros t)

-- Two readings.
pub time_usec-elapsed :
    (t t' : Timespec)
    → micros t ≤ micros t'
    → micros t' - micros t < 2 ^ 32
    → sub32 (time_usec t') (time_usec t) ≡ micros t' - micros t
unfolding time_usec
time_usec-elapsed t t' later near = omega arith
