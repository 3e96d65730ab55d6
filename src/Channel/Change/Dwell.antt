-- ===== src/Channel/Change/Dwell.antt =====
-- The dwell time of core/channel.c across the wrap around of the 32-bit clock.
use libuwifi.Base.{
  ℕ, ◌+◌, ◌-◌, ◌%◌, ◌^◌, ◌<◌, ◌≡◌, refl, if◌then◌else◌, pos, ◌-ℤ◌, sub32, arith, Bool-cases, inl,
  inr,
}
use libuwifi.Channel.Types.{Interface}
use libuwifi.Channel.Change.{Platform, remaining_dwell_time, dwell_at, uint32_max}

dwell_at-elapsed :
    (intf : Interface) (time elapsed : ℕ)
    → intf.channel_time ≡ pos time
    → time < 2 ^ 31
    → elapsed < 2 ^ 32
    → intf.last_channelchange < 2 ^ 32
    → dwell_at intf ((intf.last_channelchange + elapsed) % 2 ^ 32) ≡ time - elapsed
unfolding ◌-ℤ◌
dwell_at-elapsed intf time elapsed t ht he hl =
    let e : sub32 ((intf.last_channelchange + elapsed) % 2 ^ 32) intf.last_channelchange ≡ elapsed =
      omega arith in
    rw (t, e) (ground arith)

-- While scanning, the time left is the dwell time less the time elapsed since the last change, and 0
-- from then on, also where the clock has wrapped around in between; without scanning it is the largest
-- value and the clock is not read. The time elapsed is below 2 ^ 32 microseconds.
pub remaining_dwell_time-elapsed :
    {W : Type 0} (platform : Platform W) (intf : Interface) (w w1 : W) (time elapsed : ℕ)
    → intf.channel_time ≡ pos time
    → time < 2 ^ 31
    → elapsed < 2 ^ 32
    → intf.last_channelchange < 2 ^ 32
    → platform.time_usec w ≡ ((intf.last_channelchange + elapsed) % 2 ^ 32, w1)
    → remaining_dwell_time platform intf w
      ≡ (if intf.channel_scan then (time - elapsed, w1) else (uint32_max, w))
unfolding remaining_dwell_time
remaining_dwell_time-elapsed platform intf w w1 time elapsed t ht he hl clock =
    elim (Bool-cases intf.channel_scan) [
      | inl s ↦ rw (s, clock) (rw (dwell_at-elapsed intf time elapsed t ht he hl) refl)
      | inr s ↦ rw s refl
    ]
