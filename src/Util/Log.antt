-- ===== src/Util/Log.antt =====
-- ilog2 of util/util.c and is_power_of_2 of include/uwifi/util.h.
use libuwifi.Base.{
  ℕ, zero, suc, ◌+◌, ◌/◌, ◌%◌, ◌^◌, ◌<◌, ◌==◌, ◌≡◌, ap, ◌∙◌, Option, none, some, if◌then◌else◌,
  arith,
}
use native.Mathlib.Nat.{two-pow-succ}

-- The loop of ilog2 from the count `n` on. At 0 the loop of the source does not end: the fuel runs out.
pub ilog2_loop : ℕ → ℕ → ℕ → Option ℕ
ilog2_loop zero n x = none
ilog2_loop (suc fuel) n x =
    let rest = ilog2_loop fuel (n + 1) (x / 2) in if x % 2 == 1 then some n else rest

-- ilog2, with fuel for the 32 bits of an `int`.
unfoldable pub ilog2 : ℕ → Option ℕ
ilog2 x = ilog2_loop 32 0 x

pub ilog2_loop-power : (fuel k n : ℕ) → k < fuel → ilog2_loop fuel n (2 ^ k) ≡ some (n + k)
unfolding ilog2_loop
ilog2_loop-power zero k n h = absurd (omega arith)
ilog2_loop-power (suc fuel) zero n h = ap some (omega arith)
ilog2_loop-power (suc fuel) (suc k) n h =
    let p : 2 ^ suc k ≡ 2 ^ k + 2 ^ k = two-pow-succ k in
    let odd : 2 ^ suc k % 2 ≡ 0 = omega arith in
    let half : 2 ^ suc k / 2 ≡ 2 ^ k = omega arith in
    rw (odd, half, ilog2_loop-power fuel k (n + 1) (omega arith)) (ap some (omega arith))

-- A power of two below 2 ^ 31, which an `int` holds, has its exponent as its logarithm, and the loop ends.
pub ilog2-power : (k : ℕ) → k < 31 → ilog2 (2 ^ k) ≡ some k
unfolding ilog2
ilog2-power k h = ilog2_loop-power 32 k 0 (omega arith) ∙ ap some (omega arith)
