-- ===== src/Util/Average.antt =====
-- The exponentially weighted moving averages of util/average.c and include/uwifi/average.h.
use libuwifi.Base.{
  ℕ, suc, ◌+◌, ◌-◌, ◌*◌, ◌/◌, ◌^◌, ◌≤◌, ◌<◌, ◌==◌, ◌≡◌, ap, inl, inr, Bool-cases, Option, some,
  List, [], ◌∷◌, if◌then◌else◌, u64, sub64, arith, ◌>>=◌,
}
use Prim.{Unit}
use native.Mathlib.Nat.{one-le-pow, le-div_iff_mul-le, div-le_of_le-mul}
use libuwifi.Util.Log.{ilog2}

-- `struct ewma`
pub record Ewma : Type 0 where
  pub internal : ℕ
  pub factor : ℕ
  pub weight : ℕ

-- A left shift of an unsigned long of 64 bits.
abbrev pub shift_left : ℕ → ℕ → ℕ
shift_left x n = u64 (x * 2 ^ n)

-- ewma_init
unfoldable pub ewma_init : ℕ → ℕ → Option Ewma
ewma_init factor weight = do
  w ← ilog2 weight
  f ← ilog2 factor
  some (record { internal = 0; factor = f; weight = w })

-- ewma_add
unfoldable pub ewma_add : Ewma → ℕ → Ewma
ewma_add avg val =
    let decayed = sub64 (shift_left avg.internal avg.weight) avg.internal in
    let mixed = u64 (decayed + shift_left val avg.factor) / 2 ^ avg.weight in
    record avg { internal = if avg.internal == 0 then shift_left val avg.factor else mixed }

-- ewma_read
abbrev pub ewma_read : Ewma → ℕ
ewma_read avg = avg.internal / 2 ^ avg.factor

-- The internal value stands between those of the samples `lo` and `hi`, whose products with factor and
-- weight an unsigned long holds.
pub record IsBetween (lo hi : ℕ) (avg : Ewma) : Type 0 where
  pub low : lo * 2 ^ avg.factor ≤ avg.internal
  pub high : avg.internal ≤ hi * 2 ^ avg.factor
  pub fits : hi * 2 ^ avg.factor * 2 ^ avg.weight < 2 ^ 64

-- The samples of a list, added one behind the other.
abbrev pub add_all : Ewma → List ℕ → Ewma
add_all avg [] = avg
add_all avg (val ∷ vals) = add_all (ewma_add avg val) vals

-- All the samples stand between the two bounds.
abbrev pub AllBetween : ℕ → ℕ → List ℕ → Type 0
AllBetween lo hi [] = Unit {0}
AllBetween lo hi (val ∷ vals) = (lo ≤ val) × (val ≤ hi) × AllBetween lo hi vals

-- A weighted mean of two numbers stands between the bounds that they share.
mean_bounds :
    (j m s lo hi : ℕ)
    → lo ≤ m
    → m ≤ hi
    → lo ≤ s
    → s ≤ hi
    → (lo ≤ (m * j + s) / suc j) × ((m * j + s) / suc j ≤ hi)
mean_bounds j m s lo hi a b c d =
    let above : m * j + s ≤ suc j * hi = grind arith in
    let below : lo * suc j ≤ m * j + s = grind arith in
    ((le-div_iff_mul-le {k = suc j} (omega arith)).1 below, div-le_of_le-mul (suc j) above)

-- The mixed value without overflow: `w` is the power of two of the weight and `s` the scaled sample.
mixed_mean :
    (j m s hi : ℕ)
    → m ≤ hi
    → s ≤ hi
    → hi * suc j < 2 ^ 64
    → u64 (sub64 (u64 (m * suc j)) m + u64 s) ≡ m * j + s
mixed_mean j m s hi a b fits =
    let first : m * suc j ≤ hi * suc j = grind arith in
    let sum : m * j + s ≤ hi * suc j = grind arith in
    let split : m * suc j ≡ m * j + m = grind arith in
    let small : s ≤ hi * suc j = grind arith in omega arith

-- A sample scaled by the factor `f`, where it fits.
scaled :
    (val lo hi f w : ℕ)
    → lo ≤ val
    → val ≤ hi
    → 1 ≤ w
    → hi * f * w < 2 ^ 64
    → (lo * f ≤ val * f) × (val * f ≤ hi * f) × (u64 (val * f) ≡ val * f)
scaled val lo hi f w a b one fits =
    let low : lo * f ≤ val * f = grind arith in
    let high : val * f ≤ hi * f = grind arith in
    let wide : hi * f ≤ hi * f * w = grind arith in (low, high, omega arith)

first-IsBetween :
    (avg : Ewma) (lo hi val : ℕ)
    → avg.internal ≡ 0
    → hi * 2 ^ avg.factor * 2 ^ avg.weight < 2 ^ 64
    → lo ≤ val
    → val ≤ hi
    → IsBetween lo hi (ewma_add avg val)
unfolding ewma_add
first-IsBetween avg lo hi val e fits a b =
    let (low, high, small) =
      scaled val lo hi (2 ^ avg.factor) (2 ^ avg.weight) a b (one-le-pow avg.weight 2 (omega arith))
        fits in
    rw (e, small) (record { low = low; high = high; fits = fits })

next-IsBetween :
    (avg : Ewma) (lo hi val : ℕ)
    → IsBetween lo hi avg
    → lo ≤ val
    → val ≤ hi
    → IsBetween lo hi (ewma_add avg val)
unfolding ewma_add
next-IsBetween avg lo hi val h a b =
    let one = one-le-pow avg.weight 2 (omega arith) in
    let (low, high, small) = scaled val lo hi (2 ^ avg.factor) (2 ^ avg.weight) a b one h.fits in
    elim (Bool-cases (avg.internal == 0)) [
      | inl e ↦ rw (e, small) (record { low = low; high = high; fits = h.fits })
      | inr e ↦
          let j = 2 ^ avg.weight - 1 in
          let w : 2 ^ avg.weight ≡ suc j = omega arith in
          let fits : hi * 2 ^ avg.factor * suc j < 2 ^ 64 =
            omega (arith, ap (λ x. hi * 2 ^ avg.factor * x) w, h.fits) in
          let mean =
            mean_bounds j avg.internal (val * 2 ^ avg.factor) (lo * 2 ^ avg.factor)
              (hi * 2 ^ avg.factor) h.low h.high low high in
          let mixed =
            mixed_mean j avg.internal (val * 2 ^ avg.factor) (hi * 2 ^ avg.factor) h.high high
              fits in
          rw (e, w, mixed) (record { low = mean.0; high = mean.1; fits = h.fits })
    ]

add_all-IsBetween :
    (vals : List ℕ) (avg : Ewma) (lo hi : ℕ)
    → IsBetween lo hi avg
    → AllBetween lo hi vals
    → IsBetween lo hi (add_all avg vals)
add_all-IsBetween [] avg lo hi h t = h
add_all-IsBetween (val ∷ vals) avg lo hi h (a, b, rest) =
    add_all-IsBetween vals (ewma_add avg val) lo hi (next-IsBetween avg lo hi val h a b) rest

IsBetween-read :
    (avg : Ewma) (lo hi : ℕ) → IsBetween lo hi avg → (lo ≤ ewma_read avg) × (ewma_read avg ≤ hi)
IsBetween-read avg lo hi h =
    let one = one-le-pow avg.factor 2 (omega arith) in
    (
      (le-div_iff_mul-le {k = 2 ^ avg.factor} (omega arith)).1 h.low,
      div-le_of_le-mul (2 ^ avg.factor) (grind (arith, h.high)),
    )

-- From a new average on, after one sample or more, the value read stands between any two bounds of the
-- samples, if the upper bound times factor times weight fits an unsigned long of 64 bits. So a
-- constant sample is read back exactly.
pub ewma_read-bounds :
    (avg : Ewma) (lo hi val : ℕ) (vals : List ℕ)
    → avg.internal ≡ 0
    → hi * 2 ^ avg.factor * 2 ^ avg.weight < 2 ^ 64
    → AllBetween lo hi (val ∷ vals)
    → (lo ≤ ewma_read (add_all avg (val ∷ vals))) × (ewma_read (add_all avg (val ∷ vals)) ≤ hi)
ewma_read-bounds avg lo hi val vals e fits (a, b, rest) =
    IsBetween-read (add_all avg (val ∷ vals)) lo hi (
      add_all-IsBetween vals (ewma_add avg val) lo hi (first-IsBetween avg lo hi val e fits a b)
        rest)
