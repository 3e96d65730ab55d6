-- ===== src/Wlan/Rates/Mcs.antt =====
-- The HT rate table of core/wlan_util.c against the rate formula of 802.11n.
use libuwifi.Base.{
  ℕ, ◌+◌, ◌*◌, ◌/◌, ◌%◌, ◌≤◌, ◌<◌, ◌≡◌, ◌≢◌, refl, ◌⊎◌, inl, inr, Bool, true, false, ◌&&◌, ◌||◌,
  arith, leb, ◌==◌, if◌then◌else◌, pos, passes_below, passes_below_at,
}
use libuwifi.Wlan.Rates.{ht_mcs_to_rate}

-- Data bits of one stream in units of the slowest modulation, by MCS modulo 8.
abbrev pub modulation : ℕ → ℕ
modulation m =
    if m == 0
    then 1
    else if m == 1
    then 2
    else if m == 2
    then 3
    else if m == 3
    then 4
    else if m == 4
    then 6
    else if m == 5
    then 8
    else if m == 6
    then 9
    else 10

-- Streams times modulation.
abbrev pub nominal : ℕ → ℕ
nominal mcs = (mcs / 8 + 1) * modulation (mcs % 8)

-- At most two units of 100 kbit/s away from a ninth of the number.
abbrev near_ninth : ℕ → ℕ → Bool
near_ninth rate ninths = leb (9 * rate) (ninths + 18) && leb ninths (9 * rate + 18)

abbrev ht40_row : ℕ → Bool
ht40_row m =
    ht_mcs_to_rate (pos m) false true == 135 * nominal m
    && ht_mcs_to_rate (pos m) false false == 150 * nominal m

ht40_table : passes_below 32 ht40_row ≡ true
unfolding passes_below ht_mcs_to_rate
ht40_table = refl

-- The 40 MHz rates of all 32 MCS values are those of the formula: 13.5 Mbit/s, or 15 Mbit/s with the
-- short guard interval, times streams and modulation.
pub ht_mcs_to_rate_40 :
    (m : ℕ)
    → m < 32
    → (ht_mcs_to_rate (pos m) false true ≡ 135 * nominal m)
      × (ht_mcs_to_rate (pos m) false false ≡ 150 * nominal m)
ht_mcs_to_rate_40 m h = ground (arith, passes_below_at 32 ht40_row m ht40_table)

abbrev ht20_row : ℕ → Bool
ht20_row m =
    near_ninth (ht_mcs_to_rate (pos m) true false) (650 * nominal m)
    && (m == 17 || m == 19 || ht_mcs_to_rate (pos m) true true == 65 * nominal m)

ht20_table : passes_below 32 ht20_row ≡ true
unfolding passes_below ht_mcs_to_rate
ht20_table = refl

-- The 20 MHz rates of the 32 MCS values are those of the formula: 6.5 Mbit/s times streams and
-- modulation, but for MCS 17 and 19, and ten ninths of that within 0.2 Mbit/s for the short guard
-- interval.
pub ht_mcs_to_rate_20 :
    (m : ℕ)
    → m < 32
    → m ≢ 17
    → m ≢ 19
    → (ht_mcs_to_rate (pos m) true true ≡ 65 * nominal m)
      × (9 * ht_mcs_to_rate (pos m) true false ≤ 650 * nominal m + 18)
      × (650 * nominal m ≤ 9 * ht_mcs_to_rate (pos m) true false + 18)
ht_mcs_to_rate_20 m h n17 n19 = ground (arith, passes_below_at 32 ht20_row m ht20_table)

-- MCS 17 and 19 at 20 MHz with the long guard interval give a tenth of the rate of the formula.
pub ht_mcs_to_rate_tenth :
    (m : ℕ) → (m ≡ 17) ⊎ (m ≡ 19) → 10 * ht_mcs_to_rate (pos m) true true ≡ 65 * nominal m
unfolding ht_mcs_to_rate
ht_mcs_to_rate_tenth m (inl e) = rw e
ht_mcs_to_rate_tenth m (inr e) = rw e
