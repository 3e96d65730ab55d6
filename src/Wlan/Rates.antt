-- ===== src/Wlan/Rates.antt =====
-- Data rates in units of 100 kbit/s: the rate functions of core/wlan_util.c.
pub mod Index
pub mod Mcs
pub mod Bound
use libuwifi.Base.{
  ℕ, zero, suc, ◌+◌, ◌-◌, ◌*◌, ◌/◌, ◌≤◌, ◌<◌, ◌≡◌, refl, Bool, true, false, ◌&&◌, not, arith, ltb,
  ◌==◌, if◌then◌else◌, ℤ, pos, negsuc, minus_one, Option, none, some, List, [], ◌∷◌, get_elem?,
  ◌-ℤ◌,
}
use libuwifi.Wlan.Types.{
  ChanWidth, unspec, noht20, w20, w40, w80, w160, w8080, width_lt, width_value,
}

-- wlan_rate_to_index
pub rate_to_index : ℕ → ℕ
rate_to_index rate =
    if rate == 540
    then 12
    else if rate == 480
    then 11
    else if rate == 360
    then 10
    else if rate == 240
    then 9
    else if rate == 180
    then 8
    else if rate == 120
    then 7
    else if rate == 110
    then 6
    else if rate == 90
    then 5
    else if rate == 60
    then 4
    else if rate == 55
    then 3
    else if rate == 20
    then 2
    else if rate == 10
    then 1
    else 0

-- wlan_rate_to_rate
pub rate_to_rate : ℕ → ℕ
rate_to_rate idx =
    if idx == 12
    then 540
    else if idx == 11
    then 480
    else if idx == 10
    then 360
    else if idx == 9
    then 240
    else if idx == 8
    then 180
    else if idx == 7
    then 120
    else if idx == 6
    then 110
    else if idx == 5
    then 90
    else if idx == 4
    then 60
    else if idx == 3
    then 55
    else if idx == 2
    then 20
    else if idx == 1
    then 10
    else 0

-- One row of the table in wlan_ht_mcs_to_rate: 20 MHz with a long and a short guard interval, then
-- 40 MHz.
pub record McsRow : Type 0 where
  pub lgi20 : ℕ
  pub sgi20 : ℕ
  pub lgi40 : ℕ
  pub sgi40 : ℕ

abbrev mcs_row : ℕ → ℕ → ℕ → ℕ → McsRow
mcs_row a b c d = record { lgi20 = a; sgi20 = b; lgi40 = c; sgi40 = d }

abbrev pub mcs_rows : List McsRow
mcs_rows =
    mcs_row 65 72 135 150
    ∷ mcs_row 130 144 270 300
    ∷ mcs_row 195 217 405 450
    ∷ mcs_row 260 289 540 600
    ∷ mcs_row 390 433 810 900
    ∷ mcs_row 520 578 1080 1200
    ∷ mcs_row 585 650 1215 1350
    ∷ mcs_row 650 722 1350 1500
    ∷ mcs_row 130 144 270 300
    ∷ mcs_row 260 289 540 600
    ∷ mcs_row 390 433 810 900
    ∷ mcs_row 520 578 1080 1200
    ∷ mcs_row 780 867 1620 1800
    ∷ mcs_row 1040 1156 2160 2400
    ∷ mcs_row 1170 1300 2430 2700
    ∷ mcs_row 1300 1444 2700 3000
    ∷ mcs_row 195 217 405 450
    ∷ mcs_row 39 433 810 900
    ∷ mcs_row 585 650 1215 1350
    ∷ mcs_row 78 867 1620 1800
    ∷ mcs_row 1170 1300 2430 2700
    ∷ mcs_row 1560 1733 3240 3600
    ∷ mcs_row 1755 1950 3645 4050
    ∷ mcs_row 1950 2167 4050 4500
    ∷ mcs_row 260 288 540 600
    ∷ mcs_row 520 576 1080 1200
    ∷ mcs_row 780 868 1620 1800
    ∷ mcs_row 1040 1156 2160 2400
    ∷ mcs_row 1560 1732 3240 3600
    ∷ mcs_row 2080 2312 4320 4800
    ∷ mcs_row 2340 2600 4860 5400
    ∷ mcs_row 2600 2888 5400 6000
    ∷ []

abbrev row_rate : Option McsRow → Bool → Bool → ℕ
row_rate none ht20 lgi = 0
row_rate (some r) true true = r.lgi20
row_rate (some r) true false = r.sgi20
row_rate (some r) false true = r.lgi40
row_rate (some r) false false = r.sgi40

-- wlan_ht_mcs_to_rate
unfoldable pub ht_mcs_to_rate : ℤ → Bool → Bool → ℕ
ht_mcs_to_rate (pos mcs) ht20 lgi = row_rate (get_elem? mcs_rows mcs) ht20 lgi
ht_mcs_to_rate (negsuc n) ht20 lgi = 0

-- The factor `wf`; none where the function returns -1.
abbrev width_factor : ChanWidth → Option ℕ
width_factor unspec = none
width_factor noht20 = none
width_factor w20 = some 52
width_factor w40 = some 108
width_factor w80 = some 234
width_factor w160 = some 468
width_factor w8080 = some 468

-- The factor `mf` in hundredths.
abbrev mcs_factors : List ℕ
mcs_factors = 50 ∷ 100 ∷ 150 ∷ 200 ∷ 300 ∷ 400 ∷ 450 ∷ 500 ∷ 600 ∷ 667 ∷ []

abbrev is_w20 : ChanWidth → Bool
is_w20 w = width_value w == 2

abbrev is_w80 : ChanWidth → Bool
is_w80 w = width_value w == 4

abbrev is_w160 : ChanWidth → Bool
is_w160 w = width_value w == 5

-- The combinations of width, streams and MCS that have no rate.
pub vht_unsupported : ChanWidth → ℕ → ℕ → Bool
vht_unsupported width streams mcs =
    if is_w20 width && mcs == 9 && not (streams == 3)
    then true
    else if is_w80 width && mcs == 6 && streams == 3
    then true
    else if is_w160 width && mcs == 9 && streams == 3
    then true
    else if width_lt width w80 && ltb 4 streams
    then true
    else if is_w80 width && mcs == 9 && streams == 6
    then true
    else is_w80 width && mcs == 6 && streams == 7

-- The rate at a factor `mf`, unless the combination is rejected.
abbrev vht_entry : Bool → ℕ → ℕ → Bool → Option ℕ → ℤ
vht_entry rejected streams wf sgi none = minus_one
vht_entry true streams wf sgi (some mf) = minus_one
vht_entry false streams wf sgi (some mf) = pos (10 * streams * wf * mf / (if sgi then 360 else 400))

-- wlan_vht_mcs_to_rate for a stream count of one byte. The code computes in floating point; with the
-- factors in hundredths the quotient is exact, and truncation gives the same integer.
unfoldable pub vht_mcs_to_rate : ChanWidth → ℕ → ℕ → Bool → ℤ
vht_mcs_to_rate width streams mcs sgi = elim (width_factor width) [
  | none ↦ minus_one
  | some wf ↦
      vht_entry (vht_unsupported width streams mcs) streams wf sgi (get_elem? mcs_factors mcs)
]

-- wlan_max_phy_rate
unfoldable pub max_phy_rate : ChanWidth → ℕ → ℤ
unfolding ht_mcs_to_rate vht_mcs_to_rate vht_unsupported ◌-ℤ◌
max_phy_rate unspec streams_rx = pos 540
max_phy_rate noht20 streams_rx = pos 540
max_phy_rate w20 streams_rx = pos (ht_mcs_to_rate (pos (streams_rx * 8) -ℤ pos 1) true false)
max_phy_rate w40 streams_rx = pos (ht_mcs_to_rate (pos (streams_rx * 8) -ℤ pos 1) false false)
max_phy_rate w80 streams_rx = vht_mcs_to_rate w80 streams_rx 9 true
max_phy_rate w160 streams_rx = vht_mcs_to_rate w160 streams_rx 9 true
max_phy_rate w8080 streams_rx = vht_mcs_to_rate w8080 streams_rx 9 true
