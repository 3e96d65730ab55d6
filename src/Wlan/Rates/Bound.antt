-- ===== src/Wlan/Rates/Bound.antt =====
-- The maximum rate of a radio against the single rates: core/wlan_util.c.
use libuwifi.Base.{
  ℕ, zero, suc, ◌*◌, ◌/◌, ◌≤◌, ◌<◌, ◌≡◌, ◌≢◌, refl, Bool, true, false, arith, if◌then◌else◌, pos,
  ◌≤ℤ◌, minus_one, passes_below, passes_below_at, passes_both, passes_both_at, leb_ℤ, Option, none,
  some, List, [], ◌∷◌, get_elem?,
}
use libuwifi.Wlan.Types.{ChanWidth, width_le, w20, w40, w80, w160, w8080}
use libuwifi.Wlan.Rates.{
  ht_mcs_to_rate, max_phy_rate, vht_mcs_to_rate, vht_entry, vht_unsupported, mcs_factors,
}

-- A radio's HT rates at one stream count: each at most the maximum.
abbrev ht_row : ChanWidth → Bool → ℕ → ℕ → Bool
ht_row width ht20 streams mcs =
    passes_both λ lgi. leb_ℤ (pos (ht_mcs_to_rate (pos mcs) ht20 lgi)) (max_phy_rate width streams)

abbrev ht_rows : ChanWidth → Bool → ℕ → Bool
ht_rows width ht20 streams = passes_below (8 * streams) (ht_row width ht20 streams)

ht_bound_table :
    (passes_below 5 (ht_rows w20 true) ≡ true) × (passes_below 5 (ht_rows w40 false) ≡ true)
unfolding passes_below ht_mcs_to_rate max_phy_rate
ht_bound_table = (refl, refl)

module _ (streams mcs : ℕ) (lgi : Bool) (s : streams ≤ 4) (m : mcs < 8 * streams) where
  ht_bound :
      (width : ChanWidth) (ht20 : Bool)
      → passes_below 5 (ht_rows width ht20) ≡ true
      → pos (ht_mcs_to_rate (pos mcs) ht20 lgi) ≤ℤ max_phy_rate width streams
  ht_bound width ht20 t =
      let row = passes_below_at 5 (ht_rows width ht20) streams t (omega arith) in
      let entry = passes_below_at (8 * streams) (ht_row width ht20 streams) mcs row m in
      let at =
        passes_both_at
          (λ l. leb_ℤ (pos (ht_mcs_to_rate (pos mcs) ht20 l)) (max_phy_rate width streams)) lgi
          entry in
      ground arith

  -- For a radio of at most four streams, no MCS that uses at most these streams is faster than the
  -- maximum, at 20 and at 40 MHz and with either guard interval.
  pub ht_mcs_to_rate-le-max_phy_rate :
      (pos (ht_mcs_to_rate (pos mcs) true lgi) ≤ℤ max_phy_rate w20 streams)
      × (pos (ht_mcs_to_rate (pos mcs) false lgi) ≤ℤ max_phy_rate w40 streams)
  ht_mcs_to_rate-le-max_phy_rate =
      (ht_bound w20 true ht_bound_table.0, ht_bound w40 false ht_bound_table.1)

div_mono : (p q : ℕ) (sgi : Bool) → p ≤ q → p / (if sgi then 360 else 400) ≤ q / 360
div_mono p q true h = omega arith
div_mono p q false h = omega arith

-- An entry with a factor at most that of MCS 9.
scaled_mono :
    (streams wf mf : ℕ) (sgi : Bool)
    → mf ≤ 667
    → 10 * streams * wf * mf / (if sgi then 360 else 400) ≤ 10 * streams * wf * 667 / 360
scaled_mono streams wf mf sgi h =
    div_mono (10 * streams * wf * mf) (10 * streams * wf * 667) sgi (grind arith)

abbrev AtMost : ℕ → List ℕ → Type 0
AtMost b [] = Unit {0}
AtMost b (x ∷ xs) = (x ≤ b) × AtMost b xs

get_elem?-AtMost : (b : ℕ) (xs : List ℕ) (i x : ℕ) → AtMost b xs → get_elem? xs i ≡ some x → x ≤ b
get_elem?-AtMost b [] i x a e = absurd (cc)
get_elem?-AtMost b (y ∷ xs) zero x a e = ground arith
get_elem?-AtMost b (y ∷ xs) (suc i) x a e = get_elem?-AtMost b xs i x a.1 e

entry_bound :
    (rejected : Bool) (streams wf mcs : ℕ) (sgi : Bool) (mf : Option ℕ)
    → get_elem? mcs_factors mcs ≡ mf
    → vht_entry rejected streams wf sgi mf ≤ℤ pos (10 * streams * wf * 667 / 360)
entry_bound rejected streams wf mcs sgi none e = omega arith
entry_bound true streams wf mcs sgi (some mf) e = omega arith
entry_bound false streams wf mcs sgi (some mf) e =
    omega (
      arith,
      scaled_mono streams wf mf sgi (get_elem?-AtMost 667 mcs_factors mcs mf (omega arith) e),
    )

-- For the widths from 80 MHz on, no VHT rate of the same streams is above the maximum, where the
-- maximum is a rate at all.
pub vht_mcs_to_rate-le-max_phy_rate :
    (width : ChanWidth) (streams mcs : ℕ) (sgi : Bool)
    → width_le w80 width ≡ true
    → max_phy_rate width streams ≢ minus_one
    → vht_mcs_to_rate width streams mcs sgi ≤ℤ max_phy_rate width streams
unfolding vht_mcs_to_rate max_phy_rate
vht_mcs_to_rate-le-max_phy_rate w80 streams mcs sgi w h =
    ground (arith, entry_bound (vht_unsupported w80 streams mcs) streams 234 mcs sgi _ refl)
vht_mcs_to_rate-le-max_phy_rate w160 streams mcs sgi w h =
    ground (arith, entry_bound (vht_unsupported w160 streams mcs) streams 468 mcs sgi _ refl)
vht_mcs_to_rate-le-max_phy_rate w8080 streams mcs sgi w h =
    ground (arith, entry_bound (vht_unsupported w8080 streams mcs) streams 468 mcs sgi _ refl)
vht_mcs_to_rate-le-max_phy_rate other streams mcs sgi w h = absurd (cc)
