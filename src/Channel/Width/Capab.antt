-- ===== src/Channel/Width/Capab.antt =====
-- chan_check_capab of core/channel.c: what the check of a channel's capabilities writes.
use libuwifi.Base.{
  ℕ, ◌≡◌, refl, inl, inr, Bool, true, false, ◌||◌, List, [], ◌∷◌, pos, minus_one, ◌==ℤ◌, ◌+ℤ◌, ◌-ℤ◌,
  not, Bool-cases,
}
use libuwifi.Wlan.Types.{ChanWidth, w20, w40, width_le}
use libuwifi.Channel.Types.{ChanFreq, Channels, ChanSpec}
use libuwifi.Channel.Table.{idx_from_chan, get_freq, get_band_from_idx}
use libuwifi.Channel.Width.{check_wider, capable, verify_ch, fix_center_freq}

-- The loop over the widths finds the width that it starts from, or one of the band.
check_wider_bound :
    (ws : List ChanWidth) (limit : ChanWidth) (spec : ChanSpec) (ch : Channels) (found : ChanWidth)
    → width_le found limit ≡ true
    → width_le (check_wider ws limit spec ch found) limit ≡ true
unfolding check_wider
check_wider_bound [] limit spec ch found h = h
check_wider_bound (w ∷ ws) limit spec ch found h =
    let ih = check_wider_bound ws limit (fix_center_freq (record spec { width = w }) false) ch w in
    elim (Bool-cases (width_le w limit)) [
      | inr e ↦ rw e h
      | inl e ↦
          elim (Bool-cases (verify_ch (fix_center_freq (record spec { width = w }) false) ch)) [
            | inl v ↦ rw (e, v) (ih e)
            | inr v ↦ rw (e, v) h
          ]
    ]

-- The cases of the check, by the width of the band and by the neighbours at 20 MHz that exist.
module _ (ch : Channels) (i : ℕ) (c : ChanFreq) where
  abbrev pub limit : ChanWidth
  limit = (get_band_from_idx ch (pos i)).max_chan_width

  abbrev pub is_2484 : Bool
  is_2484 = get_freq ch (pos i) ==ℤ pos 2484

  abbrev pub has_minus : Bool
  has_minus = not (idx_from_chan ch (c.chan -ℤ pos 4) ==ℤ minus_one)

  abbrev pub has_plus : Bool
  has_plus = not (idx_from_chan ch (c.chan +ℤ pos 4) ==ℤ minus_one)

  -- The width that the check stores is at most that of the channel's band, where the band has 20 MHz
  -- at least; it is 20 MHz for 2484 MHz, and in a band of 40 MHz or more also for a channel without a
  -- neighbour.
  pub capable-width :
      width_le w20 limit ≡ true
      → (width_le (capable ch i c).max_width limit ≡ true)
        × (is_2484 ≡ true → (capable ch i c).max_width ≡ w20)
        × (width_le w40 limit ≡ true
            → (has_minus || has_plus) ≡ false
            → (capable ch i c).max_width ≡ w20)
  unfolding capable
  capable-width h = elim (Bool-cases is_2484) [
    | inl a ↦ rw a (h, λ e. refl, λ e f. refl)
    | inr a ↦ elim (Bool-cases (width_le w40 limit)) [
      | inr b ↦
          rw (a, b) (check_wider_bound _ limit _ ch w20 h, λ e. absurd (cc), λ e f. absurd (cc))
      | inl b ↦ elim (Bool-cases (has_minus || has_plus)) [
        | inl d ↦
            rw (a, b, d)
              (check_wider_bound _ limit _ ch w40 b, λ e. absurd (cc), λ e f. absurd (cc))
        | inr d ↦ rw (a, b, d) (h, λ e. refl, λ e f. refl)
      ]
    ]
  ]

  -- The check changes neither the number of a channel nor its frequency.
  pub capable_same : ((capable ch i c).chan ≡ c.chan) × ((capable ch i c).freq ≡ c.freq)
  unfolding capable
  capable_same = elim (Bool-cases is_2484) [
    | inl a ↦ rw a (refl, refl)
    | inr a ↦ elim (Bool-cases (width_le w40 limit)) [
      | inr b ↦ rw (a, b) (refl, refl)
      | inl b ↦ elim (Bool-cases (has_minus || has_plus)) [
        | inl d ↦ rw (a, b, d) (refl, refl)
        | inr d ↦ rw (a, b, d) (refl, refl)
      ]
    ]
  ]
