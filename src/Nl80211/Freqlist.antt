-- ===== src/Nl80211/Freqlist.antt =====
-- nl80211_get_freqlist_cb of linux/ifctrl-nl80211.c: the channels and bands of a device.
pub mod Fill
pub mod Listed
use libuwifi.Base.{
  ℕ, zero, suc, ℤ, pos, ◌-ℤ◌, Bool, true, false, Option, none, some, List, [], ◌∷◌, ◌>>=◌, ◌==◌,
  leb, if◌then◌else◌, test_bit, u32, int32, length,
}
use libuwifi.Wlan.Types.{ChanWidth, noht20, w20, w40}
use libuwifi.Wlan.Streams.{chan_width_from_vht_capab, ht_streams_from_mcs, vht_streams_from_mcs}
use libuwifi.Channel.Types.{Band, Channels, max_channels, max_bands}
use libuwifi.Channel.Table.{list_add, band_at, set_band}

-- The attributes of a frequency: NL80211_FREQUENCY_ATTR_FREQ, and whether _DISABLED is there.
pub record FreqAttrs : Type 0 where
  pub attr_freq : Option ℕ
  pub attr_disabled : Bool

-- The attributes of a band, NL80211_BAND_ATTR_; `freqs` is `none` without NL80211_BAND_ATTR_FREQS.
pub record BandAttrs : Type 0 where
  pub ht_capa : Option ℕ
  pub ht_mcs_set : Option (List ℕ)
  pub vht_capa : Option ℕ
  pub vht_mcs_set : Option (List ℕ)
  pub freqs : Option (List FreqAttrs)

-- The width behind the HT capabilities, by default that without HT.
abbrev pub ht_width : Option ℕ → ChanWidth
ht_width none = noht20
ht_width (some cap) = if test_bit cap 1 then w40 else w20

abbrev pub vht_width : Option ℕ → ChanWidth → ChanWidth
vht_width none width = width
vht_width (some vht) width = chan_width_from_vht_capab vht

-- The streams behind the HT rates, of which there are 16 bytes.
abbrev pub ht_streams : Option (List ℕ) → Band → Option Band
ht_streams none band = some band
ht_streams (some mcs) band =
    if length mcs == 16
    then (ht_streams_from_mcs mcs band.streams_tx >>= λ s.
        some (record band { streams_rx = s.0; streams_tx = s.1 }))
    else some band

-- The streams behind the VHT rates, of which there are 8 bytes.
abbrev pub vht_streams : Option (List ℕ) → Band → Option Band
vht_streams none band = some band
vht_streams (some mcs) band =
    if length mcs == 8
    then (vht_streams_from_mcs mcs >>= λ s.
        some (record band { streams_rx = s.0; streams_tx = s.1 }))
    else some band

-- The first part of the loop over the bands.
unfoldable pub read_band : BandAttrs → Band → Option Band
read_band a band =
    ht_streams a.ht_mcs_set (record band { max_chan_width = ht_width a.ht_capa }) >>= λ ht.
    vht_streams a.vht_mcs_set
      (record ht { max_chan_width = vht_width a.vht_capa ht.max_chan_width })

-- The frequency, if it is given and not disabled.
abbrev pub usable : FreqAttrs → Option ℕ
usable a = if a.attr_disabled then none else a.attr_freq

-- The table with one more frequency. The value that uwifi_channel_list_add returns is not looked at.
abbrev pub add_freq : Channels → ℕ → Channels
add_freq ch freq = (list_add ch (int32 (u32 freq))).1

-- One round of the loop over the frequencies of a band, with the count `i`: whether it jumps to the end,
-- the count and the table.
abbrev pub freq_step : Option ℕ → ℕ → Channels → Bool × ℕ × Channels
freq_step none i ch = (false, i, ch)
freq_step (some freq) i ch = (leb max_channels (suc i), suc i, add_freq ch freq)

-- The loop.
abbrev pub freq_loop : List FreqAttrs → ℕ → Channels → Bool × ℕ × Channels
freq_loop [] i ch = (false, i, ch)
freq_loop (f ∷ fs) i ch =
    let r = freq_step (usable f) i ch in let rest = freq_loop fs r.1 r.2 in if r.0 then r else rest

-- The count of channels of the band `b`.
abbrev pub count_band : ℕ → ℕ → Channels → Channels
count_band b i ch = set_band ch b (record (band_at ch b) {
  num_channels = if b == 0 then pos i else pos i -ℤ ch.band0.num_channels;
})

-- The loop over the bands, with the counts of bands and channels. A loop over an attribute that is not there
-- reads at NULL, which is a fault.
abbrev pub band_loop : List BandAttrs → ℕ → ℕ → Channels → Option (ℕ × ℕ × Channels)
band_loop [] b i ch = some (b, i, ch)
band_loop (a ∷ bs) b i ch = read_band a (band_at ch b) >>= λ band. a.freqs >>= λ freqs.
    let r = freq_loop freqs i (set_band ch b band) in
    let counted = count_band b r.1 r.2 in
    let rest = band_loop bs (suc b) r.1 counted in
    if r.0
    then some (b, r.1, r.2)
    else if leb max_bands (suc b)
    then some (suc b, r.1, counted)
    else rest

-- nl80211_get_freqlist_cb: the table behind it. The bands are `none` without NL80211_ATTR_WIPHY_BANDS.
unfoldable pub get_freqlist_cb : Option (List BandAttrs) → Channels → Option Channels
get_freqlist_cb attr ch = attr >>= λ bands.
    band_loop bands 0 0 ch >>= λ r. some (record r.2 { num_channels = r.1; num_bands = r.0 })
