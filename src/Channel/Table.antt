-- ===== src/Channel/Table.antt =====
-- The table of channels and bands: the look-ups and additions of core/channel.c.
pub mod Scan
pub mod Add
use libuwifi.Base.{
  ℕ, suc, zero, ◌+◌, ◌≤◌, ◌<◌, ◌≡◌, min, Bool, true, false, ◌&&◌, ◌||◌, not, Option, none, some,
  List, [], ◌∷◌, if◌then◌else◌, get_elem?, set, ltb, leb, ◌==◌, ℤ, pos, negsuc, ◌+ℤ◌, ◌-ℤ◌, ◌==ℤ◌,
  ltb_ℤ, leb_ℤ, minus_one, int32, uint32_of,
}
use libuwifi.Wlan.Types.{ChanWidth}
use libuwifi.Wlan.Freq.{freq2chan}
use libuwifi.Channel.Types.{ChanFreq, Band, Channels, max_channels, max_bands}

-- The loop of the two look-ups from index `i` on, for the `n` elements that are left below both bounds.
unfoldable pub scan : (ChanFreq → Bool) → List ChanFreq → ℕ → ℕ → ℤ
scan test xs zero i = minus_one
scan test [] (suc n) i = minus_one
scan test (c ∷ cs) (suc n) i = let rest = scan test cs n (suc i) in if test c then pos i else rest

-- The number of channels that a loop visits: `i < num_channels && i < MAX_CHANNELS`.
abbrev pub visited : Channels → ℕ
visited ch = if ltb ch.num_channels max_channels then ch.num_channels else max_channels

-- uwifi_channel_idx_from_chan
unfoldable pub idx_from_chan : Channels → ℤ → ℤ
idx_from_chan ch c = scan (λ x. x.chan ==ℤ c) ch.chan (visited ch) 0

-- uwifi_channel_idx_from_freq
unfoldable pub idx_from_freq : Channels → ℕ → ℤ
idx_from_freq ch f = scan (λ x. x.freq == f) ch.chan (visited ch) 0

abbrev chan_of : Option ChanFreq → ℤ
chan_of none = minus_one
chan_of (some c) = c.chan

abbrev freq_of : Option ChanFreq → ℤ
freq_of none = minus_one
freq_of (some c) = int32 c.freq

-- uwifi_channel_get_chan
unfoldable pub get_chan : Channels → ℤ → ℤ
get_chan ch (negsuc i) = minus_one
get_chan ch (pos i) =
    if ltb i ch.num_channels && ltb i max_channels then chan_of (get_elem? ch.chan i) else minus_one

-- uwifi_channel_get_freq
unfoldable pub get_freq : Channels → ℤ → ℤ
get_freq ch (negsuc i) = minus_one
get_freq ch (pos i) =
    if ltb i ch.num_channels && ltb i max_channels then freq_of (get_elem? ch.chan i) else minus_one

-- The element that uwifi_channel_list_add writes: the other fields keep what the array held.
abbrev pub write_freq : ℤ → List ChanFreq → ℕ → List ChanFreq
write_freq freq [] i = []
write_freq freq (c ∷ cs) zero = record c { chan = freq2chan freq; freq = uint32_of freq } ∷ cs
write_freq freq (c ∷ cs) (suc i) = c ∷ write_freq freq cs i

-- uwifi_channel_list_add: the value returned and the table.
unfoldable pub list_add : Channels → ℤ → Bool × Channels
list_add ch freq = if leb max_channels ch.num_channels then (false, ch) else (
  true,
  record ch { chan = write_freq freq ch.chan ch.num_channels; num_channels = suc ch.num_channels },
)

-- uwifi_channel_get_num_channels and uwifi_channel_get_num_bands
abbrev pub get_num_channels : Channels → ℕ
get_num_channels ch = ch.num_channels

abbrev pub get_num_bands : Channels → ℕ
get_num_bands ch = ch.num_bands

-- `band[b]` for the two indices that exist.
abbrev pub band_at : Channels → ℕ → Band
band_at ch zero = ch.band0
band_at ch (suc b) = ch.band1

-- uwifi_channel_idx_from_band_idx
unfoldable pub idx_from_band_idx : Channels → ℤ → ℤ → ℤ
idx_from_band_idx ch (negsuc band) idx = minus_one
idx_from_band_idx ch (pos band) idx =
    if leb ch.num_bands band
    then minus_one
    else if ltb_ℤ idx (pos 0) || leb_ℤ (band_at ch band).num_channels idx
    then minus_one
    else if ltb 0 band
    then idx +ℤ ch.band0.num_channels
    else idx

-- uwifi_channel_get_band: the index of the element that the pointer returned stands at, or NULL.
unfoldable pub get_band : Channels → ℤ → Option ℕ
get_band ch (negsuc b) = none
get_band ch (pos b) = if ltb ch.num_bands b then none else some b

abbrev pub set_band : Channels → ℕ → Band → Channels
set_band ch zero b = record ch { band0 = b }
set_band ch (suc i) b = record ch { band1 = b }

-- uwifi_channel_band_add: the value returned and the table.
unfoldable pub band_add : Channels → ℤ → ChanWidth → ℕ → ℕ → Bool × Channels
band_add ch num width rx tx = if leb max_bands ch.num_bands then (false, ch) else (
  true,
  record (set_band ch ch.num_bands
      (record { num_channels = num; max_chan_width = width; streams_rx = rx; streams_tx = tx })) {
        num_bands = suc ch.num_bands;
      },
)

-- channel_get_band_from_idx
unfoldable pub get_band_from_idx : Channels → ℤ → Band
get_band_from_idx ch idx =
    if ltb_ℤ (idx -ℤ ch.band0.num_channels) (pos 0) then ch.band0 else ch.band1
