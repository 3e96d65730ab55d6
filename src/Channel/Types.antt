-- ===== src/Channel/Types.antt =====
-- The structs of include/uwifi/channel.h, and the fields of `struct uwifi_interface`
-- (include/uwifi/conf.h) that core/channel.c uses.
use libuwifi.Base.{ℕ, ◌≤◌, ◌≡◌, Bool, List, length, ℤ}
use libuwifi.Wlan.Types.{ChanWidth}

-- `struct uwifi_chan_freq`
pub record ChanFreq : Type 0 where
  pub chan : ℤ
  pub freq : ℕ
  pub max_width : ChanWidth
  pub ht40plus : Bool
  pub ht40minus : Bool

-- `struct uwifi_band`
pub record Band : Type 0 where
  pub num_channels : ℤ
  pub max_chan_width : ChanWidth
  pub streams_rx : ℕ
  pub streams_tx : ℕ

abbrev pub max_channels : ℕ
max_channels = 64

abbrev pub max_bands : ℕ
max_bands = 2

-- `struct uwifi_channels`. The two counts start at 0 and are only incremented; `band0` and `band1` are
-- the two elements of `band`.
pub record Channels : Type 0 where
  pub chan : List ChanFreq
  pub num_channels : ℕ
  pub band0 : Band
  pub band1 : Band
  pub num_bands : ℕ

-- The array has its MAX_CHANNELS elements and the count stays within it.
abbrev pub IsValid : Channels → Type 0
IsValid ch = (length ch.chan ≡ max_channels) × (ch.num_channels ≤ max_channels)

-- `struct uwifi_chan_spec`
pub record ChanSpec : Type 0 where
  pub freq : ℕ
  pub width : ChanWidth
  pub center_freq : ℕ

-- `struct uwifi_interface`, as far as the channel code reads or writes it.
pub record Interface : Type 0 where
  pub channel_time : ℤ
  pub channel_min : ℤ
  pub channel_max : ℤ
  pub channel_scan : Bool
  pub channel_set : ChanSpec
  pub channels : Channels
  pub channel_initialized : Bool
  pub channel_idx : ℤ
  pub channel : ChanSpec
  pub last_channelchange : ℕ
  pub max_phy_rate : ℕ
