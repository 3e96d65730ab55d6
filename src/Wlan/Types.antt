-- ===== src/Wlan/Types.antt =====
-- The enumerations of include/uwifi/channel.h and include/uwifi/wlan_util.h.
use libuwifi.Base.{ℕ, Bool, ltb, leb, if◌then◌else◌}

-- `enum uwifi_chan_width`, in the order of its values.
pub data ChanWidth : Type 0 where
  unspec noht20 w20 w40 w80 w160 w8080 : ChanWidth

-- The value that the C enumeration gives a width.
abbrev pub width_value : ChanWidth → ℕ
width_value unspec = 0
width_value noht20 = 1
width_value w20 = 2
width_value w40 = 3
width_value w80 = 4
width_value w160 = 5
width_value w8080 = 6

abbrev pub width_lt : ChanWidth → ChanWidth → Bool
width_lt a b = ltb (width_value a) (width_value b)

abbrev pub width_le : ChanWidth → ChanWidth → Bool
width_le a b = leb (width_value a) (width_value b)

-- `enum uwifi_80211_std`, in the order of its values.
pub data Standard : Type 0 where
  unknown std_b std_g std_a std_n std_ac : Standard

abbrev pub std_value : Standard → ℕ
std_value unknown = 0
std_value std_b = 1
std_value std_g = 2
std_value std_a = 3
std_value std_n = 4
std_value std_ac = 5

-- The macro MAX at two standards.
abbrev pub max_std : Standard → Standard → Standard
max_std a b = if ltb (std_value b) (std_value a) then a else b
