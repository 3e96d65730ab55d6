-- ===== src/Channel/Display.antt =====
-- The names of the channel widths in core/channel.c.
use Prim.Native.String.{String}
use libuwifi.Base.{ℤ, pos, ltb_ℤ, ◌==ℤ◌, if◌then◌else◌}
use libuwifi.Wlan.Types.{ChanWidth, unspec, noht20, w20, w40, w80, w160, w8080}

-- uwifi_channel_width_string
pub width_string : ChanWidth → String
width_string unspec = "?"
width_string noht20 = "20 (no HT)"
width_string w20 = "HT20"
width_string w40 = "HT40"
width_string w80 = "VHT80"
width_string w160 = "VHT160"
width_string w8080 = "VHT80+80"

-- uwifi_channel_width_string_short
pub width_string_short : ChanWidth → ℤ → String
width_string_short unspec ht40p = "?"
width_string_short noht20 ht40p = "20g"
width_string_short w20 ht40p = "20"
width_string_short w40 ht40p =
    if ltb_ℤ ht40p (pos 0) then "40" else if ht40p ==ℤ pos 0 then "40-" else "40+"
width_string_short w80 ht40p = "80"
width_string_short w160 ht40p = "160"
width_string_short w8080 ht40p = "80+80"
