-- ===== src/Wlan/Standard.antt =====
-- Guesses at the 802.11 standard, and the names of standards and modes: core/wlan_util.c.
use Prim.Native.String.{String}
use libuwifi.Base.{ℕ, ◌||◌, ltb, leb, ◌==◌, if◌then◌else◌, test_bit}
use libuwifi.Wlan.Types.{
  ChanWidth, unspec, noht20, w20, w40, w80, w160, w8080, Standard, unknown, std_b, std_g, std_a,
  std_n, std_ac,
}
use libuwifi.Wlan.Frame.{
  beam_rep, vht_ndp, timing, action_noack, action, blkack_req, blkack, qdata, qdata_cf_ack,
  qdata_cf_poll, qdata_cf_ackpoll, qos_null,
}

-- wlan_80211std_from_chan. Its callers pass a channel number that is not negative.
pub std_from_chan : ChanWidth → ℕ → Standard
std_from_chan unspec chan = if ltb 14 chan then std_a else std_b
std_from_chan noht20 chan = if ltb 14 chan then std_a else std_b
std_from_chan w20 chan = std_n
std_from_chan w40 chan = std_n
std_from_chan w80 chan = std_ac
std_from_chan w160 chan = std_ac
std_from_chan w8080 chan = std_ac

-- wlan_80211std_from_rate
pub std_from_rate : ℕ → ℕ → Standard
std_from_rate rate_idx chan =
    if leb rate_idx 6
    then std_b
    else if leb rate_idx 12
    then (if ltb 14 chan then std_a else std_g)
    else std_n

-- wlan_80211std_from_type
pub std_from_type : ℕ → Standard
std_from_type fc =
    if fc == beam_rep || fc == vht_ndp
    then std_ac
    else if fc == timing || fc == action_noack
    then std_n
    else if fc == action
        || fc == blkack_req
        || fc == blkack
        || fc == qdata
        || fc == qdata_cf_ack
        || fc == qdata_cf_poll
        || fc == qdata_cf_ackpoll
        || fc == qos_null
    then std_g
    else unknown

-- wlan_80211std_str
pub std_str : Standard → String
std_str unknown = "?"
std_str std_b = "B"
std_str std_g = "G"
std_str std_a = "A"
std_str std_n = "N"
std_str std_ac = "AC"

-- wlan_mode_string. The second test is the first once more.
pub mode_string : ℕ → String
mode_string mode =
    if test_bit mode 0
    then "AP"
    else if test_bit mode 0
    then "IBSS"
    else if test_bit mode 2
    then "STA"
    else if test_bit mode 3
    then "PRB"
    else "UNK"
