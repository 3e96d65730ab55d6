-- ===== src/Parser/Peek.antt =====
-- uwifi_get_80211_header_ta and uwifi_get_80211_header_fc of core/wlan_parser.c.
use libuwifi.Base.{ℕ, Option, none, some, List, ltb, ◌==◌, ◌||◌, if◌then◌else◌, le16, ◌>>=◌}
use libuwifi.Wlan.Frame.{
  is_data, is_mgmt, is_ctrl, rts, pspoll, cf_end, cf_end_ack, blkack_req, blkack, vht_ndp, beam_rep,
}

-- The `switch` on the whole frame control field of a control frame.
abbrev pub ctrl_has_ta : ℕ → Option ℕ
ctrl_has_ta fc =
    if fc == rts
      || fc == pspoll
      || fc == cf_end
      || fc == cf_end_ack
      || fc == blkack_req
      || fc == blkack
      || fc == vht_ndp
      || fc == beam_rep
    then some 10
    else none

-- uwifi_get_80211_header_ta: the offset of the transmitter address, or NULL.
unfoldable pub get_80211_header_ta : List ℕ → ℕ → Option (Option ℕ)
get_80211_header_ta buf len = do
  fc ← le16 buf 0
  some (
      if ltb len 16
      then none
      else if is_data fc
      then some 10
      else if is_mgmt fc
      then some 10
      else if is_ctrl fc
      then ctrl_has_ta fc
      else none)

-- uwifi_get_80211_header_fc
pub get_80211_header_fc : List ℕ → ℕ → Option ℕ
get_80211_header_fc buf len = if ltb len 2 then some 0xffff else le16 buf 0
