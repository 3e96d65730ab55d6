-- ===== src/Nl80211/Requests.antt =====
-- The requests of linux/ifctrl-nl80211.c: each prepares a message, adds attributes, sends it and waits.
pub mod Safe
pub mod Prepared
pub mod Sent
pub mod Outcome
pub mod Performed
use libuwifi.Base.{
  ℕ, ℤ, pos, uint32_of, ◌==ℤ◌, Bool, true, false, Option, none, some, List, [], ◌∷◌, ◌++◌, ◌==◌,
  if◌then◌else◌,
}
use libuwifi.Base.Run.{Run, pure, ◌>>=◌, ◌>>◌}
use libuwifi.Wlan.Types.{ChanWidth}
use libuwifi.Channel.Types.{Channels}
use libuwifi.Nl80211.Settings.{Attrs, IfInfo, nl_width, get_interface_info_cb}
use libuwifi.Nl80211.Freqlist.{BandAttrs, get_freqlist_cb}
use libuwifi.Nl80211.Stations.{Filling, StaInfo, StaMsg, get_station_cb}
use libuwifi.Nl80211.Survey.{SurveyInfo, SurveyAttrs, get_survey_cb}
use libuwifi.Nl80211.Receive.{
  Command, new_interface, del_interface, set_interface, get_interface, connect, disconnect,
  set_channel, get_station, get_survey, get_wiphy, Attr, wiphy, ifname, iftype, ssid, wiphy_freq,
  channel_width, center_freq1, mac, Libnl,
}
use libuwifi.Nl80211.Netlink.{Link, Msg, msg_prepare, put_attrs, give_up, send_recv, send}
use libuwifi.Sys.Process.{Name}

-- NL80211_IFTYPE_STATION and NL80211_IFTYPE_MONITOR
abbrev pub iftype_station : ℕ
iftype_station = 2

abbrev pub iftype_monitor : ℕ
iftype_monitor = 6

-- ifctrl_is_monitor
abbrev pub is_monitor : IfInfo → Bool
is_monitor intf = intf.if_type == iftype_monitor

-- The attributes of ifctrl_iw_connect: a frequency and a BSSID only if they are given.
abbrev pub connect_attrs : List ℕ → ℤ → Option (List ℕ) → List Attr
connect_attrs essid freq bssid =
    ssid essid ∷ (if freq ==ℤ pos 0 then [] else wiphy_freq (uint32_of freq) ∷ [])
    ++ elim bssid [ none ↦ [] | some b ↦ mac b ∷ [] ]

-- The attributes of ifctrl_iwset_freq: a centre frequency only if it is not 0.
abbrev pub set_freq_attrs : ℕ → ChanWidth → ℕ → List Attr
set_freq_attrs freq width center1 =
    wiphy_freq freq
    ∷ channel_width (nl_width width)
    ∷ (if center1 == 0 then [] else center_freq1 center1 ∷ [])

-- The attributes of the messages that come, as nl80211_parse and nla_parse_nested give them.
pub record Parsers (R : Type 0) : Type 0 where
  pub interface_attrs : R → Attrs
  pub bands : R → Option (List BandAttrs)
  pub station : R → StaMsg
  pub survey : R → Option SurveyAttrs

-- NLM_F_DUMP is set in the header.
abbrev pub set_dump : Msg → Msg
set_dump m = record m { content = record (m.content) { dump = true } }

module _ {W R : Type 0} (nl : Libnl W R) (fuel : ℕ) where
  -- What follows the attributes: the message is sent, or freed if one had no room.
  abbrev pub send_or_free :
      {S : Type 0} → (R → S → Option S) → S → ℕ → Option Msg → Run (Link W) (Bool × S)
  send_or_free cb s ptr none = give_up nl ptr (false, s)
  send_or_free cb s ptr (some m) = send_recv nl fuel cb s m

  abbrev pub fill_and_send :
      {S : Type 0}
      → (R → S → Option S)
      → S
      → Bool
      → List Attr
      → Option Msg
      → Run (Link W) (Bool × S)
  fill_and_send cb s dump attrs none = pure (false, s)
  fill_and_send cb s dump attrs (some m) =
      put_attrs nl attrs (if dump then set_dump m else m) >>= send_or_free cb s m.ptr

  -- A request whose answers go to a callback with its argument.
  abbrev pub query :
      {S : Type 0}
      → Command
      → Option Name
      → Bool
      → List Attr
      → (R → S → Option S)
      → S
      → Run (Link W) (Bool × S)
  query cmd interface dump attrs cb s =
      msg_prepare nl cmd interface >>= fill_and_send cb s dump attrs

  -- A request without a callback.
  abbrev pub request : Command → Option Name → List Attr → Run (Link W) Bool
  request cmd interface attrs = query cmd interface false attrs (λ r s. some s) tt >>= λ r. pure r.0

  -- ifctrl_iwadd_sta
  unfoldable pub iwadd_sta : ℤ → Name → Run (Link W) Bool
  iwadd_sta phyidx new =
      request new_interface none
        (wiphy (uint32_of phyidx) ∷ ifname new ∷ iftype iftype_station ∷ [])

  -- ifctrl_iwadd_monitor
  unfoldable pub iwadd_monitor : Name → Name → Run (Link W) Bool
  iwadd_monitor interface monitor =
      request new_interface (some interface) (ifname monitor ∷ iftype iftype_monitor ∷ [])

  -- ifctrl_iwdel
  unfoldable pub iwdel : Name → Run (Link W) Bool
  iwdel interface = request del_interface (some interface) []

  -- ifctrl_iwset_monitor
  unfoldable pub iwset_monitor : Name → Run (Link W) Bool
  iwset_monitor interface = request set_interface (some interface) (iftype iftype_monitor ∷ [])

  -- ifctrl_iw_disconnect
  unfoldable pub iw_disconnect : Name → Run (Link W) Bool
  iw_disconnect interface = request disconnect (some interface) []

  -- ifctrl_iw_connect
  unfoldable pub iw_connect : Name → List ℕ → ℤ → Option (List ℕ) → Run (Link W) Bool
  iw_connect interface essid freq bssid =
      request connect (some interface) (connect_attrs essid freq bssid)

  -- ifctrl_iwset_freq
  unfoldable pub iwset_freq : Name → ℕ → ChanWidth → ℕ → Run (Link W) Bool
  iwset_freq interface freq width center1 =
      request set_channel (some interface) (set_freq_attrs freq width center1)

  module _ (parsers : Parsers R) where
    -- ifctrl_iwget_interface_info: the result, and the fields that are read.
    unfoldable pub iwget_interface_info : Name → IfInfo → Run (Link W) (Bool × IfInfo)
    iwget_interface_info name intf =
        query get_interface (some name) false []
          (λ r i. some (get_interface_info_cb (parsers.interface_attrs r) i)) intf

    -- ifctrl_iwget_freqlist, for the device `if_phy`.
    unfoldable pub request_freqlist : ℤ → Channels → Run (Link W) (Bool × Channels)
    request_freqlist if_phy channels =
        query get_wiphy none false (wiphy (uint32_of if_phy) ∷ [])
          (λ r ch. get_freqlist_cb (parsers.bands r) ch) channels

    -- The number that is returned for a dump that fills an array.
    abbrev pub filled : {A : Type 0} → Bool × Filling A → ℕ × List A
    filled (ok, f) = (if ok then f.idx else 0, f.items)

    -- ifctrl_iwget_stations: the result and the array.
    unfoldable pub request_stations : Name → List StaInfo → ℕ → Run (Link W) (ℕ × List StaInfo)
    request_stations name stas maxlen =
        query get_station (some name) true [] (λ r f. get_station_cb maxlen (parsers.station r) f)
          (record { items = stas; idx = 0 })
        >>= λ r. pure (filled r)

    -- ifctrl_iwget_survey
    unfoldable pub request_survey : Name → List SurveyInfo → ℕ → Run (Link W) (ℕ × List SurveyInfo)
    request_survey name infos maxlen =
        query get_survey (some name) true [] (λ r f. get_survey_cb maxlen (parsers.survey r) f)
          (record { items = infos; idx = 0 })
        >>= λ r. pure (filled r)
