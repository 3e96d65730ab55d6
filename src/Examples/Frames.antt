-- ===== src/Examples/Frames.antt =====
-- The frame parser of core/wlan_parser.c and the frames of core/inject.c on concrete inputs.
use Prim.{tt}
use libuwifi.Base.{
  sym, ap, le16, copy, ◌>>=◌, ℕ, zero, suc, ◌+◌, ◌≡◌, refl, false, none, some, List, [], ◌∷◌, ◌++◌,
  length, replicate, pos, arith, Succeeds, IsBytes,
}
use libuwifi.Wlan.Types.{unspec}
use libuwifi.Wlan.Frame.{beacon}
use libuwifi.Parser.Packet.{Packet}
use libuwifi.Parser.Elements.{
  parse_information_elements, parse_element, write_string, ie_ssid, ie_dsss_param,
}
use libuwifi.Parser.Elements.Tlv.{Element, encode, parse_information_elements-encode}
use libuwifi.Parser.Elements.Slack.{ssid_overrun}
use libuwifi.Parser.Header.{parse_80211_header}
use libuwifi.Parser.Peek.{get_80211_header_ta}
use libuwifi.Parser.Header.Transmitter.{get_80211_header_ta-parsed}
use libuwifi.Parser.Header.Slack.{parse_80211_header-Succeeds}
use libuwifi.Parser.Header.Truncated.{truncated_beacon}
use libuwifi.Inject.{create_beacon_probe_response}
use libuwifi.Inject.RoundTrip.{Mac, mac_bytes, parsed, parse-create_beacon}

abbrev pub no_packet : Packet
no_packet = record {
  pkt_types = 0;
  phy_signal = pos 0;
  phy_rate = 0;
  phy_rate_idx = 0;
  phy_rate_flags = 0;
  phy_freq = 0;
  phy_flags = 0;
  phy_injected = false;
  wlan_len = 0;
  wlan_fromds = false;
  wlan_tods = false;
  wlan_type = 0;
  wlan_ta = replicate 6 0;
  wlan_ra = replicate 6 0;
  wlan_bssid = replicate 6 0;
  wlan_essid = replicate 34 0;
  wlan_tsf = 0;
  wlan_bintval = 0;
  wlan_mode = 0;
  wlan_channel = 0;
  wlan_chan_width = unspec;
  wlan_tx_streams = 0;
  wlan_rx_streams = 0;
  wlan_qos_class = 0;
  wlan_nav = 0;
  wlan_seqno = 0;
  wlan_wep = false;
  wlan_retry = false;
  wlan_wpa = false;
  wlan_rsn = false;
  wlan_ht40plus = false;
  bat_gw = false;
  ip_src = 0;
  olsr_neigh = 0;
  olsr_tc = 0;
  pkt_chan_idx = pos 0;
  wlan_retries = 0;
}

abbrev ap_mac : Mac
ap_mac = record { m0 = 2; m1 = 0; m2 = 0; m3 = 0; m4 = 0; m5 = 1 }

abbrev name : List ℕ
name = 0x61 ∷ 0x62 ∷ []

parse-create_beacon_example :
    (created : ℕ × List ℕ) × (create_beacon_probe_response false
        (mac_bytes ap_mac)
        (mac_bytes ap_mac)
        (mac_bytes ap_mac)
        name
        77
        6
        100
        5
      ≡ some created)
    × (created.0 ≡ length created.1)
    × (parse_80211_header (created.1 ++ replicate 4 0) (created.0 + 4) no_packet
        ≡ some (pos 0, parsed false ap_mac ap_mac ap_mac name 77 6 100 5 no_packet))
parse-create_beacon_example =
    parse-create_beacon false ap_mac ap_mac ap_mac name (replicate 4 0) 77 6 100 5 no_packet
      (omega arith) (omega arith) (omega arith) (omega arith)

abbrev two_elements : List Element
two_elements =
    record { id = ie_ssid; payload = name } ∷ record { id = ie_dsss_param; payload = 11 ∷ [] } ∷ []

parse_information_elements-encode_example :
    parse_information_elements (encode two_elements ++ []) (length (encode two_elements)) no_packet
    ≡ some
        (record no_packet { wlan_essid = write_string name 2 (replicate 34 0); wlan_channel = 11 })
unfolding parse_element
parse_information_elements-encode_example =
    parse_information_elements-encode two_elements [] no_packet
      (record no_packet { wlan_essid = write_string name 2 (replicate 34 0); wlan_channel = 11 })
      (omega arith) (omega arith) refl

pub replicate-IsBytes : (n : ℕ) → IsBytes (replicate n 0)
replicate-IsBytes zero = tt
replicate-IsBytes (suc n) = (omega arith, replicate-IsBytes n)

-- A beacon of 44 bytes in front of zero bytes.
abbrev zero_beacon : List ℕ
zero_beacon = beacon ∷ 0 ∷ replicate 320 0

ssid_overrun_example :
    parse_information_elements (ie_ssid ∷ 5 ∷ name) (length name + 2) no_packet ≡ none
ssid_overrun_example = ssid_overrun 5 name no_packet (omega arith) (omega arith) (omega arith)

parse_80211_header-Succeeds_example : Succeeds (parse_80211_header zero_beacon 44 no_packet)
parse_80211_header-Succeeds_example =
    parse_80211_header-Succeeds zero_beacon 44 (omega arith, (omega arith, replicate-IsBytes 320))
      (omega arith) (omega arith) no_packet

-- What is created, and how it is parsed.
created_frame :
    (created : ℕ × List ℕ) × (create_beacon_probe_response false
        (mac_bytes ap_mac)
        (mac_bytes ap_mac)
        (mac_bytes ap_mac)
        name
        77
        6
        100
        5
      ≡ some created)
    × (created.0 ≡ length created.1)
    × (parse_80211_header (created.1 ++ replicate 4 0) (created.0 + 4) no_packet
        ≡ some (pos 0, parsed false ap_mac ap_mac ap_mac name 77 6 100 5 no_packet))
created_frame =
    parse-create_beacon false ap_mac ap_mac ap_mac name (replicate 4 0) 77 6 100 5 no_packet
      (omega arith) (omega arith) (omega arith) (omega arith)

-- The frame control field of what is created.
created_fc : le16 (created_frame.0.1 ++ replicate 4 0) 0 ≡ some beacon
unfolding create_beacon_probe_response
created_fc = sym (ap (λ o. o >>= λ c. le16 (c.1 ++ replicate 4 0) 0) created_frame.1)

get_80211_header_ta-parsed_example :
    (get_80211_header_ta (created_frame.0.1 ++ replicate 4 0) (created_frame.0.0 + 4)
      ≡ some (some 10))
    × (copy 6 (created_frame.0.1 ++ replicate 4 0) 10 ≡ some (mac_bytes ap_mac))
get_80211_header_ta-parsed_example =
    get_80211_header_ta-parsed (created_frame.0.1 ++ replicate 4 0) (created_frame.0.0 + 4) beacon
      no_packet (pos 0, parsed false ap_mac ap_mac ap_mac name 77 6 100 5 no_packet) created_fc refl
      created_frame.3 (λ e. ground arith)

abbrev short_beacon : List ℕ
short_beacon = beacon ∷ 0 ∷ replicate 28 0

truncated_beacon_example : parse_80211_header short_beacon (length short_beacon) no_packet ≡ none
truncated_beacon_example = truncated_beacon (replicate 28 0) no_packet (omega arith) (omega arith)

abbrev short_data : List ℕ
short_data = 0x88 ∷ 0x03 ∷ replicate 20 0
