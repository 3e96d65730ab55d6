-- ===== src/Raw/Esp.antt =====
-- uwifi_esp_parse of esp8266/esp_promisc.c: packets as the ESP8266 gives them.
use libuwifi.Base.{
  ℕ, ◌+◌, ◌≤◌, ℤ, pos, leb_ℤ, Bool, false, Option, some, List, ◌>>=◌, get_elem?, drop, length,
  length-drop, replicate, ◌==◌, if◌then◌else◌, arith, Succeeds, succeeds, if-Succeeds,
  bind-Succeeds, get_elem?-Succeeds, IsBytes, drop-IsBytes,
}
use libuwifi.Wlan.Types.{unspec}
use libuwifi.Nl80211.Stations.{signed_byte}
use libuwifi.Parser.Packet.{Packet}
use libuwifi.Parser.Header.{parse_80211_header}
use libuwifi.Parser.Header.Slack.{parse_80211_header-Succeeds}

-- os_memset(pkt, 0, sizeof(struct uwifi_packet))
abbrev pub zero_packet : Packet
zero_packet = record {
  pkt_types = 0;
  phy_signal = pos 0;
  phy_rate = 0;
  phy_rate_idx = 0;
  phy_rate_flags = 0;
  phy_freq = 0;
  phy_flags = 0;
  phy_injected = false;
  wlan_len = 0;
  wlan_fromds = false;
  wlan_tods = false;
  wlan_type = 0;
  wlan_ta = replicate 6 0;
  wlan_ra = replicate 6 0;
  wlan_bssid = replicate 6 0;
  wlan_essid = replicate 34 0;
  wlan_tsf = 0;
  wlan_bintval = 0;
  wlan_mode = 0;
  wlan_channel = 0;
  wlan_chan_width = unspec;
  wlan_tx_streams = 0;
  wlan_rx_streams = 0;
  wlan_qos_class = 0;
  wlan_nav = 0;
  wlan_seqno = 0;
  wlan_wep = false;
  wlan_retry = false;
  wlan_wpa = false;
  wlan_rsn = false;
  wlan_ht40plus = false;
  bat_gw = false;
  ip_src = 0;
  olsr_neigh = 0;
  olsr_tc = 0;
  pkt_chan_idx = pos 0;
  wlan_retries = 0;
}

-- The size of `struct RxControl`, which stands in front of the frame.
abbrev pub rx_control_size : ℕ
rx_control_size = 12

-- The bytes of the frame that the two structs for packets hold.
abbrev pub frame_len : ℕ → ℕ
frame_len len = if len == 128 then 112 else 36

abbrev pub is_frame : ℤ × Packet → Bool × Packet
is_frame (r, p) = (leb_ℤ (pos 0) r, p)

-- uwifi_esp_parse: the result and the packet. A packet of 12 bytes has no frame.
unfoldable pub esp_parse : List ℕ → ℕ → Packet → Option (Bool × Packet)
esp_parse buf len p =
    if len == 12
    then some (false, p)
    else (get_elem? buf 0 >>= λ rssi.
        parse_80211_header (drop rx_control_size buf) (frame_len len)
          (record zero_packet { phy_signal = signed_byte rssi })
        >>= λ r. some (is_frame r))

-- A packet of bytes whose memory goes on for 255 bytes behind its frame.
pub esp_parse-Succeeds :
    (buf : List ℕ) (len : ℕ) (p : Packet)
    → IsBytes buf
    → rx_control_size + frame_len len + 255 ≤ length buf
    → Succeeds (esp_parse buf len p)
unfolding esp_parse
esp_parse-Succeeds buf len p bs slack =
    if-Succeeds (len == 12) (λ e. succeeds)
      (λ e. bind-Succeeds (get_elem?-Succeeds buf 0 (omega arith)) (λ rssi e1.
        bind-Succeeds
          (parse_80211_header-Succeeds (drop rx_control_size buf) (frame_len len)
            (drop-IsBytes rx_control_size buf bs)
            (omega (arith, length-drop {0} rx_control_size buf)) (ground arith)
            (record zero_packet { phy_signal = signed_byte rssi }))
          (λ r e2. succeeds)))
