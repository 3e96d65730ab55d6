-- ===== src/Parser/Packet.antt =====
-- `struct uwifi_packet` of include/uwifi/wlan_parser.h.
use libuwifi.Base.{ℕ, ℤ, Bool, List}
use libuwifi.Wlan.Types.{ChanWidth}

-- Bit fields of width one are truth values; `wlan_essid` has 34 bytes.
pub record Packet : Type 0 where
  pub pkt_types : ℕ
  pub phy_signal : ℤ
  pub phy_rate : ℕ
  pub phy_rate_idx : ℕ
  pub phy_rate_flags : ℕ
  pub phy_freq : ℕ
  pub phy_flags : ℕ
  pub phy_injected : Bool
  pub wlan_len : ℕ
  pub wlan_fromds : Bool
  pub wlan_tods : Bool
  pub wlan_type : ℕ
  pub wlan_ta : List ℕ
  pub wlan_ra : List ℕ
  pub wlan_bssid : List ℕ
  pub wlan_essid : List ℕ
  pub wlan_tsf : ℕ
  pub wlan_bintval : ℕ
  pub wlan_mode : ℕ
  pub wlan_channel : ℕ
  pub wlan_chan_width : ChanWidth
  pub wlan_tx_streams : ℕ
  pub wlan_rx_streams : ℕ
  pub wlan_qos_class : ℕ
  pub wlan_nav : ℕ
  pub wlan_seqno : ℕ
  pub wlan_wep : Bool
  pub wlan_retry : Bool
  pub wlan_wpa : Bool
  pub wlan_rsn : Bool
  pub wlan_ht40plus : Bool
  pub bat_gw : Bool
  pub ip_src : ℕ
  pub olsr_neigh : ℕ
  pub olsr_tc : ℕ
  pub pkt_chan_idx : ℤ
  pub wlan_retries : ℕ
