-- ===== src/Node/Info.antt =====
-- `struct uwifi_node` of include/uwifi/node.h without its links.
use libuwifi.Base.{ℕ, ℤ, pos, Bool, false, Option, some, List, ◌>>=◌, replicate, ◌≡◌, refl, arith}
use libuwifi.Wlan.Types.{ChanWidth, unspec, Standard, unknown}
use libuwifi.Util.Average.{Ewma, ewma_init}
use libuwifi.Util.Log.{ilog2, ilog2-power}

-- The fields but for `list`, `essid_nodes`, `ap_nodes`, `ap_list`, `ap_node` and `essid`, which are links,
-- and `on_channels`, `num_on_channels` and `olsr_count`, which no code changes. Flags are truth values.
pub record Info : Type 0 where
  pub last_seen : ℕ
  pub pkt_types : ℕ
  pub pkt_count : ℕ
  pub rx_pkt_count : ℕ
  pub rx_only : Bool
  pub phy_rate_last : ℕ
  pub phy_sig_last : ℤ
  pub phy_sig_max : ℤ
  pub phy_sig_avg : Ewma
  pub phy_sig_sum : ℕ
  pub phy_sig_count : ℕ
  pub wlan_src : List ℕ
  pub wlan_bssid : List ℕ
  pub wlan_channel : ℕ
  pub wlan_mode : ℕ
  pub wlan_tsf : ℕ
  pub wlan_bintval : ℕ
  pub wlan_retries_all : ℕ
  pub wlan_retries_last : ℕ
  pub wlan_seqno : ℕ
  pub wlan_chan_width : ChanWidth
  pub wlan_tx_streams : ℕ
  pub wlan_rx_streams : ℕ
  pub wlan_std : Standard
  pub wlan_wep : Bool
  pub wlan_wpa : Bool
  pub wlan_rsn : Bool
  pub wlan_ht40plus : Bool
  pub bat_gw : Bool
  pub ip_src : ℕ
  pub olsr_neigh : ℕ
  pub olsr_tc : ℕ

-- memset(n, 0, sizeof(struct uwifi_node)), but for the average.
abbrev pub zero_info : Ewma → Info
zero_info avg = record {
  last_seen = 0;
  pkt_types = 0;
  pkt_count = 0;
  rx_pkt_count = 0;
  rx_only = false;
  phy_rate_last = 0;
  phy_sig_last = pos 0;
  phy_sig_max = pos 0;
  phy_sig_avg = avg;
  phy_sig_sum = 0;
  phy_sig_count = 0;
  wlan_src = replicate 6 0;
  wlan_bssid = replicate 6 0;
  wlan_channel = 0;
  wlan_mode = 0;
  wlan_tsf = 0;
  wlan_bintval = 0;
  wlan_retries_all = 0;
  wlan_retries_last = 0;
  wlan_seqno = 0;
  wlan_chan_width = unspec;
  wlan_tx_streams = 0;
  wlan_rx_streams = 0;
  wlan_std = unknown;
  wlan_wep = false;
  wlan_wpa = false;
  wlan_rsn = false;
  wlan_ht40plus = false;
  bat_gw = false;
  ip_src = 0;
  olsr_neigh = 0;
  olsr_tc = 0;
}

-- A new node: zeros, and an average with factor 1024 and weight 8.
unfoldable pub new_info : Option Info
new_info = ewma_init 1024 8 >>= λ avg. some (zero_info avg)

-- A factor of 2^10 and a weight of 2^3.
abbrev pub node_average : Ewma
node_average = record { internal = 0; factor = 10; weight = 3 }

pub new_info_runs : new_info ≡ some (zero_info node_average)
unfolding new_info ewma_init
new_info_runs =
    let eight : ilog2 8 ≡ some 3 = ilog2-power 3 (omega arith) in
    let factor : ilog2 1024 ≡ some 10 = ilog2-power 10 (omega arith) in rw (eight, factor) refl
