-- ===== src/Node/Copy.antt =====
-- How a packet changes a node: copy_nodeinfo and copy_rx_nodeinfo of core/node.c.
use libuwifi.Base.{
  ℕ, ℤ, pos, negsuc, suc, ◌+◌, ◌-◌, ◌%◌, ◌^◌, Bool, false, ◌&&◌, ◌||◌, Option, none, some, ◌==◌,
  ◌==ℤ◌, ltb_ℤ, if◌then◌else◌, u32, u64, test_bit, bit_or,
}
use libuwifi.Wlan.Types.{width_lt, Standard, max_std}
use libuwifi.Wlan.Standard.{std_from_chan, std_from_rate, std_from_type}
use libuwifi.Wlan.Frame.{
  beacon, probe_resp, plain_data, qdata, auth, data_cf_ack, data_cf_poll, data_cf_ackpoll,
  qdata_cf_ack, qdata_cf_poll, qdata_cf_ackpoll, mode_ap, mode_sta, mode_ibss,
}
use libuwifi.Parser.Packet.{Packet}
use libuwifi.Util.Average.{ewma_add}
use libuwifi.Node.Mac.{mac_empty}
use libuwifi.Node.Info.{Info}

-- if (new) old = new
abbrev pub or_keep : ℕ → ℕ → ℕ
or_keep new old = if new == 0 then old else new

-- The conversion of -x to unsigned long, for an int x.
abbrev pub negated : ℤ → ℕ
negated (pos n) = (2 ^ 64 - n) % 2 ^ 64
negated (negsuc n) = suc n

-- The node is a station.
abbrev pub is_station : ℕ → Bool
is_station mode = test_bit mode 2

-- The packet's type is a beacon or a probe response.
abbrev pub is_announcement : ℕ → Bool
is_announcement type = type == beacon || type == probe_resp

-- The types of packets whose flag for encryption counts.
abbrev pub shows_wep : ℕ → Bool
shows_wep type =
    type == plain_data
    || type == qdata
    || type == auth
    || type == beacon
    || type == probe_resp
    || type == data_cf_ack
    || type == data_cf_poll
    || type == data_cf_ackpoll
    || type == qdata_cf_ack
    || type == qdata_cf_poll
    || type == qdata_cf_ackpoll

-- The node's channel, if it is known, and else that of the packet.
abbrev pub keep_channel : Info → Packet → ℕ
keep_channel n p = if n.wlan_channel == 0 then p.wlan_channel else n.wlan_channel

-- The channel of a node with the mode `mode`, unless an announcement gives it: that of its access point,
-- for a station that has one.
abbrev pub guess_channel : Info → ℕ → Option ℕ → Packet → ℕ
guess_channel n mode none p = keep_channel n p
guess_channel n mode (some channel) p = if is_station mode then channel else keep_channel n p

-- The fields of the first half of copy_nodeinfo, without those of announcements.
unfoldable pub copy_general : Info → ℕ → Packet → Info
copy_general n now p = record n {
  wlan_src = p.wlan_ta;
  rx_only = false;
  wlan_bssid = if mac_empty p.wlan_bssid then n.wlan_bssid else p.wlan_bssid;
  last_seen = now;
  pkt_count = u32 (n.pkt_count + 1);
  pkt_types = bit_or n.pkt_types p.pkt_types;
  ip_src = or_keep p.ip_src n.ip_src;
  wlan_mode = bit_or n.wlan_mode p.wlan_mode;
  olsr_tc = or_keep p.olsr_tc n.olsr_tc;
  olsr_neigh = or_keep p.olsr_neigh n.olsr_neigh;
  bat_gw = p.bat_gw || n.bat_gw;
  wlan_ht40plus = p.wlan_ht40plus || n.wlan_ht40plus;
  wlan_tx_streams = or_keep p.wlan_tx_streams n.wlan_tx_streams;
  wlan_rx_streams = or_keep p.wlan_rx_streams n.wlan_rx_streams;
}

-- What an announcement tells, and the channel.
unfoldable pub copy_announced : Info → Option ℕ → Packet → Info
copy_announced n ap_channel p =
    if is_announcement p.wlan_type
    then record n {
      wlan_tsf = p.wlan_tsf;
      wlan_bintval = p.wlan_bintval;
      wlan_wpa = p.wlan_wpa;
      wlan_rsn = p.wlan_rsn;
      wlan_channel = p.wlan_channel;
    }
    else record n { wlan_channel = guess_channel n n.wlan_mode ap_channel p }

-- The signal. The count of samples is an int whose overflow is undefined.
unfoldable pub copy_signal : Info → Packet → Info
copy_signal n p = record n {
  phy_rate_last = p.phy_rate;
  phy_sig_last = p.phy_signal;
  phy_sig_avg = ewma_add n.phy_sig_avg (negated p.phy_signal);
  phy_sig_sum = u64 (n.phy_sig_sum + negated p.phy_signal);
  phy_sig_count = n.phy_sig_count + 1;
  phy_sig_max =
      if ltb_ℤ n.phy_sig_max p.phy_signal || n.phy_sig_max ==ℤ pos 0
      then p.phy_signal
      else n.phy_sig_max;
}

-- The retries, counted as long as the sequence number stays.
unfoldable pub copy_retries : Info → Packet → Info
copy_retries n p =
    let again = p.wlan_retry && p.wlan_seqno == n.wlan_seqno in
    if p.wlan_seqno == 0 then n else record n {
      wlan_retries_all = if again then u32 (n.wlan_retries_all + 1) else n.wlan_retries_all;
      wlan_retries_last = if again then u32 (n.wlan_retries_last + 1) else 0;
      wlan_seqno = p.wlan_seqno;
    }

-- The standard that width, rate and type of a packet suggest.
abbrev pub guess_std : Packet → Standard
guess_std p =
    max_std
      (max_std (std_from_chan p.wlan_chan_width p.wlan_channel)
        (std_from_rate p.phy_rate_idx p.wlan_channel))
      (std_from_type p.wlan_type)

unfoldable pub copy_width : Info → Packet → Info
copy_width n p = record n {
  wlan_chan_width =
      if width_lt n.wlan_chan_width p.wlan_chan_width then p.wlan_chan_width else n.wlan_chan_width;
  wlan_std = max_std n.wlan_std (guess_std p);
}

-- `n->wlan_wep = p->wlan_wep` for the types that show it.
unfoldable pub copy_wep : Info → Packet → Info
copy_wep n p = record n { wlan_wep = if shows_wep p.wlan_type then p.wlan_wep else n.wlan_wep }

-- copy_nodeinfo: the node and the packet behind it, with the channel of the node's access point, if it
-- has one, and the time.
unfoldable pub copy_nodeinfo : Info → Option ℕ → ℕ → Packet → Info × Packet
copy_nodeinfo n ap_channel now p =
    let general = copy_announced (copy_general n now p) ap_channel p in
    let counted = copy_retries (copy_wep (copy_signal general p) p) p in
    (copy_width counted p, record p { wlan_retries = counted.wlan_retries_last })

-- The recipient's mode, from the sender's.
abbrev pub rx_mode : ℕ → ℕ → ℕ
rx_mode mode old =
    if mode == mode_ap
    then mode_sta
    else if mode == mode_sta
    then mode_ap
    else if mode == mode_ibss
    then mode_ibss
    else old

-- copy_rx_nodeinfo
unfoldable pub copy_rx_nodeinfo : Info → Option ℕ → ℕ → Packet → Info
copy_rx_nodeinfo n ap_channel now p =
    let mode = rx_mode p.wlan_mode n.wlan_mode in
    copy_wep
      (record n {
        wlan_src = p.wlan_ra;
        wlan_bssid = if mac_empty p.wlan_bssid then n.wlan_bssid else p.wlan_bssid;
        last_seen = now;
        rx_pkt_count = u32 (n.rx_pkt_count + 1);
        pkt_types = bit_or n.pkt_types p.pkt_types;
        wlan_mode = mode;
        wlan_channel = guess_channel n mode ap_channel p;
      })
      p
