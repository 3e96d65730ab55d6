-- ===== src/Raw/Packets.antt =====
-- uwifi_parse_raw of linux/raw_parser.c, and uwifi_fixup_packet_channel.
pub mod Bounds
pub mod Slack
pub mod Fixup
use libuwifi.Base.{
  ℕ, zero, suc, ◌-◌, ℤ, pos, negsuc, ◌+ℤ◌, Bool, ◌&&◌, not, Option, some, List, ◌>>=◌, ◌==◌, leb,
  leb_ℤ, ltb_ℤ, if◌then◌else◌, u32, int32, minus_one, drop, uint32_of, u8,
}
use libuwifi.Parser.Packet.{Packet}
use libuwifi.Parser.Header.{parse_80211_header}
use libuwifi.Channel.Types.{Interface}
use libuwifi.Channel.Table.{idx_from_freq, get_chan}
use libuwifi.Raw.Prism.{parse_prism_header}
use libuwifi.Raw.Radiotap.{RadiotapLib, parse_radiotap}

-- The kernel's types of packets: ARPHRD_IEEE80211_PRISM, ARPHRD_IEEE80211_RADIOTAP and all others.
pub data Arphrd : Type 0 where
  ieee80211_prism ieee80211_radiotap other_arphrd : Arphrd

-- The first part of uwifi_parse_raw.
abbrev pub parse_raw_header : RadiotapLib → List ℕ → ℕ → Packet → Arphrd → Option (ℤ × Packet)
parse_raw_header lib buf len p ieee80211_prism = parse_prism_header buf (int32 (u32 len)) p
parse_raw_header lib buf len p ieee80211_radiotap = parse_radiotap lib buf len p
parse_raw_header lib buf len p other_arphrd = some (minus_one, p)

-- The value that is returned, behind a header of `hlen` bytes and the result of the frame parser.
abbrev pub add_header : ℕ → ℤ × Packet → ℤ × Packet
add_header hlen r = (if leb_ℤ r.0 (pos 0) then r.0 else pos hlen +ℤ r.0, r.1)

-- The second part of uwifi_parse_raw, for the value of the first.
abbrev pub parse_raw_frame : List ℕ → ℕ → ℤ → Packet → Option (ℤ × Packet)
parse_raw_frame buf len (negsuc n) p = some (minus_one, p)
parse_raw_frame buf len (pos zero) p = some (pos 0, p)
parse_raw_frame buf len (pos (suc k)) p =
    if leb len (suc k)
    then some (minus_one, p)
    else (parse_80211_header (drop (suc k) buf) (len - suc k) p >>= λ r.
        some (add_header (suc k) r))

-- uwifi_parse_raw: the value it returns, and the packet behind it.
unfoldable pub parse_raw : RadiotapLib → List ℕ → ℕ → Packet → Arphrd → Option (ℤ × Packet)
parse_raw lib buf len p arphrd =
    parse_raw_header lib buf len p arphrd >>= λ h. parse_raw_frame buf len h.0 h.1

-- The index of the channel of a packet, -1 if its frequency is not known or not in the table.
abbrev pub freq_idx : Packet → Interface → ℤ
freq_idx p intf = if p.phy_freq == 0 then minus_one else idx_from_freq intf.channels p.phy_freq

-- The index that a packet gets.
abbrev pub packet_idx : Packet → Interface → ℤ
packet_idx p intf = if ltb_ℤ (freq_idx p intf) (pos 0) then intf.channel_idx else freq_idx p intf

-- uwifi_fixup_packet_channel: the packet and the interface behind it. `wlan_channel` is an unsigned char.
unfoldable pub fixup_packet_channel : Packet → Interface → Packet × Interface
fixup_packet_channel p intf =
    let idx = packet_idx p intf in
    (
      record p {
        pkt_chan_idx = idx;
        wlan_channel =
            if p.wlan_channel == 0 && leb_ℤ (pos 0) idx
            then u8 (uint32_of (get_chan intf.channels idx))
            else p.wlan_channel;
      },
      record intf {
        channel_idx =
            if ltb_ℤ intf.channel_idx (pos 0) && leb_ℤ (pos 0) idx then idx else intf.channel_idx;
      },
    )
