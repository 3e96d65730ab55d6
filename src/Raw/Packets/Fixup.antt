-- ===== src/Raw/Packets/Fixup.antt =====
-- The channel that uwifi_fixup_packet_channel of linux/raw_parser.c finds.
use libuwifi.Base.{
  ℕ, ◌≡◌, refl, sym, ap, ◌∙◌, pos, ◌⊎◌, inl, inr, Bool, true, false, Bool-cases, arith, ltb_ℤ,
  leb_ℤ, ◌==◌,
}
use libuwifi.Parser.Packet.{Packet}
use libuwifi.Channel.Types.{ChanFreq, Interface}
use libuwifi.Channel.Table.{visited}
use libuwifi.Channel.Table.Scan.{Absent, FirstAt, idx_from_freq-Found}
use libuwifi.Raw.Packets.{packet_idx, fixup_packet_channel}

-- The channel has the frequency of the packet.
abbrev pub on_freq : Packet → ChanFreq → Bool
on_freq p c = c.freq == p.phy_freq

-- The packet is on the first channel of the table that has its frequency, or, without a frequency or such a
-- channel, on that of the interface; an interface that does not know its channel takes that of the packet.
pub record IsFixed (p : Packet) (intf : Interface) (r : Packet × Interface) : Type 0 where
  pub channel :
      ((k : ℕ) × (r.0.pkt_chan_idx ≡ pos k)
        × FirstAt (on_freq p) intf.channels.chan (visited intf.channels) k)
      ⊎ ((r.0.pkt_chan_idx ≡ intf.channel_idx)
          × ((p.phy_freq ≡ 0) ⊎ Absent (on_freq p) intf.channels.chan (visited intf.channels)))
  pub kept : ltb_ℤ intf.channel_idx (pos 0) ≡ false → r.1.channel_idx ≡ intf.channel_idx
  pub learned : ltb_ℤ intf.channel_idx (pos 0) ≡ true → r.1.channel_idx ≡ r.0.pkt_chan_idx
  pub announced : (p.wlan_channel == 0) ≡ false → r.0.wlan_channel ≡ p.wlan_channel

located :
    (p : Packet) (intf : Interface)
    → ((k : ℕ) × (packet_idx p intf ≡ pos k)
        × FirstAt (on_freq p) intf.channels.chan (visited intf.channels) k)
      ⊎ ((packet_idx p intf ≡ intf.channel_idx)
          × ((p.phy_freq ≡ 0) ⊎ Absent (on_freq p) intf.channels.chan (visited intf.channels)))
located p intf = elim (Bool-cases (p.phy_freq == 0)) [
  | inl zero_freq ↦ inr (rw zero_freq refl, inl (ground arith))
  | inr known ↦ elim (idx_from_freq-Found intf.channels p.phy_freq) [
    | inl (k, at, first) ↦ inl (k, rw (known, at) (ground arith), first)
    | inr (missing, absent) ↦ inr (rw (known, missing) refl, inr absent)
  ]
]

-- A negative index is that of the interface.
unlocated :
    (p : Packet) (intf : Interface)
    → leb_ℤ (pos 0) (packet_idx p intf) ≡ false
    → intf.channel_idx ≡ packet_idx p intf
unlocated p intf e = elim (located p intf) [
  | inl (k, at, first) ↦
      let clash : false ≡ true = sym e ∙ ap (leb_ℤ (pos 0)) at ∙ ground arith in absurd (cc)
  | inr (same, why) ↦ sym same
]

-- uwifi_fixup_packet_channel gives a packet the index of the first channel of the table with its
-- frequency, and that of the interface if it has no frequency or no channel has it; an interface
-- without a channel gets that index, another one keeps its own, and a channel that the packet
-- announces stays.
pub fixup_packet_channel-IsFixed :
    (p : Packet) (intf : Interface) → IsFixed p intf (fixup_packet_channel p intf)
unfolding fixup_packet_channel
fixup_packet_channel-IsFixed p intf = record {
  channel = located p intf;
  kept = λ e. rw e refl;
  learned = λ e. elim (Bool-cases (leb_ℤ (pos 0) (packet_idx p intf))) [
    | inl known ↦ rw (e, known) refl
    | inr unknown ↦ rw (e, unknown) (unlocated p intf unknown)
  ];
  announced = λ e. rw e refl;
}
