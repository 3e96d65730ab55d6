-- ===== src/Raw/Packets/Slack.antt =====
-- When uwifi_parse_raw of linux/raw_parser.c reads only its memory.
use libuwifi.Base.{
  ℕ, zero, suc, ◌+◌, ◌-◌, ◌<◌, ◌≤◌, ◌^◌, ◌≡◌, ℤ, pos, negsuc, some, List, leb, drop, length,
  length-drop, arith, Succeeds, succeeds, bind-Succeeds, if-Succeeds, IsBytes, drop-IsBytes, u32,
  int32,
}
use libuwifi.Parser.Packet.{Packet}
use libuwifi.Parser.Header.Slack.{parse_80211_header-Succeeds}
use libuwifi.Raw.Prism.{parse_prism_header-Succeeds}
use libuwifi.Raw.Radiotap.{RadiotapLib, RadiotapLaws}
use libuwifi.Raw.Radiotap.Result.{parse_radiotap-Succeeds}
use libuwifi.Raw.Packets.{
  Arphrd, ieee80211_prism, ieee80211_radiotap, other_arphrd, parse_raw_header, parse_raw_frame,
  parse_raw,
}

module _ (buf : List ℕ) (len : ℕ) (bs : IsBytes buf) (slack : len + 255 ≤ length buf)
    (small : len < 2 ^ 31) where
  frame-Succeeds : (ret : ℤ) (p : Packet) → Succeeds (parse_raw_frame buf len ret p)
  frame-Succeeds (negsuc n) p = succeeds
  frame-Succeeds (pos zero) p = succeeds
  frame-Succeeds (pos (suc k)) p =
      if-Succeeds (leb len (suc k)) (λ e. succeeds)
        λ e.
          bind-Succeeds
            (parse_80211_header-Succeeds (drop (suc k) buf) (len - suc k)
              (drop-IsBytes (suc k) buf bs) (ground (arith, e, length-drop {0} (suc k) buf))
              (omega arith) p)
            (λ r e1. succeeds)

  module _ (lib : RadiotapLib) (laws : RadiotapLaws lib) (room : lib.header_size ≤ length buf)
      (inside : (n : ℕ) → lib.it_len buf ≡ some n → n ≤ length buf) where
    header-Succeeds :
        (p : Packet) (arphrd : Arphrd) → Succeeds (parse_raw_header lib buf len p arphrd)
    header-Succeeds p ieee80211_prism =
        parse_prism_header-Succeeds buf (int32 (u32 len)) p (omega arith)
    header-Succeeds p ieee80211_radiotap = parse_radiotap-Succeeds lib buf laws len p room inside
    header-Succeeds p other_arphrd = succeeds

    -- For a packet of bytes shorter than 2^31 in memory with 255 bytes behind it, which also holds
    -- the fixed part of the radiotap header and the length that it states, uwifi_parse_raw returns
    -- without a read out of bounds, if the radiotap library reads and gives only what lies within
    -- the length that it is told.
    pub parse_raw-Succeeds :
        (p : Packet) (arphrd : Arphrd) → Succeeds (parse_raw lib buf len p arphrd)
    unfolding parse_raw
    parse_raw-Succeeds p arphrd =
        bind-Succeeds (header-Succeeds p arphrd) (λ h e. frame-Succeeds h.0 h.1)
