-- ===== src/Parser/Header/Truncated.antt =====
-- Where the header parser of core/wlan_parser.c reads behind the end of a frame.
use libuwifi.Base.{
  ℕ, ◌+◌, ◌≤◌, ◌<◌, ◌≡◌, inl, inr, false, none, List, ◌∷◌, length, le16, le64, arith, ltb,
  bind-none, Option-cases, le16_short, drop, sub64,
}
use libuwifi.Wlan.Frame.{beacon}
use libuwifi.Parser.Packet.{Packet}
use libuwifi.Parser.Elements.{parse_information_elements}
use libuwifi.Parser.Header.{
  parse_80211_header, first_part, parse_mgmt, parse_data, data_addresses, finish, second_part,
  parse_beacon,
}

parse_beacon_short :
    (buf : List ℕ) (len h : ℕ) (p : Packet) → length buf < h + 12 → parse_beacon buf len h p ≡ none
unfolding parse_beacon
parse_beacon_short buf len h p short = bind-none (le64 buf h) λ tsf.
    bind-none (le16 buf (h + 8)) λ bintval.
      bind-none (parse_information_elements (drop (h + 12) buf) (sub64 len (h + 12 + 4)) _)
        λ q. let e : le16 buf (h + 10) ≡ none = le16_short buf (h + 10) (omega arith) in rw e

-- A beacon of 24 to 35 bytes whose frame control has no flag set, in memory of exactly its length,
-- is read out of bounds.
pub truncated_beacon :
    (rest : List ℕ) (p : Packet)
    → 24 ≤ length (beacon ∷ 0 ∷ rest)
    → length (beacon ∷ 0 ∷ rest) < 36
    → parse_80211_header (beacon ∷ 0 ∷ rest) (length (beacon ∷ 0 ∷ rest)) p ≡ none
unfolding parse_80211_header first_part parse_mgmt finish second_part
truncated_beacon rest p long short =
    let e10 : ltb (length (beacon ∷ 0 ∷ rest)) 10 ≡ false = ground arith in
    let e24 : ltb (length (beacon ∷ 0 ∷ rest)) 24 ≡ false = ground arith in
    rw (e10, e24)
      (elim (Option-cases (le16 (beacon ∷ 0 ∷ rest) 22)) [
        | inl fails ↦ rw fails
        | inr (seq, e) ↦ rw e (rw (parse_beacon_short (beacon ∷ 0 ∷ rest) _ 24 _ short))
      ])

-- The four-address QoS data frame, whose A-MSDU flag is read before the length is checked, needs 32 bytes.
pub four_address_qos_short :
    (rest : List ℕ) (p : Packet)
    → 10 ≤ length (0x88 ∷ 0x03 ∷ rest)
    → length (0x88 ∷ 0x03 ∷ rest) < 32
    → parse_80211_header (0x88 ∷ 0x03 ∷ rest) (length (0x88 ∷ 0x03 ∷ rest)) p ≡ none
unfolding parse_80211_header first_part parse_data data_addresses
four_address_qos_short rest p long short =
    let e10 : ltb (length (0x88 ∷ 0x03 ∷ rest)) 10 ≡ false = ground arith in
    rw e10 (rw (le16_short (0x88 ∷ 0x03 ∷ rest) 30 short))
