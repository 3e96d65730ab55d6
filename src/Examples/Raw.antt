-- ===== src/Examples/Raw.antt =====
-- Packets of linux/raw_parser.c on concrete inputs, with an iterator that knows headers of flags and signal.
use Prim.{tt}
use libuwifi.Base.{
  ℕ, ◌≤◌, ◌≡◌, refl, true, none, some, List, [], ◌∷◌, le16, leb, test_bit, length, replicate,
  if◌then◌else◌, arith, Succeeds, succeeds, le16-Succeeds, IsBytes, if_cases, inl, inr, negsuc,
  subst,
}
use libuwifi.Store.{some_inj}
use libuwifi.Parser.Packet.{Packet}
use libuwifi.Raw.Radiotap.{
  RadiotapLib, RadiotapLaws, Arg, rt_flags, rt_dbm_antsignal, AllWithin, get_all, get_radiotap_info,
  parse_radiotap,
}
use libuwifi.Raw.Radiotap.Result.{IsRadiotap, parse_radiotap-IsRadiotap, parse_radiotap-Succeeds}
use libuwifi.Raw.Radiotap.Signal.{IsBest, signals, get_all-IsBest}
use libuwifi.Raw.Packets.{ieee80211_radiotap, parse_raw, fixup_packet_channel}
use libuwifi.Raw.Packets.Bounds.{IsValue, parse_raw-IsValue}
use libuwifi.Raw.Packets.Slack.{parse_raw-Succeeds}
use libuwifi.Raw.Packets.Fixup.{IsFixed, fixup_packet_channel-IsFixed}
use libuwifi.Examples.Frames.{no_packet, replicate-IsBytes}
use libuwifi.Examples.Hopping.{scanning}

abbrev two_fields : List Arg
two_fields =
    record { index = rt_flags; this_arg = 8; is_radiotap_ns = true }
    ∷ record { index = rt_dbm_antsignal; this_arg = 9; is_radiotap_ns = true }
    ∷ []

abbrev small_lib : RadiotapLib
small_lib = record {
  header_size = 8;
  it_len = λ buf. le16 buf 2;
  iterate = λ buf n. some (if leb 10 n then some two_fields else none);
  is_shortpre = λ b. test_bit b 1;
  is_badfcs = λ b. test_bit b 6;
  is_5ghz = λ x. test_bit x 8;
  is_2ghz = λ x. test_bit x 7;
  is_ofdm = λ x. test_bit x 6;
  have_bw = λ b. test_bit b 0;
  have_gi = λ b. test_bit b 2;
  is_bw_20 = λ b. test_bit b 0;
  is_sgi = λ b. test_bit b 2;
}

small_within :
    (n : ℕ) (args : List Arg)
    → (if leb 10 n then some two_fields else none) ≡ some args
    → AllWithin n args
small_within n args e = elim (if_cases (leb 10 n) (some two_fields) none e) [
  | inl (long, same) ↦
      subst (AllWithin n) (some_inj same) (ground (arith, long), (ground (arith, long), tt))
  | inr (short, same) ↦ absurd (cc)
]

small_laws : RadiotapLaws small_lib
small_laws = record {
  it_len_runs = λ buf h. le16-Succeeds buf 2 (omega arith);
  iterate_runs = λ buf n h. succeeds;
  iterate_within = λ buf n args e. small_within n args (some_inj e);
}

-- A header of ten bytes with a signal of -56 dBm, then zeros.
abbrev raw_packet : List ℕ
raw_packet = 0 ∷ 0 ∷ 10 ∷ 0 ∷ 0 ∷ 0 ∷ 0 ∷ 0 ∷ 0 ∷ 200 ∷ replicate 300 0

raw_packet-IsBytes : IsBytes raw_packet
raw_packet-IsBytes = (
  omega arith,
  (
    omega arith,
    (
      omega arith,
      (
        omega arith,
        (
          omega arith,
          (
            omega arith,
            (omega arith, (omega arith, (omega arith, (omega arith, replicate-IsBytes 300)))),
          ),
        ),
      ),
    ),
  ),
)

header_inside : (n : ℕ) → le16 raw_packet 2 ≡ some n → n ≤ length raw_packet
header_inside n e = let ten : 10 ≡ n = some_inj e in omega arith

raw_parsed : Succeeds (parse_raw small_lib raw_packet 40 no_packet ieee80211_radiotap)
raw_parsed =
    parse_raw-Succeeds raw_packet 40 raw_packet-IsBytes (omega arith) (omega arith) small_lib
      small_laws (omega arith) header_inside no_packet ieee80211_radiotap

parse_raw-Succeeds_example :
    Succeeds (parse_raw small_lib raw_packet 40 no_packet ieee80211_radiotap)
parse_raw-Succeeds_example =
    parse_raw-Succeeds raw_packet 40 raw_packet-IsBytes (omega arith) (omega arith) small_lib
      small_laws (omega arith) header_inside no_packet ieee80211_radiotap

parse_raw-IsValue_example :
    IsValue small_lib raw_packet 40 no_packet ieee80211_radiotap raw_parsed.result
parse_raw-IsValue_example =
    parse_raw-IsValue small_lib raw_packet 40 no_packet ieee80211_radiotap raw_parsed.result
      raw_parsed.runs

radiotap_parsed : Succeeds (parse_radiotap small_lib raw_packet 40 no_packet)
radiotap_parsed =
    parse_radiotap-Succeeds small_lib raw_packet small_laws 40 no_packet (omega arith) header_inside

parse_radiotap-IsRadiotap_example : IsRadiotap small_lib raw_packet no_packet radiotap_parsed.result
parse_radiotap-IsRadiotap_example =
    parse_radiotap-IsRadiotap small_lib raw_packet 40 no_packet radiotap_parsed.result
      radiotap_parsed.runs

-- The packet behind the two fields.
abbrev loud_packet : Packet
loud_packet = record no_packet { phy_signal = negsuc 55 }

fields_read : get_all small_lib raw_packet two_fields no_packet ≡ some loud_packet
unfolding get_all get_radiotap_info
fields_read = refl

get_all-IsBest_example :
    IsBest (signals raw_packet two_fields) no_packet.phy_signal loud_packet.phy_signal
get_all-IsBest_example =
    get_all-IsBest small_lib raw_packet two_fields no_packet loud_packet refl fields_read

fixup_packet_channel-IsFixed_example :
    IsFixed
      (record no_packet { phy_freq = 5200 })
      scanning
      (fixup_packet_channel (record no_packet { phy_freq = 5200 }) scanning)
fixup_packet_channel-IsFixed_example =
    fixup_packet_channel-IsFixed (record no_packet { phy_freq = 5200 }) scanning
