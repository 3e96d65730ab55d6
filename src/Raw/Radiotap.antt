-- ===== src/Raw/Radiotap.antt =====
-- uwifi_parse_radiotap of linux/raw_parser.c. The iterator over the fields of a radiotap header is another
-- project's code, which the definitions take as a parameter.
pub mod Result
pub mod Signal
use Prim.{Unit}
use libuwifi.Base.{
  ℕ, ◌+◌, ◌*◌, ◌<◌, ◌≤◌, ◌≡◌, ◌^◌, ℤ, pos, Bool, true, false, ◌&&◌, ◌||◌, not, Option, none, some,
  List, [], ◌∷◌, ◌>>=◌, ◌==◌, ◌==ℤ◌, ltb, ltb_ℤ, leb, if◌then◌else◌, get_elem?, le16, u8, negsuc,
  ◌-◌, minus_one, bit_or, test_bit, length, Succeeds,
}
use libuwifi.Wlan.Rates.{rate_to_index, ht_mcs_to_rate}
use libuwifi.Parser.Packet.{Packet}

-- The fields that get_radiotap_info tells apart, IEEE80211_RADIOTAP_TSFT and so on.
pub data Field : Type 0 where
  rt_tsft rt_fhss rt_lock_quality rt_tx_attenuation rt_db_tx_attenuation rt_dbm_tx_power : Field
  rt_rx_flags rt_rts_retries rt_data_retries rt_ampdu_status rt_tx_flags rt_flags rt_rate : Field
  rt_channel rt_dbm_antsignal rt_dbm_antnoise rt_antenna rt_db_antsignal rt_db_antnoise : Field
  rt_mcs rt_other : Field

-- What the iterator tells of a field: `this_arg_index`, the offset of `this_arg` in the buffer, and
-- `is_radiotap_ns`.
pub record Arg : Type 0 where
  pub index : Field
  pub this_arg : ℕ
  pub is_radiotap_ns : Bool

-- The code and the constants of the radiotap library: the size of the header and its field `it_len`; the
-- fields that the iterator gives for a buffer and a maximal length, none if it rejects the header; and the
-- tests of bits that the constants IEEE80211_RADIOTAP_F_, IEEE80211_CHAN_ and IEEE80211_RADIOTAP_MCS_ name.
pub record RadiotapLib : Type 0 where
  pub header_size : ℕ
  pub it_len : List ℕ → Option ℕ
  pub iterate : List ℕ → ℕ → Option (Option (List Arg))
  pub is_shortpre : ℕ → Bool
  pub is_badfcs : ℕ → Bool
  pub is_5ghz : ℕ → Bool
  pub is_2ghz : ℕ → Bool
  pub is_ofdm : ℕ → Bool
  pub have_bw : ℕ → Bool
  pub have_gi : ℕ → Bool
  pub is_bw_20 : ℕ → Bool
  pub is_sgi : ℕ → Bool

-- The number of bytes that get_radiotap_info reads of a field.
abbrev pub bytes_read : Field → ℕ
bytes_read rt_flags = 1
bytes_read rt_rate = 1
bytes_read rt_channel = 4
bytes_read rt_dbm_antsignal = 1
bytes_read rt_mcs = 3
bytes_read f = 0

-- Every field ends within the first `n` bytes.
abbrev pub AllWithin : ℕ → List Arg → Type 0
AllWithin n [] = Unit {0}
AllWithin n (arg ∷ args) = (arg.this_arg + bytes_read arg.index ≤ n) × AllWithin n args

-- What the radiotap library promises: a header has a length field, and the iterator neither reads
-- nor gives a field beyond the maximal length.
pub record RadiotapLaws (lib : RadiotapLib) : Type 0 where
  pub it_len_runs : (buf : List ℕ) → lib.header_size ≤ length buf → Succeeds (lib.it_len buf)
  pub iterate_runs : (buf : List ℕ) (n : ℕ) → n ≤ length buf → Succeeds (lib.iterate buf n)
  pub iterate_within :
      (buf : List ℕ) (n : ℕ) (args : List Arg)
      → lib.iterate buf n ≡ some (some args)
      → AllWithin n args

-- The signed char of a byte.
abbrev pub int8 : ℕ → ℤ
int8 b = if leb 128 b then negsuc (255 - b) else pos b

-- `phy_flags |= flag` where the test holds.
abbrev pub flag_if : Bool → ℕ → ℕ → ℕ
flag_if test flag flags = if test then bit_or flags flag else flags

-- PHY_FLAG_A, PHY_FLAG_G or PHY_FLAG_B, from the flags of the channel.
abbrev pub channel_flag : RadiotapLib → ℕ → ℕ → ℕ
channel_flag lib x flags =
    if lib.is_5ghz x && lib.is_ofdm x
    then bit_or flags 4
    else if lib.is_2ghz x && lib.is_ofdm x
    then bit_or flags 16
    else if lib.is_2ghz x
    then bit_or flags 8
    else flags

-- The highest value of the receive chains that is a signal in dBm.
abbrev pub best_signal : ℤ → ℤ → ℤ
best_signal c old = if ltb_ℤ c (pos 0) && (old ==ℤ pos 0 || ltb_ℤ old c) then c else old

-- What a field of MCS information says.
abbrev pub mcs_packet : RadiotapLib → ℕ → ℕ → ℕ → Packet → Packet
mcs_packet lib known flags mcs p =
    let ht20 = if lib.have_bw known then lib.is_bw_20 flags else true in
    let lgi = if lib.have_gi known then not (lib.is_sgi flags) else true in
    record p {
      phy_rate_idx = u8 (12 + mcs);
      phy_rate_flags = flags;
      phy_rate = ht_mcs_to_rate (pos mcs) ht20 lgi;
    }

-- get_radiotap_info
unfoldable pub get_radiotap_info : RadiotapLib → List ℕ → Field → ℕ → Packet → Option Packet
get_radiotap_info lib buf rt_tx_flags at p = some (record p { phy_injected = true })
get_radiotap_info lib buf rt_flags at p = get_elem? buf at >>= λ b. some (record p {
  phy_flags = flag_if (lib.is_badfcs b) 2 (flag_if (lib.is_shortpre b) 1 p.phy_flags);
})
get_radiotap_info lib buf rt_rate at p = get_elem? buf at >>= λ b.
    some (record p { phy_rate = b * 5; phy_rate_idx = rate_to_index (b * 5) })
get_radiotap_info lib buf rt_channel at p = le16 buf at >>= λ freq. le16 buf (at + 2) >>= λ x.
    some (record p { phy_freq = freq; phy_flags = channel_flag lib x p.phy_flags })
get_radiotap_info lib buf rt_dbm_antsignal at p =
    get_elem? buf at >>= λ b. some (record p { phy_signal = best_signal (int8 b) p.phy_signal })
get_radiotap_info lib buf rt_mcs at p = get_elem? buf at >>= λ known.
    get_elem? buf (at + 1) >>= λ flags.
    get_elem? buf (at + 2) >>= λ mcs. some (mcs_packet lib known flags mcs p)
get_radiotap_info lib buf f at p = some p

-- The loop over the fields.
unfoldable pub get_all : RadiotapLib → List ℕ → List Arg → Packet → Option Packet
get_all lib buf [] p = some p
get_all lib buf (arg ∷ args) p =
    (if arg.is_radiotap_ns then get_radiotap_info lib buf arg.index arg.this_arg p else some p)
    >>= λ q. get_all lib buf args q

-- A minimal rate for the mode.
abbrev pub min_rate : ℕ → ℕ
min_rate flags =
    if test_bit flags 2
    then 120
    else if test_bit flags 3
    then 20
    else if test_bit flags 4
    then 120
    else 20

-- The rate behind the loop, replaced where it is impossible.
abbrev pub sanitize : Packet → Packet
sanitize p = record p {
  phy_rate = if p.phy_rate == 0 || ltb 6000 p.phy_rate then min_rate p.phy_flags else p.phy_rate;
}

-- The value returned for a header of the given length: 0 for a bad FCS.
abbrev pub radiotap_value : ℕ → Packet → ℤ
radiotap_value rt_len p = if test_bit p.phy_flags 1 then pos 0 else pos rt_len

-- The loop and what follows it, for the fields that the iterator gives.
abbrev pub after_init : RadiotapLib → List ℕ → ℕ → Packet → Option (List Arg) → Option (ℤ × Packet)
after_init lib buf rt_len p none = some (minus_one, p)
after_init lib buf rt_len p (some args) =
    get_all lib buf args p >>= λ q. some (radiotap_value rt_len q, sanitize q)

-- uwifi_parse_radiotap: the value it returns, and the packet behind it.
unfoldable pub parse_radiotap : RadiotapLib → List ℕ → ℕ → Packet → Option (ℤ × Packet)
parse_radiotap lib buf len p = lib.it_len buf >>= λ rt_len.
    if ltb len lib.header_size
    then some (minus_one, p)
    else (lib.iterate buf rt_len >>= λ args. after_init lib buf rt_len p args)
