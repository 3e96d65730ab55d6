-- ===== src/Raw/Prism.antt =====
-- uwifi_parse_prism_header of linux/raw_parser.c, for the header of linux/prism_header.h.
use libuwifi.Base.{
  ℕ, ◌+◌, ◌*◌, ◌<◌, ◌≤◌, ◌≡◌, refl, ℤ, pos, ◌&&◌, ◌||◌, Option, some, List, ◌>>=◌, ◌==◌, ltb, ltb_ℤ,
  if◌then◌else◌, le32, u32, int32, minus_one, bit_or, length, Succeeds, arith, inl, inr, ◌⊎◌, subst,
  >>=-eq-some, if_cases, bind-Succeeds, if-Succeeds, succeeds, le32-Succeeds,
}
use libuwifi.Store.{some_inj}
use libuwifi.Wlan.Rates.{rate_to_index}
use libuwifi.Parser.Packet.{Packet}

-- sizeof(wlan_ng_prism2_header): two words, 16 bytes of a name and ten items of 12 bytes.
abbrev pub prism_size : ℕ
prism_size = 4 + 4 + 16 + 10 * 12

-- The offset of the `data` of an item, from the item's number; the words are those of a little-endian host.
abbrev pub data_at : ℕ → ℕ
data_at item = 4 + 4 + 16 + 12 * item + 8

-- The signal: the words are ints, and the driver decides which of them is one in dBm.
abbrev pub prism_signal : ℕ → ℕ → ℕ → ℤ
prism_signal noise rssi signal =
    if ltb_ℤ (int32 noise) (pos 0)
    then int32 signal
    else if ltb_ℤ (int32 rssi) (pos 0)
    then int32 rssi
    else int32 signal

-- The rate, or a minimal rate for the channel where it is impossible.
abbrev pub prism_rate : ℕ → ℕ → ℕ
prism_rate rate channel =
    if rate == 0 || ltb 1080 rate then (if ltb 14 channel then 120 else 20) else rate

-- The packet with what the header tells: PHY_FLAG_A or PHY_FLAG_G, and PHY_FLAG_SHORTPRE.
abbrev pub prism_packet : Packet → ℕ → ℕ → ℕ → ℕ → ℕ → Packet
prism_packet p channel rssi signal noise rate =
    let phy_rate = prism_rate (u32 (rate * 10)) channel in
    record p {
      phy_signal = prism_signal noise rssi signal;
      phy_rate = phy_rate;
      phy_rate_idx = rate_to_index phy_rate;
      phy_flags = bit_or (bit_or p.phy_flags (if ltb 14 channel then 4 else 16)) 1;
    }

-- uwifi_parse_prism_header: the value it returns, and the packet behind it.
unfoldable pub parse_prism_header : List ℕ → ℤ → Packet → Option (ℤ × Packet)
parse_prism_header buf len p =
    if ltb_ℤ (pos 0) len && ltb_ℤ len (pos prism_size)
    then some (minus_one, p)
    else (le32 buf (data_at 6) >>= λ noise. le32 buf (data_at 3) >>= λ rssi.
        le32 buf (data_at 5) >>= λ signal. le32 buf (data_at 7) >>= λ rate.
        le32 buf (data_at 2) >>= λ channel.
        some (pos prism_size, prism_packet p channel rssi signal noise rate))

-- What holds of a result of the parser: an error and the packet as it was, or the size of the header and a
-- rate of up to 108 Mbit/s.
pub record IsPrism (p : Packet) (r : ℤ × Packet) : Type 0 where
  pub value : (r.0 ≡ minus_one) ⊎ (r.0 ≡ pos prism_size)
  pub rejected : r.0 ≡ minus_one → r.1 ≡ p
  pub rate_low : r.0 ≡ pos prism_size → 0 < r.1.phy_rate
  pub rate_high : r.0 ≡ pos prism_size → r.1.phy_rate ≤ 1080

prism_rate_bounds :
    (rate channel : ℕ) → (0 < prism_rate rate channel) × (prism_rate rate channel ≤ 1080)
prism_rate_bounds rate channel = ground arith

short-IsPrism : (p : Packet) → IsPrism p (minus_one, p)
short-IsPrism p = record {
  value = inl refl;
  rejected = λ e. refl;
  rate_low = λ e. absurd (cc);
  rate_high = λ e. absurd (cc);
}

read-IsPrism :
    (p : Packet) (channel rssi signal noise rate : ℕ)
    → IsPrism p (pos prism_size, prism_packet p channel rssi signal noise rate)
read-IsPrism p channel rssi signal noise rate = record {
  value = inr refl;
  rejected = λ e. absurd (cc);
  rate_low = λ e. (prism_rate_bounds (u32 (rate * 10)) channel).0;
  rate_high = λ e. (prism_rate_bounds (u32 (rate * 10)) channel).1;
}

-- Every result.
pub parse_prism_header-IsPrism :
    (buf : List ℕ) (len : ℤ) (p : Packet) (r : ℤ × Packet)
    → parse_prism_header buf len p ≡ some r
    → IsPrism p r
unfolding parse_prism_header
parse_prism_header-IsPrism buf len p r e =
    elim (if_cases (ltb_ℤ (pos 0) len && ltb_ℤ len (pos prism_size)) _ _ e) [
      | inl (short, e1) ↦ subst (IsPrism p) (some_inj e1) (short-IsPrism p)
      | inr (long, e1) ↦
          let (noise, at1, e2) = >>=-eq-some (le32 buf (data_at 6)) _ e1 in
          let (rssi, at2, e3) = >>=-eq-some (le32 buf (data_at 3)) _ e2 in
          let (signal, at3, e4) = >>=-eq-some (le32 buf (data_at 5)) _ e3 in
          let (rate, at4, e5) = >>=-eq-some (le32 buf (data_at 7)) _ e4 in
          let (channel, at5, e6) = >>=-eq-some (le32 buf (data_at 2)) _ e5 in
          subst (IsPrism p) (some_inj e6) (read-IsPrism p channel rssi signal noise rate)
    ]

-- The header is never read out of bounds in memory of its size.
pub parse_prism_header-Succeeds :
    (buf : List ℕ) (len : ℤ) (p : Packet)
    → prism_size ≤ length buf
    → Succeeds (parse_prism_header buf len p)
unfolding parse_prism_header
parse_prism_header-Succeeds buf len p room =
    if-Succeeds (ltb_ℤ (pos 0) len && ltb_ℤ len (pos prism_size)) (λ e. succeeds)
      λ e. bind-Succeeds (le32-Succeeds buf (data_at 6) (omega arith)) λ noise e1.
        bind-Succeeds (le32-Succeeds buf (data_at 3) (omega arith)) λ rssi e2.
          bind-Succeeds (le32-Succeeds buf (data_at 5) (omega arith)) λ signal e3.
            bind-Succeeds (le32-Succeeds buf (data_at 7) (omega arith)) λ rate e4.
              bind-Succeeds (le32-Succeeds buf (data_at 2) (omega arith)) (λ channel e5. succeeds)
