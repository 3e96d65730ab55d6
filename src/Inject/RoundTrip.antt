-- ===== src/Inject/RoundTrip.antt =====
-- A created beacon or probe response (core/inject.c) is parsed back (core/wlan_parser.c).
use libuwifi.Base.{
  drop, ℕ, ◌+◌, ◌*◌, ◌/◌, ◌%◌, ◌^◌, ◌<◌, ◌≡◌, refl, Bool, true, false, some, List, [], ◌∷◌, ◌++◌,
  if◌then◌else◌, length, length-append, bytes, u8, u16, u64, arith, pos, ltb, sub64, u32, replicate,
  field,
}
use libuwifi.Parser.Packet.{Packet}
use libuwifi.Parser.Elements.{
  parse_element, parse_information_elements, ie_ssid, ie_supp_rates, ie_dsss_param,
}
use libuwifi.Parser.Elements.Tlv.{Element, encode, parse_information_elements-encode}
use libuwifi.Parser.Header.{parse_80211_header, second_part}
use libuwifi.Inject.{create_beacon_probe_response, supprates, beacon_elements}

-- A hardware address.
pub record Mac : Type 0 where
  pub m0 : ℕ
  pub m1 : ℕ
  pub m2 : ℕ
  pub m3 : ℕ
  pub m4 : ℕ
  pub m5 : ℕ

abbrev pub mac_bytes : Mac → List ℕ
mac_bytes m = m.m0 ∷ m.m1 ∷ m.m2 ∷ m.m3 ∷ m.m4 ∷ m.m5 ∷ []

bytes-length : (xs : List ℕ) → bytes (length xs) xs ≡ some xs
bytes-length [] = refl
bytes-length (x ∷ xs) = rw (bytes-length xs)

-- The elements of the frame, as a list.
abbrev elements : List ℕ → ℕ → List Element
elements essid channel =
    record { id = ie_ssid; payload = essid }
    ∷ record { id = ie_supp_rates; payload = supprates }
    ∷ record { id = ie_dsss_param; payload = u8 channel ∷ [] }
    ∷ []

-- The elements behind the SSID.
abbrev fixed_elements : ℕ → List ℕ
fixed_elements channel = ie_supp_rates ∷ 8 ∷ (supprates ++ ie_dsss_param ∷ 1 ∷ u8 channel ∷ [])

elements_parsed :
    (essid fcs : List ℕ) (channel len : ℕ) (p : Packet)
    → length essid < 33
    → len ≡ length essid + 15
    → parse_information_elements (beacon_elements essid channel ++ fcs) len p
      ≡ some (record p {
        wlan_essid = essid ++ 0 ∷ drop (length essid + 1) p.wlan_essid;
        wlan_channel = u8 channel;
      })
unfolding parse_element
elements_parsed essid fcs channel len p short e =
    let n8 : u8 (length essid) ≡ length essid = omega arith in
    let stored : (if ltb (length essid) 33 then length essid else 33) ≡ length essid =
      ground arith in
    let size : length (encode (elements essid channel)) ≡ length essid + 15 =
      omega (arith, length-append {0} essid (fixed_elements channel)) in
    rw (n8, e, ← size)
      (parse_information_elements-encode (elements essid channel) fcs p _ (omega arith)
        (omega arith) (rw (stored, bytes-length essid)))

abbrev frame_kind : Bool → ℕ
frame_kind probe = if probe then 0x50 else 0x80

-- The receiver of the frame: the broadcast address in a beacon.
abbrev receiver : Bool → Mac → List ℕ
receiver probe da = if probe then mac_bytes da else replicate 6 0xff

-- What the parser stores for such a frame. The SSID is stored with a zero behind it, in front of what the
-- array had there.
abbrev pub parsed :
    Bool → (sa da bssid : Mac) (essid : List ℕ) (tsf channel bintval seqno : ℕ) → Packet → Packet
parsed probe sa da bssid essid tsf channel bintval seqno p = record p {
  wlan_len = length essid + 55;
  wlan_fromds = false;
  wlan_tods = false;
  wlan_type = frame_kind probe;
  wlan_ta = mac_bytes sa;
  wlan_ra = receiver probe da;
  wlan_bssid = mac_bytes bssid;
  wlan_essid = essid ++ 0 ∷ drop (length essid + 1) p.wlan_essid;
  wlan_tsf = tsf;
  wlan_bintval = bintval;
  wlan_mode = 1;
  wlan_channel = channel;
  wlan_seqno = seqno % 4096;
}

-- The numbers that the parser puts together again.
record Joined (len tsf bintval channel seqno : ℕ) : Type 0 where
  len_eq : u32 len ≡ len
  tsf_eq :
      u64 tsf % 256
        + 256 * (u64 tsf / 256 % 256)
        + 65536 * (u64 tsf / 65536 % 256 + 256 * (u64 tsf / 16777216 % 256))
        + 4294967296
          * (u64 tsf / 4294967296 % 256
              + 256 * (u64 tsf / 4294967296 / 256 % 256)
              + 65536
                * (u64 tsf / 4294967296 / 65536 % 256
                    + 256 * (u64 tsf / 4294967296 / 16777216 % 256)))
      ≡ tsf
  bintval_eq : u16 bintval % 256 + 256 * (u16 bintval / 256 % 256) ≡ bintval
  channel_eq : u8 channel ≡ channel
  seqno_eq :
      field (u16 (seqno * 16) % 256 + 256 * (u16 (seqno * 16) / 256 % 256)) 4 12 ≡ seqno % 4096

joined :
    (len tsf bintval channel seqno : ℕ)
    → len < 2 ^ 32
    → tsf < 2 ^ 64
    → bintval < 2 ^ 16
    → channel < 2 ^ 8
    → Joined len tsf bintval channel seqno
joined len tsf bintval channel seqno hl ht hb hc = record {
  len_eq = omega arith;
  tsf_eq = omega arith;
  bintval_eq = omega arith;
  channel_eq = omega arith;
  seqno_eq = omega arith;
}

-- A beacon or probe response that the injection code creates, with an SSID of at most 32 bytes and
-- fields of their width, is parsed back to the values it was created from, the SSID with a zero
-- behind it and the sequence number modulo 4096, and the length returned is the length written.
pub parse-create_beacon :
    (probe : Bool) (sa da bssid : Mac) (essid fcs : List ℕ) (tsf channel bintval seqno : ℕ)
    (p : Packet)
    → length essid < 33
    → tsf < 2 ^ 64
    → bintval < 2 ^ 16
    → channel < 2 ^ 8
    → (created : ℕ × List ℕ) × (create_beacon_probe_response probe
          (mac_bytes sa)
          (mac_bytes da)
          (mac_bytes bssid)
          essid
          tsf
          channel
          bintval
          seqno
        ≡ some created)
      × (created.0 ≡ length created.1)
      × (parse_80211_header (created.1 ++ fcs) (created.0 + 4) p
          ≡ some (pos 0, parsed probe sa da bssid essid tsf channel bintval seqno p))
unfolding create_beacon_probe_response parse_80211_header second_part
parse-create_beacon true sa da bssid essid fcs tsf channel bintval seqno p short ht hb hc =
    let size : ◌≡◌ {A = ℕ} (36 + (2 + length essid + 10 + 3) + 4) (length essid + 55) =
      omega arith in
    let e10 : ltb (length essid + 55) 10 ≡ false = ground arith in
    let e24 : ltb (length essid + 55) 24 ≡ false = ground arith in
    let j = joined (length essid + 55) tsf bintval channel seqno (omega arith) ht hb hc in
    (
      _,
      refl,
      omega (arith, length-append {0} essid (fixed_elements channel)),
      rw (size, e10, e24)
          (rw
            (elements_parsed essid fcs channel (sub64 (length essid + 55) 40) _ short (omega arith))
            (rw (j.len_eq, j.tsf_eq, j.bintval_eq, j.channel_eq, j.seqno_eq))),
    )
parse-create_beacon false sa da bssid essid fcs tsf channel bintval seqno p short ht hb hc =
    let size : ◌≡◌ {A = ℕ} (36 + (2 + length essid + 10 + 3) + 4) (length essid + 55) =
      omega arith in
    let e10 : ltb (length essid + 55) 10 ≡ false = ground arith in
    let e24 : ltb (length essid + 55) 24 ≡ false = ground arith in
    let j = joined (length essid + 55) tsf bintval channel seqno (omega arith) ht hb hc in
    (
      _,
      refl,
      omega (arith, length-append {0} essid (fixed_elements channel)),
      rw (size, e10, e24)
          (rw
            (elements_parsed essid fcs channel (sub64 (length essid + 55) 40) _ short (omega arith))
            (rw (j.len_eq, j.tsf_eq, j.bintval_eq, j.channel_eq, j.seqno_eq))),
    )
