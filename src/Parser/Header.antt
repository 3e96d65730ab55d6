-- ===== src/Parser/Header.antt =====
-- uwifi_parse_80211_header of core/wlan_parser.c.
pub mod Extend
pub mod Slack
pub mod Bounds
pub mod Truncated
pub mod Transmitter
use libuwifi.Base.{
  ℕ, ◌+◌, ◌-◌, ◌%◌, ◌^◌, Bool, true, false, ◌&&◌, ◌||◌, not, Option, none, some, List, ℤ, pos,
  negsuc, minus_one, ltb, ◌==◌, if◌then◌else◌, drop, field, test_bit, le16, le64, copy, ◌>>=◌, u32,
  sub64,
}
use libuwifi.Wlan.Frame.{
  frame_mask, is_mgmt, is_ctrl, is_data, is_qos, to_ds_bit, from_ds_bit, retry_bit, protected_bit,
  order_bit, beacon, probe_req, probe_resp, auth, blkack, blkack_req, pspoll, rts, cts, ack, cf_end,
  cf_end_ack, qdata, mode_ap, mode_ibss, mode_sta, mode_probe, mode_4addr, mode_unknown,
}
use libuwifi.Parser.Packet.{Packet}
use libuwifi.Parser.Elements.{parse_information_elements}

-- The pointers `ra`, `ta` and `bssid`, as offsets into the frame; `none` is NULL.
pub record Addresses : Type 0 where
  pub ra : Option ℕ
  pub ta : Option ℕ
  pub bssid : Option ℕ

abbrev pub addresses : Option ℕ → Option ℕ → Option ℕ → Addresses
addresses ra ta bssid = record { ra = ra; ta = ta; bssid = bssid }

-- The offsets of the address fields in `struct wlan_frame`.
abbrev pub addr1 : Option ℕ
addr1 = some 4

abbrev pub addr2 : Option ℕ
addr2 = some 10

abbrev pub addr3 : Option ℕ
addr3 = some 16

-- What the first part of the function, by frame type, leaves: `return -1`, or a header length.
pub data FirstPart : Type 0 where
  reject : Packet → FirstPart
  header : ℕ → Addresses → Packet → FirstPart

abbrev pub qos_amsdu_bit : ℕ
qos_amsdu_bit = 7

-- The mode, the addresses and the header length of a data frame by its direction bits.
data_addresses : ℕ → List ℕ → ℕ → Option (ℕ × Addresses × ℕ)
data_addresses fc buf hdrlen =
    if not (test_bit fc from_ds_bit) && not (test_bit fc to_ds_bit)
    then some (mode_ibss, addresses addr1 addr2 addr3, hdrlen)
    else if test_bit fc from_ds_bit && test_bit fc to_ds_bit
    then (if is_qos fc
        then (le16 buf 30 >>= λ qos. some (
          mode_4addr,
          addresses addr1 addr2 (if test_bit qos qos_amsdu_bit then addr3 else none),
          hdrlen + 6,
        ))
        else some (mode_4addr, addresses addr1 addr2 none, hdrlen + 6))
    else if test_bit fc from_ds_bit
    then some (mode_ap, addresses addr1 addr2 addr2, hdrlen)
    else some (mode_sta, addresses addr1 addr2 addr1, hdrlen)

-- The header length of a data frame with three addresses.
abbrev pub data_hdrlen : ℕ → ℕ
data_hdrlen fc = 24 + (if is_qos fc then 2 + (if test_bit fc order_bit then 4 else 0) else 0)

parse_data : ℕ → List ℕ → ℕ → Packet → Option FirstPart
unfolding data_addresses
parse_data fc buf len p = do
  (mode, addrs, hdrlen) ← data_addresses fc buf (data_hdrlen fc)
  let q = record p {
    wlan_fromds = test_bit fc from_ds_bit;
    wlan_tods = test_bit fc to_ds_bit;
    wlan_mode = mode;
  }
  if ltb len hdrlen then some (reject q) else do
    duration ← le16 buf 2
    seq ← le16 buf 22
    some (
        header hdrlen addrs (record q {
          wlan_nav = duration;
          wlan_seqno = field seq 4 12;
          wlan_wep = test_bit fc protected_bit || q.wlan_wep;
          wlan_retry = test_bit fc retry_bit || q.wlan_retry;
        }))

abbrev pub ctrl_hdrlen : ℕ → ℕ
ctrl_hdrlen type = if type == cts || type == ack then 10 else 16

parse_ctrl : ℕ → Packet → FirstPart
parse_ctrl len p =
    if ltb len (ctrl_hdrlen p.wlan_type)
    then reject p
    else header (ctrl_hdrlen p.wlan_type) (addresses none none none) p

abbrev pub mgmt_hdrlen : ℕ → ℕ
mgmt_hdrlen fc = 24 + (if test_bit fc order_bit then 4 else 0)

parse_mgmt : ℕ → List ℕ → ℕ → Packet → Option FirstPart
parse_mgmt fc buf len p =
    if ltb len (mgmt_hdrlen fc)
    then some (reject p)
    else (le16 buf 22 >>= λ seq. some (
        header (mgmt_hdrlen fc) (addresses addr1 addr2 addr3) (record p {
          wlan_fromds = test_bit fc from_ds_bit;
          wlan_tods = test_bit fc to_ds_bit;
          wlan_seqno = field seq 4 12;
          wlan_retry = test_bit fc retry_bit || p.wlan_retry;
        })))

pub first_part : ℕ → List ℕ → ℕ → Packet → Option FirstPart
unfolding parse_data parse_ctrl parse_mgmt
first_part fc buf len p =
    if is_data fc
    then parse_data fc buf len p
    else if is_ctrl fc
    then some (parse_ctrl len p)
    else if is_mgmt fc
    then parse_mgmt fc buf len p
    else some (reject p)

-- The addresses that the `switch` on the frame type sets, from those that the first part has set.
abbrev pub case_addresses : ℕ → Addresses → Addresses
case_addresses type a =
    if type == rts || type == blkack || type == blkack_req
    then record a { ra = addr1; ta = addr2 }
    else if type == cts || type == ack
    then record a { ra = addr1 }
    else if type == pspoll
    then addresses addr1 addr2 addr1
    else if type == cf_end || type == cf_end_ack
    then addresses addr1 addr2 addr2
    else a

-- The mode that the capabilities of a beacon tell.
beacon_mode : ℕ → ℕ → ℕ
beacon_mode capab mode =
    if test_bit capab 1 then mode_ibss else if test_bit capab 0 then mode_ap else mode

-- case WLAN_FRAME_BEACON and WLAN_FRAME_PROBE_RESP. The length of the elements is computed in `size_t`.
parse_beacon : List ℕ → ℕ → ℕ → Packet → Option Packet
unfolding beacon_mode
parse_beacon buf len hdrlen p = do
  tsf ← le64 buf hdrlen
  bintval ← le16 buf (hdrlen + 8)
  q ←
      parse_information_elements (drop (hdrlen + 12) buf) (sub64 len (hdrlen + 12 + 4))
        (record p { wlan_tsf = tsf; wlan_bintval = bintval })
  capab ← le16 buf (hdrlen + 10)
  some (record q {
    wlan_mode = beacon_mode capab q.wlan_mode;
    wlan_wep = test_bit capab 4 || q.wlan_wep;
  })

-- The cases that set the duration.
abbrev pub has_nav : ℕ → Bool
has_nav type = type == rts || type == cts || type == ack || type == blkack || type == blkack_req

-- What the `switch` on the frame type stores in the packet.
unfoldable pub second_part : ℕ → List ℕ → ℕ → ℕ → Packet → Option Packet
unfolding parse_beacon
second_part fc buf len hdrlen p =
    let type = p.wlan_type in
    if type == qdata
    then (le16 buf 24 >>= λ qos. some (record p { wlan_qos_class = field qos 0 3 }))
    else if has_nav type
    then (le16 buf 2 >>= λ duration. some (record p { wlan_nav = duration }))
    else if type == beacon || type == probe_resp
    then parse_beacon buf len hdrlen p
    else if type == probe_req
    then (parse_information_elements (drop hdrlen buf) (sub64 len (hdrlen + 4)) p >>= λ q.
        some (record q { wlan_mode = mode_probe }))
    else if type == auth
    then some (record p { wlan_wep = test_bit fc protected_bit || p.wlan_wep })
    else some p

-- `memcpy` of an address, unless its pointer is NULL.
abbrev pub copy_address : List ℕ → Option ℕ → List ℕ → Option (List ℕ)
copy_address buf none old = some old
copy_address buf (some i) old = copy 6 buf i

abbrev pub copy_addresses : List ℕ → Addresses → Packet → Option Packet
copy_addresses buf a p = do
  ta ← copy_address buf a.ta p.wlan_ta
  ra ← copy_address buf a.ra p.wlan_ra
  bssid ← copy_address buf a.bssid p.wlan_bssid
  some (record p { wlan_ta = ta; wlan_ra = ra; wlan_bssid = bssid })

-- The value returned: more is to be parsed only in unencrypted data frames.
abbrev pub consumed : ℕ → Packet → ℤ
consumed hdrlen p = if is_data p.wlan_type && not p.wlan_wep then pos hdrlen else pos 0

-- The rest of the function behind the first part.
pub finish : ℕ → List ℕ → ℕ → FirstPart → Option (ℤ × Packet)
finish fc buf len (reject p) = some (minus_one, p)
finish fc buf len (header hdrlen addrs p) = do
  q ← second_part fc buf len hdrlen (record p { wlan_len = u32 len })
  r ← copy_addresses buf (case_addresses p.wlan_type addrs) q
  some (consumed hdrlen r, r)

-- uwifi_parse_80211_header: the value returned and the packet.
unfoldable pub parse_80211_header : List ℕ → ℕ → Packet → Option (ℤ × Packet)
unfolding first_part finish
parse_80211_header buf len p = do
  fc ← le16 buf 0
  if ltb len 10
      then some (minus_one, p)
      else (first_part fc buf len (record p { wlan_mode = mode_unknown; wlan_type = frame_mask fc })
          >>= finish fc buf len)
