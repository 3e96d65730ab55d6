-- ===== src/Parser/Elements.antt =====
-- uwifi_parse_information_elements of core/wlan_parser.c.
pub mod Extend
pub mod Tlv
pub mod Slack
use libuwifi.Base.{
  ℕ, zero, suc, ◌+◌, ◌-◌, ◌%◌, ◌^◌, Bool, true, false, ◌&&◌, Option, none, some, List, [], ◌∷◌,
  ◌++◌, ltb, leb, ◌==◌, ◌||◌, if◌then◌else◌, get_elem?, drop, field, test_bit, bytes, ◌>>=◌, int32,
  u32, pos_part,
}
use libuwifi.Wlan.Types.{ChanWidth, w20, w40, w80}
use libuwifi.Wlan.Streams.{chan_width_from_vht_capab, ht_streams_from_mcs, vht_streams_from_mcs}
use libuwifi.Parser.Packet.{Packet}

-- WLAN_IE_ID_*
abbrev pub ie_ssid : ℕ
ie_ssid = 0

abbrev pub ie_supp_rates : ℕ
ie_supp_rates = 1

abbrev pub ie_dsss_param : ℕ
ie_dsss_param = 3

abbrev pub ie_ht_capab : ℕ
ie_ht_capab = 45

abbrev pub ie_rsn : ℕ
ie_rsn = 48

abbrev pub ie_ht_oper : ℕ
ie_ht_oper = 61

abbrev pub ie_vht_capab : ℕ
ie_vht_capab = 191

abbrev pub ie_vht_oper : ℕ
ie_vht_oper = 192

abbrev pub ie_vht_omn : ℕ
ie_vht_omn = 199

abbrev pub ie_vendor : ℕ
ie_vendor = 221

-- The largest number of SSID bytes that is stored, WLAN_MAX_SSID_LEN - 1.
abbrev pub max_ssid : ℕ
max_ssid = 33

-- `n` bytes and a terminating zero written over the start of an array.
abbrev pub write_string : List ℕ → ℕ → List ℕ → List ℕ
write_string content n old = content ++ 0 ∷ drop (n + 1) old

-- case WLAN_IE_ID_SSID
parse_ssid : ℕ → List ℕ → Packet → Option Packet
parse_ssid n var p =
    let stored = if ltb n max_ssid then n else max_ssid in
    bytes stored var >>= λ content.
    some (record p { wlan_essid = write_string content stored p.wlan_essid })

-- case WLAN_IE_ID_HT_CAPAB
parse_ht_capab : ℕ → List ℕ → Packet → Option Packet
parse_ht_capab n var p = do
  info ← get_elem? var 0
  let q = record p { wlan_chan_width = if test_bit info 1 then w40 else w20 }
  if leb 26 n
      then (ht_streams_from_mcs (drop 3 var) p.wlan_tx_streams >>= λ s.
          some (record q { wlan_rx_streams = s.0; wlan_tx_streams = s.1 }))
      else some q

-- The `switch` on the secondary channel offset.
ht_offset : ℕ → Packet → Packet
ht_offset offset p =
    if offset == 0
    then record p { wlan_chan_width = w20 }
    else if offset == 1
    then record p { wlan_ht40plus = true }
    else if offset == 3
    then record p { wlan_ht40plus = false }
    else p

-- case WLAN_IE_ID_HT_OPER
parse_ht_oper : ℕ → List ℕ → Packet → Option Packet
unfolding ht_offset
parse_ht_oper n var p =
    if ltb 1 n then (get_elem? var 1 >>= λ info. some (ht_offset (field info 0 2) p)) else some p

-- case WLAN_IE_ID_VHT_CAPAB
parse_vht_capab : ℕ → List ℕ → Packet → Option Packet
parse_vht_capab n var p =
    if leb 12 n
    then (do
      info ← get_elem? var 0
      (rx, tx) ← vht_streams_from_mcs (drop 4 var)
      some (record p {
        wlan_chan_width = chan_width_from_vht_capab info;
        wlan_rx_streams = rx;
        wlan_tx_streams = tx;
      }))
    else some p

-- The bytes from an index on are the given ones; a byte is read if those before it agree.
bytes_are : List ℕ → ℕ → List ℕ → Option Bool
bytes_are var i [] = some true
bytes_are var i (w ∷ ws) =
    let rest = bytes_are var (i + 1) ws in
    get_elem? var i >>= λ b. if b == w then rest else some false

-- case WLAN_IE_ID_VENDOR: the Microsoft OUI with type 1 announces WPA.
parse_vendor : ℕ → List ℕ → Packet → Option Packet
unfolding bytes_are
parse_vendor n var p =
    if leb 4 n
    then (bytes_are var 0 (0x00 ∷ 0x50 ∷ 0xf2 ∷ 1 ∷ []) >>= λ wpa.
        some (if wpa then record p { wlan_wpa = true } else p))
    else some p

-- The `switch` on the element's id, at the length byte `n` and the bytes from `ie->var` on.
unfoldable pub parse_element : ℕ → ℕ → List ℕ → Packet → Option Packet
unfolding parse_ssid parse_ht_capab parse_ht_oper parse_vht_capab parse_vendor
parse_element id n var p =
    if id == ie_ssid
    then parse_ssid n var p
    else if id == ie_dsss_param
    then (get_elem? var 0 >>= λ channel. some (record p { wlan_channel = channel }))
    else if id == ie_rsn
    then some (record p { wlan_rsn = true })
    else if id == ie_ht_capab
    then parse_ht_capab n var p
    else if id == ie_ht_oper
    then parse_ht_oper n var p
    else if id == ie_vht_oper || id == ie_vht_omn
    then some (record p { wlan_chan_width = w80 })
    else if id == ie_vht_capab
    then parse_vht_capab n var p
    else if id == ie_vendor
    then parse_vendor n var p
    else some p

-- The loop `while (len > 2)`. A negative `len` ends it as 0 does, so the truncated subtraction is that of
-- the code. Each round takes at least 2 off `len`, and the caller gives `len` rounds.
pub parse_elements : ℕ → ℕ → List ℕ → Packet → Option Packet
parse_elements zero len buf p = some p
parse_elements (suc rounds) len buf p = elim (ltb 2 len) [
  | false ↦ some p
  | true ↦ do
    id ← get_elem? buf 0
    n ← get_elem? buf 1
    q ← parse_element id n (drop 2 buf) p
    parse_elements rounds (len - (n + 2)) (drop n (drop 2 buf)) q
]

-- `int len = bufLen`, where a negative number counts as 0.
abbrev pub loop_len : ℕ → ℕ
loop_len buf_len = pos_part (int32 (u32 buf_len))

pub parse_information_elements : List ℕ → ℕ → Packet → Option Packet
unfolding parse_elements
parse_information_elements buf buf_len p =
    parse_elements (loop_len buf_len) (loop_len buf_len) buf p
