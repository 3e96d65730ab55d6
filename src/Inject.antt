-- ===== src/Inject.antt =====
-- Frames and headers for injection: core/inject.c and linux/inject_rtap.c. A function that fills a
-- buffer gives its return value and the bytes from the start of the buffer on; reading an address of
-- fewer than six bytes gives `none`.
pub mod RoundTrip
use libuwifi.Base.{
  ℕ, ◌+◌, ◌*◌, Bool, true, false, Option, some, none, List, [], ◌∷◌, ◌++◌, if◌then◌else◌, length,
  drop, replicate, bytes, ◌>>=◌, u8, u16, u64, le16_bytes, le32_bytes, le64_bytes, leb,
}
use libuwifi.Wlan.Frame.{beacon, probe_resp, null_data}
use libuwifi.Parser.Elements.{ie_ssid, ie_supp_rates, ie_dsss_param}

abbrev pub supprates : List ℕ
supprates = 0x8c ∷ 0x12 ∷ 0x98 ∷ 0x24 ∷ 0xb0 ∷ 0x48 ∷ 0x60 ∷ 0x6c ∷ []

-- The information elements at `bcn->ie`, for an `essid` given without its terminating zero.
abbrev pub beacon_elements : List ℕ → ℕ → List ℕ
beacon_elements essid channel =
    ie_ssid
    ∷ u8 (length essid)
    ∷ (essid ++ ie_supp_rates ∷ 8 ∷ (supprates ++ ie_dsss_param ∷ 1 ∷ u8 channel ∷ []))

-- uwifi_create_beacon_probe_response
unfoldable pub create_beacon_probe_response :
    Bool → (sa da bssid essid : List ℕ) (tsf channel bintval seqno : ℕ) → Option (ℕ × List ℕ)
create_beacon_probe_response probe_response sa da bssid essid tsf channel bintval seqno = do
  addr1 ← (if probe_response then bytes 6 da else some (replicate 6 0xff))
  addr2 ← bytes 6 sa
  addr3 ← bytes 6 bssid
  some (
    36 + (2 + length essid + (2 + 8) + 3),
    le16_bytes (if probe_response then probe_resp else beacon)
        ++ (le16_bytes 0
            ++ (addr1
                ++ (addr2
                    ++ (addr3
                        ++ (le16_bytes (u16 (seqno * 16))
                            ++ (le64_bytes (u64 tsf)
                                ++ (le16_bytes (u16 bintval)
                                    ++ (le16_bytes 1 ++ beacon_elements essid channel)))))))),
  )

-- uwifi_create_nulldata into a buffer that holds `buf`: 24 bytes are written, and the value returned is the
-- size of `struct wlan_frame` with its largest union member.
pub create_nulldata : List ℕ → (sa da bssid : List ℕ) (seq : ℕ) → Option (ℕ × List ℕ)
create_nulldata buf sa da bssid seq = do
  addr1 ← bytes 6 bssid
  addr2 ← bytes 6 sa
  addr3 ← bytes 6 da
  some (
    36,
    le16_bytes (null_data + 256)
        ++ (le16_bytes 0
            ++ (addr1 ++ (addr2 ++ (addr3 ++ (le16_bytes (u16 (seq * 16)) ++ drop 24 buf))))),
  )

-- The bits of `it_present` for flags, rate, channel, TX flags and data retries.
abbrev pub rtap_present : ℕ
rtap_present = 2 + 4 + 8 + 32768 + 131072

-- uwifi_create_radiotap_header of linux/inject_rtap.c: the fields of the packed header, in order.
pub create_radiotap_header : ℕ → Bool → ℕ × List ℕ
create_radiotap_header freq ack = (
  17,
  0
      ∷ 0
      ∷ (le16_bytes 17
          ++ (le32_bytes rtap_present
              ++ 0
                ∷ (if leb freq 2484 then 2 else 12)
                ∷ (le16_bytes (u16 freq)
                    ++ (le16_bytes 0 ++ (le16_bytes (if ack then 0 else 8) ++ 0 ∷ []))))),
)
