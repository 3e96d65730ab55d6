-- ===== src/Parser/Header/Bounds.antt =====
-- What the first part of the header parser of core/wlan_parser.c leaves: a header inside the frame.
use libuwifi.Base.{
  >>=-eq-some, if_cases, inl, inr, ℕ, ◌≤◌, ◌≡◌, Option, none, some, List, ℤ, pos, minus_one, ◌≤ℤ◌,
  ltb, le16, u32, arith,
}
use libuwifi.Parser.Packet.{Packet}
use libuwifi.Parser.Header.{
  Addresses, reject, header, FirstPart, data_addresses, parse_data, parse_mgmt, parse_ctrl,
  data_hdrlen, first_part, case_addresses, second_part, copy_addresses, finish, parse_80211_header,
  consumed,
}

-- NULL, or the offset of one of the first three address fields.
abbrev pub Near : Option ℕ → Type 0
Near none = Unit {0}
Near (some i) = i ≤ 16

pub record InFrame (a : Addresses) : Type 0 where
  pub ra : Near a.ra
  pub ta : Near a.ta
  pub bssid : Near a.bssid

pub record HeaderOk (len hdrlen : ℕ) (a : Addresses) : Type 0 where
  pub fits : hdrlen ≤ len
  pub in_frame : InFrame a

abbrev pub FirstOk : ℕ → FirstPart → Type 0
FirstOk len (reject p) = Unit {0}
FirstOk len (header hdrlen a p) = HeaderOk len hdrlen a

data_addresses-InFrame :
    (fc : ℕ) (buf : List ℕ) (h : ℕ) (r : ℕ × Addresses × ℕ)
    → data_addresses fc buf h ≡ some r
    → InFrame r.1
unfolding data_addresses
data_addresses-InFrame fc buf h r e = ground arith

parse_data-FirstOk :
    (fc : ℕ) (buf : List ℕ) (len : ℕ) (p : Packet) (r : FirstPart)
    → parse_data fc buf len p ≡ some r
    → FirstOk len r
unfolding parse_data
parse_data-FirstOk fc buf len p r e = ground (arith, data_addresses-InFrame fc buf (data_hdrlen fc))

pub first_part-FirstOk :
    (fc : ℕ) (buf : List ℕ) (len : ℕ) (p : Packet) (r : FirstPart)
    → first_part fc buf len p ≡ some r
    → FirstOk len r
unfolding first_part parse_ctrl parse_mgmt
first_part-FirstOk fc buf len p r e = ground (arith, parse_data-FirstOk fc buf len p r)

pub case_addresses-InFrame :
    (type : ℕ) (a : Addresses) → InFrame a → InFrame (case_addresses type a)
case_addresses-InFrame type a i = ground arith

consumed_bounds :
    (len hdrlen : ℕ) (p : Packet)
    → hdrlen ≤ len
    → (minus_one ≤ℤ consumed hdrlen p) × (consumed hdrlen p ≤ℤ pos len)
consumed_bounds len hdrlen p h = ground arith

finish-consumed :
    (fc : ℕ) (buf : List ℕ) (len : ℕ) (f : FirstPart) (r : ℤ × Packet)
    → FirstOk len f
    → finish fc buf len f ≡ some r
    → (minus_one ≤ℤ r.0) × (r.0 ≤ℤ pos len)
unfolding finish
finish-consumed fc buf len (reject p) r h e = ground arith
finish-consumed fc buf len (header hdrlen a p) r h e =
    let (q, e1, e2) =
      >>=-eq-some (second_part fc buf len hdrlen (record p { wlan_len = u32 len })) _ e in
    let (s, e3, e4) = >>=-eq-some (copy_addresses buf (case_addresses p.wlan_type a) q) _ e2 in
    ground (arith, consumed_bounds len hdrlen s h.fits)

-- The value returned is -1, 0 or a header length that the frame has room for.
pub parse_80211_header-consumed :
    (buf : List ℕ) (len : ℕ) (p : Packet) (r : ℤ × Packet)
    → parse_80211_header buf len p ≡ some r
    → (minus_one ≤ℤ r.0) × (r.0 ≤ℤ pos len)
unfolding parse_80211_header
parse_80211_header-consumed buf len p r e =
    let (fc, e1, e2) = >>=-eq-some (le16 buf 0) _ e in
    elim (if_cases (ltb len 10) _ _ e2) [
      | inl (short, e3) ↦ ground arith
      | inr (long, rest) ↦
          let (f, e3, e4) = >>=-eq-some (first_part fc buf len _) (finish fc buf len) rest in
          finish-consumed fc buf len f r (first_part-FirstOk fc buf len _ f e3) e4
    ]
