-- ===== src/Parser/Header/Transmitter.antt =====
-- The transmitter address in core/wlan_parser.c: the look-up of its place agrees with the header parser.
use libuwifi.Base.{
  >>=-eq-some, if_cases, inl, inr, ℕ, ◌≤◌, ◌≡◌, ◌≢◌, ap, subst, ◌∙◌, true, ◌||◌, some, List, ℤ,
  minus_one, ltb, le16, copy, u32, arith,
}
use libuwifi.Wlan.Frame.{is_data, is_mgmt}
use libuwifi.Parser.Packet.{Packet}
use libuwifi.Parser.Peek.{get_80211_header_ta}
use libuwifi.Parser.Header.{
  Addresses, reject, header, FirstPart, data_addresses, parse_data, parse_mgmt, addr2, copy_address,
  data_hdrlen, first_part, case_addresses, second_part, copy_addresses, finish, parse_80211_header,
}

-- The first part leaves the second address as the transmitter's, in a header of 24 bytes or more.
abbrev HasTa : ℕ → FirstPart → Type 0
HasTa len (reject p) = Unit {0}
HasTa len (header hdrlen a p) = (24 ≤ len) × (a.ta ≡ addr2)

data_addresses-ta :
    (fc : ℕ) (buf : List ℕ) (h : ℕ) (r : ℕ × Addresses × ℕ)
    → data_addresses fc buf h ≡ some r
    → (h ≤ r.2) × (r.1.ta ≡ addr2)
unfolding data_addresses
data_addresses-ta fc buf h r e = ground arith

parse_data-HasTa :
    (fc : ℕ) (buf : List ℕ) (len : ℕ) (p : Packet) (r : FirstPart)
    → parse_data fc buf len p ≡ some r
    → HasTa len r
unfolding parse_data
parse_data-HasTa fc buf len p r e = ground (arith, data_addresses-ta fc buf (data_hdrlen fc))

first_part-HasTa :
    (fc : ℕ) (buf : List ℕ) (len : ℕ) (p : Packet) (r : FirstPart)
    → (is_data fc || is_mgmt fc) ≡ true
    → first_part fc buf len p ≡ some r
    → HasTa len r
unfolding first_part parse_mgmt
first_part-HasTa fc buf len p r k e = ground (arith, parse_data-HasTa fc buf len p r)

case_addresses-ta : (type : ℕ) (a : Addresses) → a.ta ≡ addr2 → (case_addresses type a).ta ≡ addr2
case_addresses-ta type a e = ground arith

copy_addresses-ta :
    (buf : List ℕ) (a : Addresses) (p q : Packet)
    → a.ta ≡ addr2
    → copy_addresses buf a p ≡ some q
    → copy 6 buf 10 ≡ some q.wlan_ta
copy_addresses-ta buf a p q e c =
    let (ta, c1, d1) = >>=-eq-some (copy_address buf a.ta p.wlan_ta) _ c in
    let (ra, c2, d2) = >>=-eq-some (copy_address buf a.ra p.wlan_ra) _ d1 in
    let (bssid, c3, d3) = >>=-eq-some (copy_address buf a.bssid p.wlan_bssid) _ d2 in
    let stored : record p { wlan_ta = ta; wlan_ra = ra; wlan_bssid = bssid } ≡ q = cc in
    subst (λ o. copy_address buf o p.wlan_ta ≡ some ta) e c1 ∙ ap (λ x. some x.wlan_ta) stored

finish-ta :
    (fc : ℕ) (buf : List ℕ) (len : ℕ) (f : FirstPart) (r : ℤ × Packet)
    → HasTa len f
    → finish fc buf len f ≡ some r
    → r.0 ≢ minus_one
    → (24 ≤ len) × (copy 6 buf 10 ≡ some r.1.wlan_ta)
unfolding finish
finish-ta fc buf len (reject p) r h e n = absurd (n cc)
finish-ta fc buf len (header hdrlen a p) r (long, t) e n =
    let (q, e1, e2) =
      >>=-eq-some (second_part fc buf len hdrlen (record p { wlan_len = u32 len })) _ e in
    let (s, e3, e4) = >>=-eq-some (copy_addresses buf (case_addresses p.wlan_type a) q) _ e2 in
    let same : s ≡ r.1 = cc in
    (
      long,
      copy_addresses-ta buf (case_addresses p.wlan_type a) q r.1 (case_addresses-ta p.wlan_type a t)
          (e3 ∙ ap some same),
    )

-- For a data or management frame that the header parser accepts, the look-up of the transmitter
-- address gives the place of the six bytes that the parser has stored as the transmitter's.
pub get_80211_header_ta-parsed :
    (buf : List ℕ) (len fc : ℕ) (p : Packet) (r : ℤ × Packet)
    → le16 buf 0 ≡ some fc
    → (is_data fc || is_mgmt fc) ≡ true
    → parse_80211_header buf len p ≡ some r
    → r.0 ≢ minus_one
    → (get_80211_header_ta buf len ≡ some (some 10)) × (copy 6 buf 10 ≡ some r.1.wlan_ta)
unfolding parse_80211_header get_80211_header_ta
get_80211_header_ta-parsed buf len fc p r f k e n =
    let (fc1, e1, e2) = >>=-eq-some (le16 buf 0) _ e in
    let same : fc1 ≡ fc = cc in
    elim (if_cases (ltb len 10) _ _ e2) [
      | inl (short, e3) ↦ absurd (n cc)
      | inr (long, rest) ↦
          let (g, e3, e4) = >>=-eq-some (first_part fc1 buf len _) (finish fc1 buf len) rest in
          let t =
            finish-ta fc1 buf len g r (first_part-HasTa fc1 buf len _ g (rw same k) e3) e4 n in
          (rw f (ground arith), t.1)
    ]
