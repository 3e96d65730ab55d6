-- ===== src/Parser/Header/Slack.antt =====
-- How much memory the header parser of core/wlan_parser.c needs.
use libuwifi.Base.{
  ℕ, ◌+◌, ◌≤◌, ◌<◌, ◌^◌, ◌≡◌, Option, none, some, List, not, ◌&&◌, ◌||◌, ltb, ◌==◌, drop, length,
  length-drop, test_bit, sub64, u32, arith, Succeeds, succeeds, if-Succeeds, bind-Succeeds,
  le16-Succeeds, le64-Succeeds, copy-Succeeds, IsBytes, drop-IsBytes,
}
use libuwifi.Wlan.Frame.{
  is_mgmt, is_ctrl, is_data, is_qos, to_ds_bit, from_ds_bit, beacon, probe_req, probe_resp, auth,
  qdata,
}
use libuwifi.Parser.Packet.{Packet}
use libuwifi.Parser.Elements.{parse_information_elements, loop_len}
use libuwifi.Parser.Elements.Slack.{parse_information_elements-Succeeds}
use libuwifi.Parser.Header.Bounds.{
  Near, InFrame, FirstOk, first_part-FirstOk, case_addresses-InFrame,
}
use libuwifi.Parser.Header.{
  Addresses, reject, header, FirstPart, data_addresses, parse_data, parse_mgmt, mgmt_hdrlen,
  data_hdrlen, first_part, has_nav, case_addresses, parse_beacon, second_part, copy_address,
  copy_addresses, finish, parse_80211_header,
}

module _ (buf : List ℕ) (len : ℕ) (bs : IsBytes buf) (slack : len + 255 ≤ length buf)
    (small : len < 2 ^ 31) where
  data_addresses-Succeeds : (fc h : ℕ) → Succeeds (data_addresses fc buf h)
  unfolding data_addresses
  data_addresses-Succeeds fc h =
      if-Succeeds (not (test_bit fc from_ds_bit) && not (test_bit fc to_ds_bit)) (λ t. succeeds)
        λ t.
          if-Succeeds (test_bit fc from_ds_bit && test_bit fc to_ds_bit)
            (λ t'.
              if-Succeeds (is_qos fc)
                (λ u. bind-Succeeds (le16-Succeeds buf 30 (omega arith)) (λ q e. succeeds))
                (λ u. succeeds))
            (λ t'. if-Succeeds (test_bit fc from_ds_bit) (λ u. succeeds) (λ u. succeeds))

  parse_data-Succeeds : (fc : ℕ) (p : Packet) → Succeeds (parse_data fc buf len p)
  unfolding parse_data
  parse_data-Succeeds fc p =
      bind-Succeeds (data_addresses-Succeeds fc (data_hdrlen fc)) λ (mode, addrs, h) e.
        if-Succeeds (ltb len h) (λ t. succeeds)
          λ t.
            bind-Succeeds (le16-Succeeds buf 2 (omega arith))
              λ d e'. bind-Succeeds (le16-Succeeds buf 22 (omega arith)) (λ s e''. succeeds)

  first_part-Succeeds : (fc : ℕ) (p : Packet) → Succeeds (first_part fc buf len p)
  unfolding first_part parse_mgmt
  first_part-Succeeds fc p =
      if-Succeeds (is_data fc) (λ t. parse_data-Succeeds fc p)
        λ t.
          if-Succeeds (is_ctrl fc) (λ u. succeeds)
            λ u.
              if-Succeeds (is_mgmt fc)
                (λ v.
                  if-Succeeds (ltb len (mgmt_hdrlen fc)) (λ w. succeeds)
                    (λ w. bind-Succeeds (le16-Succeeds buf 22 (omega arith)) (λ s e. succeeds)))
                (λ v. succeeds)

  -- The length of the elements, computed in `size_t`, does not let the loop run too far.
  elements_len :
      (i : ℕ) → i ≤ len + 16 → 2 < loop_len (sub64 len i) → loop_len (sub64 len i) + i ≡ len
  elements_len i h k = ground arith

  elements-Succeeds :
      (at i : ℕ) (p : Packet)
      → at ≤ i
      → i ≤ len + 16
      → Succeeds (parse_information_elements (drop at buf) (sub64 len i) p)
  elements-Succeeds at i p h k =
      parse_information_elements-Succeeds (drop at buf) (sub64 len i) p (drop-IsBytes at buf bs)
        (λ runs. omega (arith, elements_len i k runs, length-drop {0} at buf))

  parse_beacon-Succeeds : (h : ℕ) (p : Packet) → h ≤ len → Succeeds (parse_beacon buf len h p)
  unfolding parse_beacon
  parse_beacon-Succeeds h p fits = bind-Succeeds (le64-Succeeds buf h (omega arith)) λ tsf e0.
      bind-Succeeds (le16-Succeeds buf (h + 8) (omega arith)) λ bintval e1.
        bind-Succeeds (elements-Succeeds (h + 12) (h + 12 + 4) _ (omega arith) (omega arith))
          λ q e2. bind-Succeeds (le16-Succeeds buf (h + 10) (omega arith)) (λ capab e3. succeeds)

  second_part-Succeeds : (fc h : ℕ) (p : Packet) → h ≤ len → Succeeds (second_part fc buf len h p)
  unfolding second_part
  second_part-Succeeds fc h p fits =
      let type = p.wlan_type in
      if-Succeeds (type == qdata)
        (λ t. bind-Succeeds (le16-Succeeds buf 24 (omega arith)) (λ q e. succeeds))
        λ t.
          if-Succeeds (has_nav type)
            (λ u. bind-Succeeds (le16-Succeeds buf 2 (omega arith)) (λ d e. succeeds))
            λ u.
              if-Succeeds (type == beacon || type == probe_resp)
                (λ x. parse_beacon-Succeeds h p fits)
                λ x.
                  if-Succeeds (type == probe_req)
                    (λ y.
                      bind-Succeeds (elements-Succeeds h (h + 4) p (omega arith) (omega arith))
                        (λ q e. succeeds))
                    λ y. if-Succeeds (type == auth) (λ z. succeeds) (λ z. succeeds)

  copy_address-Succeeds : (a : Option ℕ) (old : List ℕ) → Near a → Succeeds (copy_address buf a old)
  copy_address-Succeeds none old h = succeeds
  copy_address-Succeeds (some i) old h = copy-Succeeds 6 buf i (omega arith)

  copy_addresses-Succeeds :
      (a : Addresses) (p : Packet) → InFrame a → Succeeds (copy_addresses buf a p)
  copy_addresses-Succeeds a p h = bind-Succeeds (copy_address-Succeeds a.ta p.wlan_ta h.ta) λ ta e0.
      bind-Succeeds (copy_address-Succeeds a.ra p.wlan_ra h.ra) λ ra e1.
        bind-Succeeds (copy_address-Succeeds a.bssid p.wlan_bssid h.bssid) (λ b e2. succeeds)

  finish-Succeeds : (fc : ℕ) (r : FirstPart) → FirstOk len r → Succeeds (finish fc buf len r)
  unfolding finish
  finish-Succeeds fc (reject p) h = succeeds
  finish-Succeeds fc (header hdrlen a p) h =
      bind-Succeeds (second_part-Succeeds fc hdrlen (record p { wlan_len = u32 len }) h.fits) λ q e.
        bind-Succeeds
          (copy_addresses-Succeeds (case_addresses p.wlan_type a) q
            (case_addresses-InFrame p.wlan_type a h.in_frame))
          (λ r e1. succeeds)

  -- A frame of bytes is never read out of bounds where 255 bytes of memory stand behind its length,
  -- which is below 2 ^ 31: the parser returns.
  pub parse_80211_header-Succeeds : (p : Packet) → Succeeds (parse_80211_header buf len p)
  unfolding parse_80211_header
  parse_80211_header-Succeeds p = bind-Succeeds (le16-Succeeds buf 0 (omega arith)) λ fc e.
      if-Succeeds (ltb len 10) (λ t. succeeds)
        λ t.
          bind-Succeeds (first_part-Succeeds fc _)
            λ r e1. finish-Succeeds fc r (first_part-FirstOk fc buf len _ r e1)
