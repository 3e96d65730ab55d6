-- ===== src/Parser/Header/Extend.antt =====
-- The header parser of core/wlan_parser.c: memory behind the bytes that it reads has no influence.
use libuwifi.Base.{
  ℕ, ◌+◌, Option, none, some, List, ◌++◌, not, ◌&&◌, ◌||◌, ltb, ◌==◌, drop, test_bit, sub64, u32,
  ◌⊑◌, ⊑_refl, ⊑_if, ⊑_bind, le16_⊑, le64_⊑, copy_⊑, drop_⊑,
}
use libuwifi.Wlan.Frame.{
  is_mgmt, is_ctrl, is_data, is_qos, to_ds_bit, from_ds_bit, beacon, probe_req, probe_resp, qdata,
}
use libuwifi.Parser.Packet.{Packet}
use libuwifi.Parser.Elements.{parse_information_elements}
use libuwifi.Parser.Elements.Extend.{parse_information_elements_⊑}
use libuwifi.Parser.Header.{
  Addresses, reject, header, FirstPart, data_addresses, parse_data, parse_mgmt, mgmt_hdrlen,
  data_hdrlen, first_part, has_nav, case_addresses, parse_beacon, second_part, copy_address,
  copy_addresses, finish, parse_80211_header,
}

module _ (buf more : List ℕ) where
  data_addresses_⊑ : (fc h : ℕ) → data_addresses fc buf h ⊑ data_addresses fc (buf ++ more) h
  unfolding data_addresses
  data_addresses_⊑ fc h =
      ⊑_if (not (test_bit fc from_ds_bit) && not (test_bit fc to_ds_bit)) ⊑_refl (
        ⊑_if (test_bit fc from_ds_bit && test_bit fc to_ds_bit)
          (⊑_if (is_qos fc) (⊑_bind (le16_⊑ buf more 30) (λ q. ⊑_refl)) ⊑_refl) ⊑_refl)

  parse_data_⊑ :
      (fc len : ℕ) (p : Packet) → parse_data fc buf len p ⊑ parse_data fc (buf ++ more) len p
  unfolding parse_data
  parse_data_⊑ fc len p = ⊑_bind (data_addresses_⊑ fc (data_hdrlen fc)) λ (mode, addrs, h).
      ⊑_if (ltb len h) ⊑_refl
        (⊑_bind (le16_⊑ buf more 2) (λ d. ⊑_bind (le16_⊑ buf more 22) (λ s. ⊑_refl)))

  first_part_⊑ :
      (fc len : ℕ) (p : Packet) → first_part fc buf len p ⊑ first_part fc (buf ++ more) len p
  unfolding first_part parse_mgmt
  first_part_⊑ fc len p = ⊑_if (is_data fc) (parse_data_⊑ fc len p) (
      ⊑_if (is_ctrl fc) ⊑_refl (
        ⊑_if (is_mgmt fc)
          (⊑_if (ltb len (mgmt_hdrlen fc)) ⊑_refl (⊑_bind (le16_⊑ buf more 22) (λ s. ⊑_refl)))
          ⊑_refl))

  elements_at_⊑ :
      (i len : ℕ) (p : Packet)
      → parse_information_elements (drop i buf) len p
        ⊑ parse_information_elements (drop i (buf ++ more)) len p
  elements_at_⊑ i len p =
      drop_⊑ (λ b. parse_information_elements b len p)
        (λ xs ys. parse_information_elements_⊑ xs ys len p) i buf more

  parse_beacon_⊑ :
      (len h : ℕ) (p : Packet) → parse_beacon buf len h p ⊑ parse_beacon (buf ++ more) len h p
  unfolding parse_beacon
  parse_beacon_⊑ len h p = ⊑_bind (le64_⊑ buf more h) λ tsf.
      ⊑_bind (le16_⊑ buf more (h + 8)) λ bintval.
        ⊑_bind (elements_at_⊑ (h + 12) (sub64 len (h + 12 + 4)) _)
          λ q. ⊑_bind (le16_⊑ buf more (h + 10)) (λ capab. ⊑_refl)

  second_part_⊑ :
      (fc len h : ℕ) (p : Packet)
      → second_part fc buf len h p ⊑ second_part fc (buf ++ more) len h p
  unfolding second_part
  second_part_⊑ fc len h p =
      let type = p.wlan_type in
      ⊑_if (type == qdata) (⊑_bind (le16_⊑ buf more 24) (λ q. ⊑_refl)) (
        ⊑_if (has_nav type) (⊑_bind (le16_⊑ buf more 2) (λ d. ⊑_refl)) (
          ⊑_if (type == beacon || type == probe_resp) (parse_beacon_⊑ len h p) (
            ⊑_if (type == probe_req) (⊑_bind (elements_at_⊑ h (sub64 len (h + 4)) p) (λ q. ⊑_refl))
              ⊑_refl)))

  copy_address_⊑ :
      (a : Option ℕ) (old : List ℕ) → copy_address buf a old ⊑ copy_address (buf ++ more) a old
  copy_address_⊑ none old = ⊑_refl
  copy_address_⊑ (some i) old = copy_⊑ 6 buf more i

  copy_addresses_⊑ :
      (a : Addresses) (p : Packet) → copy_addresses buf a p ⊑ copy_addresses (buf ++ more) a p
  copy_addresses_⊑ a p = ⊑_bind (copy_address_⊑ a.ta p.wlan_ta) λ ta.
      ⊑_bind (copy_address_⊑ a.ra p.wlan_ra)
        λ ra. ⊑_bind (copy_address_⊑ a.bssid p.wlan_bssid) (λ b. ⊑_refl)

  finish_⊑ : (fc len : ℕ) (r : FirstPart) → finish fc buf len r ⊑ finish fc (buf ++ more) len r
  unfolding finish
  finish_⊑ fc len (reject p) = ⊑_refl
  finish_⊑ fc len (header h a p) =
      ⊑_bind (second_part_⊑ fc len h (record p { wlan_len = u32 len }))
        λ q. ⊑_bind (copy_addresses_⊑ (case_addresses p.wlan_type a) q) (λ r. ⊑_refl)

  -- A frame that is parsed inside its memory gives the same value and packet in any longer memory.
  pub parse_80211_header_⊑ :
      (len : ℕ) (p : Packet) → parse_80211_header buf len p ⊑ parse_80211_header (buf ++ more) len p
  unfolding parse_80211_header
  parse_80211_header_⊑ len p =
      ⊑_bind (le16_⊑ buf more 0)
        λ fc. ⊑_if (ltb len 10) ⊑_refl (⊑_bind (first_part_⊑ fc len _) (λ r. finish_⊑ fc len r))
