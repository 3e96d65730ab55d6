-- ===== src/Parser/Elements/Extend.antt =====
-- The element parser of core/wlan_parser.c reads nothing but what it finds: memory behind the bytes
-- that it reads has no influence.
use libuwifi.Base.{
  ℕ, zero, suc, inl, inr, Bool-cases, ◌+◌, ◌-◌, List, [], ◌∷◌, ◌++◌, ltb, leb, ◌==◌, ◌||◌,
  if◌then◌else◌, drop, ◌⊑◌, ⊑_refl, ⊑_if, ⊑_bind, get_elem?_⊑, bytes_⊑, drop_⊑, drop-append,
}
use libuwifi.Wlan.Streams.{ht_streams_from_mcs, vht_streams_from_mcs}
use libuwifi.Wlan.Streams.Count.{ht_streams_⊑, vht_streams_⊑}
use libuwifi.Parser.Packet.{Packet}
use libuwifi.Parser.Elements.{
  parse_ssid, parse_ht_capab, parse_ht_oper, parse_vht_capab, parse_vendor, bytes_are,
  parse_element, parse_elements, parse_information_elements, loop_len, ie_ssid, ie_dsss_param,
  ie_rsn, ie_ht_capab, ie_ht_oper, ie_vht_oper, ie_vht_omn, ie_vht_capab, ie_vendor, max_ssid,
}

module _ (n : ℕ) (var more : List ℕ) (p : Packet) where
  parse_ssid_⊑ : parse_ssid n var p ⊑ parse_ssid n (var ++ more) p
  unfolding parse_ssid
  parse_ssid_⊑ = ⊑_bind (bytes_⊑ (if ltb n max_ssid then n else max_ssid) var more) (λ c. ⊑_refl)

  parse_ht_capab_⊑ : parse_ht_capab n var p ⊑ parse_ht_capab n (var ++ more) p
  unfolding parse_ht_capab
  parse_ht_capab_⊑ = ⊑_bind (get_elem?_⊑ var more 0) λ info.
      ⊑_if (leb 26 n)
        (⊑_bind
          (drop_⊑ (λ m. ht_streams_from_mcs m p.wlan_tx_streams)
            (λ xs ys. ht_streams_⊑ xs ys p.wlan_tx_streams) 3 var more)
          (λ s. ⊑_refl))
        ⊑_refl

  parse_ht_oper_⊑ : parse_ht_oper n var p ⊑ parse_ht_oper n (var ++ more) p
  unfolding parse_ht_oper
  parse_ht_oper_⊑ = ⊑_if (ltb 1 n) (⊑_bind (get_elem?_⊑ var more 1) (λ info. ⊑_refl)) ⊑_refl

  parse_vht_capab_⊑ : parse_vht_capab n var p ⊑ parse_vht_capab n (var ++ more) p
  unfolding parse_vht_capab
  parse_vht_capab_⊑ =
      ⊑_if (leb 12 n)
        (⊑_bind (get_elem?_⊑ var more 0)
          (λ info. ⊑_bind (drop_⊑ vht_streams_from_mcs vht_streams_⊑ 4 var more) (λ s. ⊑_refl)))
        ⊑_refl

bytes_are_⊑ :
    (var more : List ℕ) (i : ℕ) (ws : List ℕ) → bytes_are var i ws ⊑ bytes_are (var ++ more) i ws
unfolding bytes_are
bytes_are_⊑ var more i [] = ⊑_refl
bytes_are_⊑ var more i (w ∷ ws) =
    ⊑_bind (get_elem?_⊑ var more i) λ b. ⊑_if (b == w) (bytes_are_⊑ var more (i + 1) ws) ⊑_refl

-- An element that is parsed inside its memory gives the same packet in any longer memory.
pub parse_element_⊑ :
    (id n : ℕ) (var more : List ℕ) (p : Packet)
    → parse_element id n var p ⊑ parse_element id n (var ++ more) p
unfolding parse_element parse_vendor
parse_element_⊑ id n var more p = ⊑_if (id == ie_ssid) (parse_ssid_⊑ n var more p) (
    ⊑_if (id == ie_dsss_param) (⊑_bind (get_elem?_⊑ var more 0) (λ c. ⊑_refl)) (
      ⊑_if (id == ie_rsn) ⊑_refl (
        ⊑_if (id == ie_ht_capab) (parse_ht_capab_⊑ n var more p) (
          ⊑_if (id == ie_ht_oper) (parse_ht_oper_⊑ n var more p) (
            ⊑_if (id == ie_vht_oper || id == ie_vht_omn) ⊑_refl (
              ⊑_if (id == ie_vht_capab) (parse_vht_capab_⊑ n var more p) (
                ⊑_if (id == ie_vendor)
                  (⊑_if (leb 4 n)
                    (⊑_bind (bytes_are_⊑ var more 0 (0x00 ∷ 0x50 ∷ 0xf2 ∷ 1 ∷ [])) (λ w. ⊑_refl))
                    ⊑_refl)
                  ⊑_refl)))))))

parse_elements_⊑ :
    (rounds len : ℕ) (buf more : List ℕ) (p : Packet)
    → parse_elements rounds len buf p ⊑ parse_elements rounds len (buf ++ more) p
unfolding parse_elements
parse_elements_⊑ zero len buf more p = ⊑_refl
parse_elements_⊑ (suc rounds) len buf more p = elim (Bool-cases (ltb 2 len)) [
  | inr done ↦ rw (done, parse_elements) ⊑_refl
  | inl open_round ↦
      rw (open_round, parse_elements)
        (⊑_bind (get_elem?_⊑ buf more 0) λ id. ⊑_bind (get_elem?_⊑ buf more 1) λ n.
          let (z, e) = drop-append 2 buf more in
          let (z', e') = drop-append n (drop 2 buf) z in
          rw e (
            ⊑_bind (parse_element_⊑ id n (drop 2 buf) z p)
              λ q. rw e' (parse_elements_⊑ rounds (len - (n + 2)) (drop n (drop 2 buf)) z' q)))
]

pub parse_information_elements_⊑ :
    (buf more : List ℕ) (len : ℕ) (p : Packet)
    → parse_information_elements buf len p ⊑ parse_information_elements (buf ++ more) len p
unfolding parse_information_elements
parse_information_elements_⊑ buf more len p =
    parse_elements_⊑ (loop_len len) (loop_len len) buf more p
