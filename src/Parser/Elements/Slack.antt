-- ===== src/Parser/Elements/Slack.antt =====
-- How much memory the element parser of core/wlan_parser.c needs, and what happens where it is missing.
use libuwifi.Base.{
  ℕ, zero, suc, ◌+◌, ◌-◌, ◌≤◌, ◌<◌, ◌≡◌, inl, inr, true, none, List, [], ◌∷◌, ltb, leb, ◌==◌, ◌||◌,
  arith, drop, length, length-drop, Bool-cases, Succeeds, succeeds, if-Succeeds, bind-Succeeds,
  get_elem?-Succeeds, bytes-Succeeds, IsBytes, get_elem?-IsBytes, drop-IsBytes, bytes_short,
  if◌then◌else◌,
}
use libuwifi.Wlan.Streams.Count.{ht_streams-Succeeds, vht_streams-Succeeds}
use libuwifi.Parser.Packet.{Packet}
use libuwifi.Parser.Elements.{
  parse_ssid, parse_ht_capab, parse_ht_oper, parse_vht_capab, parse_vendor, bytes_are,
  parse_element, parse_elements, parse_information_elements, loop_len, max_ssid, ie_ssid,
  ie_dsss_param, ie_rsn, ie_ht_capab, ie_ht_oper, ie_vht_oper, ie_vht_omn, ie_vht_capab, ie_vendor,
}

module _ (n : ℕ) (var : List ℕ) (p : Packet) (some_byte : 1 ≤ length var)
    (fits : n ≤ length var) where
  parse_ssid-Succeeds : Succeeds (parse_ssid n var p)
  unfolding parse_ssid
  parse_ssid-Succeeds =
      bind-Succeeds (bytes-Succeeds (if ltb n max_ssid then n else max_ssid) var (ground arith))
        (λ c e. succeeds)

  parse_ht_capab-Succeeds : Succeeds (parse_ht_capab n var p)
  unfolding parse_ht_capab
  parse_ht_capab-Succeeds = bind-Succeeds (get_elem?-Succeeds var 0 (omega arith)) λ info e.
      if-Succeeds (leb 26 n)
        (λ t.
          bind-Succeeds
            (ht_streams-Succeeds (drop 3 var) p.wlan_tx_streams (ground (arith, length-drop 3 var)))
            (λ s e'. succeeds))
        (λ t. succeeds)

  parse_ht_oper-Succeeds : Succeeds (parse_ht_oper n var p)
  unfolding parse_ht_oper
  parse_ht_oper-Succeeds =
      if-Succeeds (ltb 1 n)
        (λ t. bind-Succeeds (get_elem?-Succeeds var 1 (ground arith)) (λ info e. succeeds))
        (λ t. succeeds)

  parse_vht_capab-Succeeds : Succeeds (parse_vht_capab n var p)
  unfolding parse_vht_capab
  parse_vht_capab-Succeeds =
      if-Succeeds (leb 12 n)
        (λ t. bind-Succeeds (get_elem?-Succeeds var 0 (omega arith)) λ info e.
          bind-Succeeds (vht_streams-Succeeds (drop 4 var) (ground (arith, length-drop 4 var)))
            (λ s e'. succeeds))
        (λ t. succeeds)

bytes_are-Succeeds :
    (var : List ℕ) (i : ℕ) (ws : List ℕ)
    → i + length ws ≤ length var
    → Succeeds (bytes_are var i ws)
unfolding bytes_are
bytes_are-Succeeds var i [] h = succeeds
bytes_are-Succeeds var i (w ∷ ws) h = bind-Succeeds (get_elem?-Succeeds var i (omega arith)) λ b e.
    if-Succeeds (b == w) (λ t. bytes_are-Succeeds var (i + 1) ws (omega arith)) (λ t. succeeds)

-- An element whose payload, of at least one byte, is there in whole is parsed.
pub parse_element-Succeeds :
    (id n : ℕ) (var : List ℕ) (p : Packet)
    → 1 ≤ length var
    → n ≤ length var
    → Succeeds (parse_element id n var p)
unfolding parse_element parse_vendor
parse_element-Succeeds id n var p h k =
    if-Succeeds (id == ie_ssid) (λ t. parse_ssid-Succeeds n var p h k)
      λ t.
        if-Succeeds (id == ie_dsss_param)
          (λ t. bind-Succeeds (get_elem?-Succeeds var 0 (omega arith)) (λ c e. succeeds))
          λ t.
            if-Succeeds (id == ie_rsn) (λ t. succeeds)
              λ t.
                if-Succeeds (id == ie_ht_capab) (λ t. parse_ht_capab-Succeeds n var p h k)
                  λ t.
                    if-Succeeds (id == ie_ht_oper) (λ t. parse_ht_oper-Succeeds n var p h k)
                      λ t.
                        if-Succeeds (id == ie_vht_oper || id == ie_vht_omn) (λ t. succeeds)
                          λ t.
                            if-Succeeds (id == ie_vht_capab)
                              (λ t. parse_vht_capab-Succeeds n var p h k)
                              λ t.
                                if-Succeeds (id == ie_vendor)
                                  (λ t.
                                    if-Succeeds (leb 4 n)
                                      (λ t'.
                                        bind-Succeeds
                                          (bytes_are-Succeeds var 0 (0x00 ∷ 0x50 ∷ 0xf2 ∷ 1 ∷ [])
                                            (ground arith))
                                          (λ w e. succeeds))
                                      (λ t'. succeeds))
                                  (λ t. succeeds)

parse_elements-Succeeds :
    (rounds len : ℕ) (buf : List ℕ) (p : Packet)
    → IsBytes buf
    → (2 < len → len + 255 ≤ length buf)
    → Succeeds (parse_elements rounds len buf p)
unfolding parse_elements
parse_elements-Succeeds zero len buf p bs h = succeeds
parse_elements-Succeeds (suc rounds) len buf p bs h = elim (Bool-cases (ltb 2 len)) [
  | inr done ↦ rw (done, parse_elements) succeeds
  | inl open_round ↦
      let slack : len + 255 ≤ length buf = h (ground arith) in
      let more : 2 < len = ground arith in
      rw (open_round, parse_elements)
        (bind-Succeeds (get_elem?-Succeeds buf 0 (omega arith)) λ id e0.
          bind-Succeeds (get_elem?-Succeeds buf 1 (omega arith)) λ n e1.
            let small : n < 256 = get_elem?-IsBytes buf 1 n bs e1 in
            bind-Succeeds
              (parse_element-Succeeds id n (drop 2 buf) p (omega (arith, length-drop {0} 2 buf))
                (omega (arith, length-drop {0} 2 buf)))
              λ q e2.
                parse_elements-Succeeds rounds (len - (n + 2)) (drop n (drop 2 buf)) q
                  (drop-IsBytes n (drop 2 buf) (drop-IsBytes 2 buf bs))
                  (λ k. omega (arith, length-drop {0} 2 buf, length-drop {0} n (drop 2 buf))))
]

-- The parser trusts the length byte of each element: it never reads out of bounds where 255 bytes of memory
-- stand behind the length that it is given, if this length lets the loop run at all.
pub parse_information_elements-Succeeds :
    (buf : List ℕ) (len : ℕ) (p : Packet)
    → IsBytes buf
    → (2 < loop_len len → loop_len len + 255 ≤ length buf)
    → Succeeds (parse_information_elements buf len p)
unfolding parse_information_elements
parse_information_elements-Succeeds buf len p bs h =
    parse_elements-Succeeds (loop_len len) (loop_len len) buf p bs h

-- In memory of exactly the length given, an SSID element whose length byte is larger than the bytes
-- that are left, at least one and fewer than 33, makes the element parser read out of bounds.
pub ssid_overrun :
    (n : ℕ) (var : List ℕ) (p : Packet)
    → 1 ≤ length var
    → length var < n
    → length var < 33
    → parse_information_elements (ie_ssid ∷ n ∷ var) (length var + 2) p ≡ none
unfolding parse_information_elements parse_elements parse_element parse_ssid
ssid_overrun n var p one over small =
    let l : loop_len (length var + 2) ≡ suc (length var + 1) = ground arith in
    let open_round : ltb 2 (suc (length var + 1)) ≡ true = ground arith in
    let short = bytes_short (if ltb n max_ssid then n else max_ssid) var (ground arith) in
    rw l (rw (open_round, parse_elements) (rw short))
