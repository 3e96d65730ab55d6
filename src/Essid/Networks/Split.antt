-- ===== src/Essid/Networks/Split.antt =====
-- update_essid_split_status of core/essid.c finds out whether a network is split.
use libuwifi.Base.{
  ℕ, ◌≤◌, ◌≡◌, refl, ◌∙◌, sym, ap, Bool, true, false, ◌&&◌, ◌||◌, not, Option, none, some, List, [],
  ◌∷◌, leb, Bool-cases, inl, inr, arith, length, if◌then◌else◌, test_bit,
}
use libuwifi.Store.{contains, update, is_some, is_some-some}
use libuwifi.Node.Mac.{eq_mac, eq_mac_sound}
use libuwifi.Node.Info.{Info}
use libuwifi.Essid.Networks.{
  Networks, IsNetworks, differs, is_skipped, split_loop, update_essid_split_status,
}

-- The BSSID of a node, unless its mode has the bit of access points (0) or of probing (3).
abbrev pub add_bssid : Option Info → List (List ℕ) → List (List ℕ)
add_bssid none rest = rest
add_bssid (some i) rest =
    if test_bit i.wlan_mode 0 || test_bit i.wlan_mode 3 then rest else i.wlan_bssid ∷ rest

-- The BSSIDs of the nodes whose mode has neither of the bits.
abbrev pub bssids : (ℕ → Option Info) → List ℕ → List (List ℕ)
bssids node [] = []
bssids node (n ∷ ns) = add_bssid (node n) (bssids node ns)

abbrev pub all_equal : List ℕ → List (List ℕ) → Bool
all_equal b [] = true
all_equal b (c ∷ cs) = eq_mac b c && all_equal b cs

-- The addresses are all the same.
abbrev pub all_same : List (List ℕ) → Bool
all_same [] = true
all_same (b ∷ bs) = all_equal b bs

-- The last address differs from one of the list.
abbrev pub differ_from : Option (List ℕ) → List (List ℕ) → Bool
differ_from none bs = not (all_same bs)
differ_from (some b) bs = not (all_equal b bs)

-- What the loop adds at one address.
differ_step :
    (last : Option (List ℕ)) (b : List ℕ) (bs : List (List ℕ))
    → (differs last b || differ_from (some b) bs) ≡ differ_from last (b ∷ bs)
differ_step none b bs = refl
differ_step (some l) b bs = elim (Bool-cases (eq_mac l b)) [
  | inl e ↦ rw e (ap (λ a. not (all_equal a bs)) (sym (eq_mac_sound l b e)))
  | inr e ↦ rw e refl
]

or_assoc : (a b c : Bool) → ((a || b) || c) ≡ (a || (b || c))
or_assoc true b c = refl
or_assoc false b c = refl

split_loop_lem :
    (node : ℕ → Option Info) (last : Option (List ℕ)) (split : Bool) (ns : List ℕ)
    → ((n : ℕ) → contains n ns ≡ true → is_some (node n) ≡ true)
    → split_loop node last split ns ≡ some (split || differ_from last (bssids node ns))
split_loop_lem node none split [] alive = ap some (ground arith)
split_loop_lem node (some b) split [] alive = ap some (ground arith)
split_loop_lem node last split (n ∷ ns) alive =
    let (i, at) = is_some-some (node n) (alive n (ground arith)) in
    let rest = λ (m : ℕ) (c : contains m ns ≡ true). alive m (ground arith) in
    elim (Bool-cases (is_skipped i)) [
      | inl skip ↦ rw (at, skip) (split_loop_lem node last split ns rest)
      | inr seen ↦
          rw (at, seen)
            (split_loop_lem node (some i.wlan_bssid) (split || differs last i.wlan_bssid) ns rest
              ∙ ap some (
                  or_assoc split (differs last i.wlan_bssid)
                    (differ_from (some i.wlan_bssid) (bssids node ns))
                  ∙ ap (λ b. split || b) (differ_step last i.wlan_bssid (bssids node ns))))
    ]

-- One node cannot be split.
one_same : (node : ℕ → Option Info) (ns : List ℕ) → length ns ≤ 1 → all_same (bssids node ns) ≡ true
one_same node [] h = refl
one_same node (n ∷ []) h = one_info (node n)
  where
    one_info : (o : Option Info) → all_same (add_bssid o []) ≡ true
    one_info none = refl
    one_info (some i) = ground arith
one_same node (n ∷ m ∷ ns) h = absurd (omega arith)

-- Where the networks are in order, the split status of a listed network becomes true exactly if the
-- BSSIDs of its nodes, but for nodes with the bit of access points or that of probing in their
-- mode, are not all the same; nothing else changes.
pub update_essid_split_status_lem :
    (node : ℕ → Option Info) (empty : ℕ → Bool) (s : Networks) (e : ℕ)
    → IsNetworks node empty s
    → contains e s.essids ≡ true
    → update_essid_split_status node e s
      ≡ some
          (record s { split = update s.split e (not (all_same (bssids node (s.essid_nodes e)))) })
unfolding update_essid_split_status
update_essid_split_status_lem node empty s e valid listed =
    let (name, at) = is_some-some (s.essid e) (valid.listed e ∙ listed) in
    let alive = λ (n : ℕ) (c : contains n (s.essid_nodes e) ≡ true).
      valid.node_alive n e (sym (valid.links.linked n e) ∙ c) in
    elim (Bool-cases (leb (s.num_nodes e) 1)) [
      | inl few ↦
          let short : length (s.essid_nodes e) ≤ 1 = ground (arith, valid.counted e) in
          rw (at, few, one_same node (s.essid_nodes e) short) refl
      | inr many ↦ rw (at, many, split_loop_lem node none false (s.essid_nodes e) alive) refl
    ]
