-- ===== src/Node/Table/Content.antt =====
-- The nodes as a finite map from addresses, and what a change of the list or of a node does to it.
use libuwifi.Base.{
  ℕ, ◌≡◌, refl, true, false, Option, none, some, List, [], ◌∷◌, ◌++◌, ◌==◌, Bool-cases, inl, inr,
  arith, ap, sym, ◌∙◌, if◌then◌else◌,
}
use libuwifi.Store.{contains, some_inj}
use libuwifi.Node.Mac.{eq_mac, eq_mac_sound}
use libuwifi.Node.Info.{Info}
use libuwifi.Node.Table.{find}
use libuwifi.Node.Table.Find.{find_step, find-Found}

-- The fields of a node, if it has the address, and else what the rest of the list says.
abbrev pub or_rest : List ℕ → Option Info → Option Info → Option Info
or_rest mac none rest = rest
or_rest mac (some i) rest = if eq_mac mac i.wlan_src then some i else rest

-- The fields of the first node with an address: the map that the list stands for.
abbrev pub content : (ℕ → Option Info) → List ℕ → List ℕ → Option Info
content node [] mac = none
content node (n ∷ ns) mac = or_rest mac (node n) (content node ns mac)

-- An address that equals another one differs from a third address if that one does.
eq_mac-apart :
    (mac addr src : List ℕ)
    → eq_mac addr src ≡ false
    → eq_mac mac src ≡ true
    → eq_mac mac addr ≡ false
eq_mac-apart mac addr src other same = elim (Bool-cases (eq_mac mac addr)) [
  | inl e ↦ absurd (
      let clash : true ≡ false =
        sym same ∙ ap (λ l. eq_mac l src) (eq_mac_sound mac addr e) ∙ other in
      cc)
  | inr e ↦ e
]

module _ (node node' : ℕ → Option Info) (mac : List ℕ) where
  -- Nodes of which none changes keep the map.
  pub content_same :
      (ns : List ℕ)
      → ((m : ℕ) → contains m ns ≡ true → node' m ≡ node m)
      → content node' ns mac ≡ content node ns mac
  content_same [] h = refl
  content_same (x ∷ xs) h =
      rw (h x (ground arith), content_same xs (λ m c. h m (ground arith))) refl

  -- A node that has another address before and behind a change keeps the map at `mac`.
  content_other :
      (ns : List ℕ) (n : ℕ) (i i' : Info)
      → node n ≡ some i
      → node' n ≡ some i'
      → eq_mac mac i.wlan_src ≡ false
      → eq_mac mac i'.wlan_src ≡ false
      → ((m : ℕ) → (m == n) ≡ false → node' m ≡ node m)
      → content node' ns mac ≡ content node ns mac
  content_other [] n i i' a a' e e' h = refl
  content_other (x ∷ xs) n i i' a a' e e' h =
      let rest = content_other xs n i i' a a' e e' h in
      elim (Bool-cases (x == n)) [
        | inl here ↦
            let same : x ≡ n = ground arith in
            let at : node x ≡ some i = ap node same ∙ a in
            let at' : node' x ≡ some i' = ap node' same ∙ a' in rw (at, at', e, e', rest) refl
        | inr there ↦ rw (h x there, rest) refl
      ]

  -- A node with another address than `addr` stands before the rest of a list.
  skip_other :
      (x : ℕ) (j : Info) (addr : List ℕ) (i' : Info) (old new : Option Info)
      → node x ≡ some j
      → eq_mac addr j.wlan_src ≡ false
      → new ≡ (if eq_mac mac addr then some i' else old)
      → node' x ≡ node x
      → or_rest mac (node' x) new ≡ (if eq_mac mac addr then some i' else or_rest mac (node x) old)
  skip_other x j addr i' old new at other rest same = elim (Bool-cases (eq_mac mac j.wlan_src)) [
    | inl e ↦ rw (same, at, e, eq_mac-apart mac addr j.wlan_src other e) refl
    | inr e ↦ rw (same, at, e) rest
  ]

  -- The node that the search finds changes, and keeps the address: the map changes at that address.
  pub content_found :
      (ns : List ℕ) (addr : List ℕ) (n : ℕ) (i i' : Info)
      → find node addr ns ≡ some (some n)
      → node n ≡ some i
      → node' n ≡ some i'
      → i'.wlan_src ≡ addr
      → ((m : ℕ) → (m == n) ≡ false → node' m ≡ node m)
      → content node' ns mac ≡ (if eq_mac mac addr then some i' else content node ns mac)
  content_found [] addr n i i' e a a' src h = absurd (cc)
  content_found (x ∷ xs) addr n i i' e a a' src h =
      let (j, at, step) = find_step node addr x xs e in
      elim step [
        | inl (same, e') ↦
            let here : x ≡ n = cc in
            let at' : node' x ≡ some i' = ap node' here ∙ a' in
            let together : j ≡ i = some_inj (sym at ∙ ap node here ∙ a) in
            let own = eq_mac_sound addr j.wlan_src same in
            elim (Bool-cases (eq_mac mac addr)) [
              | inl m ↦ rw (at', src, m) refl
              | inr m ↦
                  let apart : eq_mac mac j.wlan_src ≡ false = ap (eq_mac mac) (sym own) ∙ m in
                  let apart' : eq_mac mac i'.wlan_src ≡ false = ap (eq_mac mac) src ∙ m in
                  let apart_i : eq_mac mac i.wlan_src ≡ false =
                    ap (λ k. eq_mac mac k.wlan_src) (sym together) ∙ apart in
                  rw (at', at, apart, apart', m, content_other xs n i i' a a' apart_i apart' h) refl
            ]
        | inr (other, e') ↦
            let (c, k, at_n, matches) = find-Found node addr xs n e' in
            elim (Bool-cases (x == n)) [
              | inl here ↦
                  let same : n ≡ x = ground arith in
                  let together : k ≡ j = some_inj (sym at_n ∙ ap node same ∙ at) in
                  let clash : true ≡ false =
                    sym matches ∙ ap (λ l. eq_mac addr l.wlan_src) together ∙ other in
                  absurd (cc)
              | inr there ↦
                  let rest = content_found xs addr n i i' e' a a' src h in
                  skip_other x j addr i' (content node xs mac) (content node' xs mac) at other rest
                    (h x there)
            ]
      ]

  -- A new node with an address that no node has.
  pub content_added :
      (ns : List ℕ) (addr : List ℕ) (n : ℕ) (i' : Info)
      → find node addr ns ≡ some none
      → node' n ≡ some i'
      → i'.wlan_src ≡ addr
      → ((m : ℕ) → contains m ns ≡ true → node' m ≡ node m)
      → content node' (ns ++ n ∷ []) mac
        ≡ (if eq_mac mac addr then some i' else content node ns mac)
  content_added [] addr n i' e a' src h = rw (a', src) refl
  content_added (x ∷ xs) addr n i' e a' src h =
      let (j, at, step) = find_step node addr x xs e in
      elim step [
        | inl (same, e') ↦ absurd (cc)
        | inr (other, e') ↦
            let rest = content_added xs addr n i' e' a' src (λ m c. h m (ground arith)) in
            skip_other x j addr i' (content node xs mac) (content node' (xs ++ n ∷ []) mac) at other
              rest (h x (ground arith))
      ]
