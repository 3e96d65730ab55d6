-- ===== src/Node/Table/Find.antt =====
-- What the search for an address finds.
use libuwifi.Base.{
  ℕ, ◌≡◌, refl, true, false, Option, none, some, List, [], ◌∷◌, ◌==◌, Bool-cases, inl, inr, arith,
  ap, sym, ◌∙◌, >>=-eq-some, if_cases, if◌then◌else◌, ◌⊎◌, Bool-cases,
}
use libuwifi.Store.{contains, is_some, is_some-some, some_inj}
use libuwifi.Node.Mac.{eq_mac}
use libuwifi.Node.Info.{Info}
use libuwifi.Node.Table.{find}

-- Every element of the list is allocated.
abbrev pub AllAlive : (ℕ → Option Info) → List ℕ → Type 0
AllAlive node ns = (n : ℕ) → contains n ns ≡ true → is_some (node n) ≡ true

module _ (node : ℕ → Option Info) (mac : List ℕ) where
  -- The search meets no fault.
  pub find_runs : (ns : List ℕ) → AllAlive node ns → (r : Option ℕ) × (find node mac ns ≡ some r)
  find_runs [] alive = (none, refl)
  find_runs (n ∷ ns) alive =
      let (i, e) = is_some-some (node n) (alive n (ground arith)) in
      let (r, rest) = find_runs ns (λ m c. alive m (ground arith)) in
      elim (Bool-cases (eq_mac mac i.wlan_src)) [
        | inl same ↦ (some n, rw (e, same) refl)
        | inr other ↦ (r, rw (e, other, rest) refl)
      ]

  -- The step of the search at one node.
  pub find_step :
      (x : ℕ) (xs : List ℕ) {r : Option ℕ}
      → find node mac (x ∷ xs) ≡ some r
      → (j : Info) × (node x ≡ some j)
        × (((eq_mac mac j.wlan_src ≡ true) × (some x ≡ r))
            ⊎ ((eq_mac mac j.wlan_src ≡ false) × (find node mac xs ≡ some r)))
  find_step x xs e =
      let (j, at, e') =
        >>=-eq-some (node x)
          (λ i. if eq_mac mac i.wlan_src then some (some x) else find node mac xs) e in
      elim (if_cases (eq_mac mac j.wlan_src) (some (some x)) (find node mac xs) e') [
        | inl (same, e'') ↦ (j, at, inl (same, cc))
        | inr (other, e'') ↦ (j, at, inr (other, e''))
      ]

  -- A node that is found is in the list and has the address.
  pub find-Found :
      (ns : List ℕ) (n : ℕ)
      → find node mac ns ≡ some (some n)
      → (contains n ns ≡ true) × (i : Info) × (node n ≡ some i) × (eq_mac mac i.wlan_src ≡ true)
  find-Found [] n e = absurd (cc)
  find-Found (x ∷ xs) n e =
      let (j, at, step) = find_step x xs e in
      elim step [
        | inl (same, e') ↦ let here : n ≡ x = cc in (ground arith, j, ap node here ∙ at, same)
        | inr (other, e') ↦
            let (c, i, at', same) = find-Found xs n e' in (ground arith, i, at', same)
      ]

  -- If none is found, no node of the list has the address.
  pub find-Missing :
      (ns : List ℕ) (n : ℕ) (i : Info)
      → find node mac ns ≡ some none
      → contains n ns ≡ true
      → node n ≡ some i
      → eq_mac mac i.wlan_src ≡ false
  find-Missing [] n i e c a = absurd (cc)
  find-Missing (x ∷ xs) n i e c a =
      let (j, at, step) = find_step x xs e in
      elim step [
        | inl (same, e') ↦ absurd (cc)
        | inr (other, e') ↦ elim (Bool-cases (n == x)) [
          | inl here ↦
              let same : n ≡ x = ground arith in
              let together : i ≡ j = some_inj (sym a ∙ ap node same ∙ at) in
              ap (λ k. eq_mac mac k.wlan_src) together ∙ other
          | inr there ↦ find-Missing xs n i e' (ground arith) a
        ]
      ]
