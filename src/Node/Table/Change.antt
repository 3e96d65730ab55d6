-- ===== src/Node/Table/Change.antt =====
-- What uwifi_node_update and uwifi_node_update_receiver share: the node with an address is found or
-- added, and its fields are written.
use libuwifi.Base.{
  ℕ, suc, ◌≡◌, refl, Bool, true, false, Option, none, some, List, [], ◌∷◌, ◌++◌, ◌==◌, Bool-cases,
  Option-cases, inl, inr, arith, ap, sym, ◌∙◌, if◌then◌else◌, ◌>>=◌,
}
use libuwifi.Store.{
  Lists, ListLaws, update, contains, is_some, contains-append, Distinct-append, next_unlisted,
}
use libuwifi.Node.Mac.{eq_mac, eq_mac_sound}
use libuwifi.Node.Info.{Info, new_info, new_info_runs, zero_info, node_average}
use libuwifi.Node.Table.{Table, IsTable, Unique, find, or_add}
use libuwifi.Node.Table.Find.{find_runs, find-Found, find-Missing, find_step}
use libuwifi.Node.Table.Content.{content, content_found, content_added}

-- The fields that a node has before it is written: its own, or those of a new node.
abbrev pub prior : Bool → Option Info → Option Info
prior rx_only none = new_info >>= λ i. some (record i { rx_only = rx_only })
prior rx_only (some i) = some i

-- The search for the address gives a node `n` of the table `ready`, whose fields `i` are those that the
-- map had at the address, or new ones; if they are changed and the node gets the address, the map changes
-- there and nowhere else.
pub record Ready (lists : Lists) (rx_only : Bool) (addr : List ℕ) (t : Table) (found : Option ℕ)
    : Type 0 where
  pub n : ℕ
  pub ready : Table
  pub i : Info
  pub runs : or_add lists rx_only t found ≡ some (n, ready)
  pub valid : IsTable ready
  pub at : ready.node n ≡ some i
  pub keeps : (m : ℕ) → is_some (t.node m) ≡ true → is_some (ready.node m) ≡ true
  pub same : (m : ℕ) → is_some (t.node m) ≡ true → ready.node m ≡ t.node m
  pub before : prior rx_only (content t.node t.nodes addr) ≡ some i
  pub others : (m : ℕ) → (m == n) ≡ false → ready.node m ≡ t.node m
  pub apart :
      Unique t
      → (m : ℕ) (j : Info) → (m == n) ≡ false
      → t.node m ≡ some j
      → eq_mac addr j.wlan_src ≡ false
  pub written :
      (i' : Info)
      → i'.wlan_src ≡ addr
      → (mac : List ℕ)
      → content (update ready.node n (some i')) ready.nodes mac
        ≡ (if eq_mac mac addr then some i' else content t.node t.nodes mac)

-- The map at an address has the fields of the node that is found.
content-Found :
    (node : ℕ → Option Info) (addr : List ℕ) (ns : List ℕ) (n : ℕ)
    → find node addr ns ≡ some (some n)
    → content node ns addr ≡ node n
content-Found node addr [] n e = absurd (cc)
content-Found node addr (x ∷ xs) n e =
    let (j, at, step) = find_step node addr x xs e in
    elim step [
      | inl (same, e') ↦ let here : x ≡ n = cc in rw (at, same) (sym at ∙ ap node here)
      | inr (other, e') ↦ rw (at, other) (content-Found node addr xs n e')
    ]

content-Missing :
    (node : ℕ → Option Info) (addr : List ℕ) (ns : List ℕ)
    → find node addr ns ≡ some none
    → content node ns addr ≡ none
content-Missing node addr [] e = refl
content-Missing node addr (x ∷ xs) e =
    let (j, at, step) = find_step node addr x xs e in
    elim step [
      | inl (same, e') ↦ absurd (cc)
      | inr (other, e') ↦ rw (at, other) (content-Missing node addr xs e')
    ]

module _ {lists : Lists} (laws : ListLaws lists) (t : Table) (valid : IsTable t)
    (addr : List ℕ) where
  or_add_found :
      (rx_only : Bool) (n : ℕ)
      → find t.node addr t.nodes ≡ some (some n)
      → Ready lists rx_only addr t (some n)
  or_add_found rx_only n e =
      let (c, i, at, same) = find-Found t.node addr t.nodes n e in
      record {
        n = n;
        ready = t;
        i = i;
        runs = refl;
        valid = valid;
        at = at;
        keeps = λ m a. a;
        same = λ m a. refl;
        before = rw (content-Found t.node addr t.nodes n e, at) refl;
        others = λ m other. refl;
        apart = λ unique m j other at_j. elim (Bool-cases (eq_mac addr j.wlan_src)) [
          | inl meet ↦
              let own : i.wlan_src ≡ j.wlan_src =
                sym (eq_mac_sound addr i.wlan_src same) ∙ eq_mac_sound addr j.wlan_src meet in
              let one : n ≡ m = unique.same n m i j at at_j own in absurd (ground arith)
          | inr differ ↦ differ
        ];
        written = λ i' src mac.
            content_found t.node (update t.node n (some i')) mac t.nodes addr n i i' e at
              (ground arith) src (λ m other. rw other refl);
      }

  or_add_new :
      (rx_only : Bool) → find t.node addr t.nodes ≡ some none → Ready lists rx_only addr t none
  or_add_new rx_only e =
      let base = zero_info node_average in
      let made = new_info_runs in
      let fresh = record base { rx_only = rx_only } in
      let unused = next_unlisted t.next t.nodes valid.unused in
      let added = laws.appends t.next t.nodes in
      record {
        n = t.next;
        ready = record {
          nodes = t.nodes ++ t.next ∷ [];
          node = update t.node t.next (some fresh);
          next = suc t.next;
        };
        i = fresh;
        runs = rw (made, added) refl;
        valid = record {
          distinct = Distinct-append t.next t.nodes valid.distinct unused;
          listed = λ m. rw (contains-append m t.next t.nodes) elim (Bool-cases (m == t.next)) [
            | inl same ↦ rw same (ground arith)
            | inr other ↦ rw (other, valid.listed m) (ground arith)
          ];
          unused = λ m c. ground (arith, contains-append m t.next t.nodes, valid.unused m);
        };
        at = ground arith;
        keeps = λ m a. ground arith;
        same = λ m a. elim (Bool-cases (m == t.next)) [
          | inl here ↦
              let m_next : m ≡ t.next = ground arith in
              let clash : true ≡ false =
                sym a ∙ valid.listed m ∙ ap (λ k. contains k t.nodes) m_next ∙ unused in
              absurd (cc)
          | inr there ↦ rw there refl
        ];
        before = rw (content-Missing t.node addr t.nodes e, made) refl;
        others = λ m other. rw other refl;
        apart = λ unique m j other at_j.
            find-Missing t.node addr t.nodes m j e (sym (valid.listed m) ∙ ap is_some at_j) at_j;
        written = λ i' src mac.
            content_added t.node (update (update t.node t.next (some fresh)) t.next (some i')) mac
              t.nodes addr t.next i' e (ground arith) src
              (λ m c. elim (Bool-cases (m == t.next)) [
                | inl same ↦
                    let here : m ≡ t.next = ground arith in
                    let clash : true ≡ false = sym c ∙ ap (λ k. contains k t.nodes) here ∙ unused in
                    absurd (cc)
                | inr other ↦ rw other refl
              ]);
      }

  -- The search and the addition meet no fault.
  pub ready_lem :
      (rx_only : Bool)
      → (found : Option ℕ) × (find t.node addr t.nodes ≡ some found)
        × Ready lists rx_only addr t found
  ready_lem rx_only =
      let (found, e) = find_runs t.node addr t.nodes (λ m c. valid.listed m ∙ c) in
      elim (Option-cases found) [
        | inl none_found ↦
            (none, e ∙ ap some none_found, or_add_new rx_only (e ∙ ap some none_found))
        | inr (n, one) ↦ (some n, e ∙ ap some one, or_add_found rx_only n (e ∙ ap some one))
      ]
