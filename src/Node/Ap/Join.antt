-- ===== src/Node/Ap/Join.antt =====
-- uwifi_nodes_find_ap of core/node.c: a station joins the access point that its BSSID names.
use libuwifi.Base.{
  ℕ, ◌≡◌, refl, ◌∙◌, Bool, true, false, not, Option, none, some, List, ◌==◌, Bool-cases, inl, inr,
  arith, sym, ap,
}
use libuwifi.Store.{Lists, ListLaws, points, is_some, is_some-some, update_self, some_inj, add_link}
use libuwifi.Node.Mac.{eq_mac}
use libuwifi.Node.Info.{Info}
use libuwifi.Node.Table.{Table, find}
use libuwifi.Node.Table.Find.{AllAlive, find_runs, find-Found}
use libuwifi.Node.Ap.{Aps, IsAps, is_other, join_ap, change_ap, seeks_ap, nodes_find_ap}
use libuwifi.Node.Ap.Leave.{leave_ap_lem}

-- The links `s'` are in order; the node `n` points to an access point with the address `bssid`, or to none
-- if no node has the address; the other nodes point to what they pointed to in `s`.
pub record Joins (t : Table) (n : ℕ) (bssid : List ℕ) (s s' : Aps) : Type 0 where
  pub valid : IsAps t.node s'
  pub joined :
      (a : ℕ)
      → s'.ap_node n ≡ some a
      → (i : Info) × (t.node a ≡ some i) × (eq_mac bssid i.wlan_src ≡ true)
  pub alone : s'.ap_node n ≡ none → find t.node bssid t.nodes ≡ some none
  pub others : (m : ℕ) → (m == n) ≡ false → s'.ap_node m ≡ s.ap_node m

-- The comparison meets no fault, and a result `false` means that the access point has the address.
is_other_runs :
    (node : ℕ → Option Info) (bssid : List ℕ) (o : Option ℕ)
    → ((a : ℕ) → points o a ≡ true → is_some (node a) ≡ true)
    → (other : Bool) × (is_other node bssid o ≡ some other)
      × (other ≡ false
          → (a : ℕ) × (i : Info) × (o ≡ some a)
            × (node a ≡ some i)
            × (eq_mac bssid i.wlan_src ≡ true))
is_other_runs node bssid none alive = (true, refl, λ e. absurd (cc))
is_other_runs node bssid (some a) alive =
    let (i, at) = is_some-some (node a) (alive a (ground arith)) in
    (not (eq_mac bssid i.wlan_src), rw at refl, λ e. (a, i, refl, at, ground arith))

module _ {lists : Lists} (laws : ListLaws lists) (t : Table) (alive : AllAlive t.node t.nodes) where
  -- A node without an access point joins the one that was found.
  join_found :
      (s left : Aps) (n : ℕ) (bssid : List ℕ) (found : Option ℕ)
      → IsAps t.node left
      → left.ap_node n ≡ none
      → ((m : ℕ) → (m == n) ≡ false → left.ap_node m ≡ s.ap_node m)
      → is_some (t.node n) ≡ true
      → find t.node bssid t.nodes ≡ some found
      → Joins t n bssid s (join_ap lists n found left)
  join_found s left n bssid none valid free others n_alive e = record {
    valid = valid;
    joined = λ a e'. absurd (cc);
    alone = λ e'. e;
    others = others;
  }
  join_found s left n bssid (some a) valid free others n_alive e =
      let (listed, i, at, same) = find-Found t.node bssid t.nodes a e in
      let appended = laws.appends n (left.ap_nodes a) in
      record {
        valid = rw appended (record {
          links = add_link valid.links n a free;
          station_alive = λ m b p. elim (Bool-cases (m == n)) [
            | inl here ↦ let m_n : m ≡ n = ground arith in rw m_n n_alive
            | inr there ↦ valid.station_alive m b (ground arith)
          ];
          ap_alive = λ m b p. elim (Bool-cases (m == n)) [
            | inl here ↦ let is_a : a ≡ b = ground arith in ap is_some (ap t.node (sym is_a) ∙ at)
            | inr there ↦ valid.ap_alive m b (ground arith)
          ];
        });
        joined = λ b e'.
            let same_ap : a ≡ b = some_inj (sym (update_self left.ap_node n (some a)) ∙ e') in
            (i, ap t.node (sym same_ap) ∙ at, same);
        alone = λ e'.
            let clash : some a ≡ none = sym (update_self left.ap_node n (some a)) ∙ e' in
            absurd (cc);
        others = λ m other. rw other (others m other);
      }

  -- The body of the condition.
  change_ap_lem :
      (s : Aps) (n : ℕ) (bssid : List ℕ)
      → IsAps t.node s
      → is_some (t.node n) ≡ true
      → (s' : Aps) × (change_ap lists t n bssid s ≡ some s') × Joins t n bssid s s'
  change_ap_lem s n bssid valid n_alive =
      let left = leave_ap_lem laws s n valid in
      let (found, e) = find_runs t.node bssid t.nodes alive in
      (
        join_ap lists n found left.left,
        rw (left.runs, e) refl,
        join_found s left.left n bssid found left.valid left.free left.others n_alive e,
      )

  -- Where the listed nodes are allocated and the links in order, a station with a BSSID behind
  -- uwifi_nodes_find_ap points to an access point with that address, or to none if no node has it;
  -- other nodes keep their access points, and the links stay in order.
  pub nodes_find_ap-Joins :
      (s : Aps) (n : ℕ) (i : Info)
      → IsAps t.node s
      → t.node n ≡ some i
      → seeks_ap i ≡ true
      → (s' : Aps) × (nodes_find_ap lists t n s ≡ some s') × Joins t n i.wlan_bssid s s'
  unfolding nodes_find_ap
  nodes_find_ap-Joins s n i valid at seeks =
      let (other, e, same) = is_other_runs t.node i.wlan_bssid (s.ap_node n) (valid.ap_alive n) in
      elim (Bool-cases other) [
        | inl o ↦
            let (s', runs, joins) = change_ap_lem s n i.wlan_bssid valid (ap is_some at) in
            (s', rw (at, seeks, e, o) runs, joins)
        | inr o ↦
            let (a, j, points_a, at_a, match) = same o in
            (
              s,
              rw (at, seeks, e, o) refl,
              record {
                valid = valid;
                joined = λ b e'.
                    let same_ap : a ≡ b = some_inj (sym points_a ∙ e') in
                    (j, ap t.node (sym same_ap) ∙ at_a, match);
                alone = λ e'. let clash : some a ≡ none = sym points_a ∙ e' in absurd (cc);
                others = λ m other. refl;
              },
            )
      ]

  -- A node that does not look for one.
  pub nodes_find_ap-idle :
      (s : Aps) (n : ℕ) (i : Info)
      → t.node n ≡ some i
      → seeks_ap i ≡ false
      → nodes_find_ap lists t n s ≡ some s
  unfolding nodes_find_ap
  nodes_find_ap-idle s n i at idle = rw (at, idle) refl
