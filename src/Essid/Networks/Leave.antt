-- ===== src/Essid/Networks/Leave.antt =====
-- uwifi_essids_remove_node of core/essid.c: a node leaves its network, which is freed with its last node.
use libuwifi.Base.{
  ℕ, ◌<◌, ◌≡◌, refl, ◌∙◌, sym, ap, Bool, true, false, ◌||◌, not, Option, none, some, List, [], ◌∷◌,
  ◌==◌, Bool-cases, Option-cases, inl, inr, arith, length, sub32,
}
use libuwifi.Store.{
  Lists, ListLaws, contains, remove, update, points, is_some-some, some-points, remove_link,
  contains-owner, length-remove, contains-remove, Distinct-remove,
}
use libuwifi.Node.Info.{Info}
use libuwifi.Essid.Networks.{Networks, IsNetworks, keep_networks, leave_essid, essids_remove_node}
use libuwifi.Essid.Networks.Split.{bssids, all_same, update_essid_split_status_lem}

-- The run ends in order, and the node without a network; other networks than that of the node keep their
-- name, number of nodes and place in the list, and other nodes their network.
pub record Leaves (node : ℕ → Option Info) (empty : ℕ → Bool) (s : Networks) (n : ℕ)
    (r : Option Networks) : Type 0 where
  pub left : Networks
  pub runs : r ≡ some left
  pub valid : IsNetworks node empty left
  pub free : left.node_essid n ≡ none
  pub others : (m : ℕ) → (m == n) ≡ false → left.node_essid m ≡ s.node_essid m
  pub stay :
      (e : ℕ)
      → points (s.node_essid n) e ≡ false
      → (contains e left.essids ≡ contains e s.essids)
        × (left.essid e ≡ s.essid e)
        × (left.num_nodes e ≡ s.num_nodes e)

contains-nothing : (n : ℕ) (xs : List ℕ) → length xs ≡ 0 → contains n xs ≡ false
contains-nothing n [] e = refl
contains-nothing n (x ∷ xs) e = absurd (omega arith)

pub length_pos : (n : ℕ) (xs : List ℕ) → contains n xs ≡ true → 0 < length xs
length_pos n [] e = absurd (cc)
length_pos n (x ∷ xs) e = omega arith

-- The state behind the removal of the node from the network's list.
abbrev unlinked : Networks → ℕ → ℕ → Networks
unlinked s n e = record s {
  node_essid = update s.node_essid n none;
  essid_nodes = update s.essid_nodes e (remove n (s.essid_nodes e));
  num_nodes = update s.num_nodes e (sub32 (s.num_nodes e) 1);
}

module _ {node : ℕ → Option Info} {empty : ℕ → Bool} where
  unlinked-IsNetworks :
      (s : Networks) (n e : ℕ)
      → IsNetworks node empty s
      → s.node_essid n ≡ some e
      → IsNetworks node (λ x. empty x || x == e) (unlinked s n e)
  unlinked-IsNetworks s n e valid member =
      let inside = contains-owner valid.links n e member in
      let shorter = length-remove n (s.essid_nodes e) inside in
      record {
        links = remove_link valid.links n e member;
        node_alive = λ m x p. ground (arith, valid.node_alive m x);
        essid_alive = λ m x p. ground (arith, valid.essid_alive m x);
        distinct = valid.distinct;
        listed = valid.listed;
        unused = valid.unused;
        counted = λ x. elim (Bool-cases (x == e)) [
          | inl here ↦ rw here (ground (arith, valid.counted e, valid.fits e))
          | inr there ↦ rw there (valid.counted x)
        ];
        used = λ x c p. ground (arith, valid.used x);
        fits = λ x. ground (arith, valid.fits x, valid.fits e);
      }

  -- A network without nodes is freed.
  dropped-IsNetworks :
      (s : Networks) (e : ℕ)
      → IsNetworks node (λ x. empty x || x == e) s
      → s.num_nodes e ≡ 0
      → IsNetworks node empty
          (record s { essids = remove e s.essids; essid = update s.essid e none })
  dropped-IsNetworks s e valid nobody = record {
    links = valid.links;
    node_alive = valid.node_alive;
    essid_alive = λ m x p.
        let inside = valid.links.linked m x ∙ p in
        let some_node = length_pos m (s.essid_nodes x) inside in
        let listed = valid.essid_alive m x p in
        elim (Bool-cases (x == e)) [
          | inl here ↦
              let same : x ≡ e = ground arith in
              let clash : length (s.essid_nodes x) ≡ 0 =
                sym (valid.counted x) ∙ ap s.num_nodes same ∙ nobody in
              absurd (omega arith)
          | inr there ↦ contains-remove x e s.essids valid.distinct ∙ ground (arith, listed, there)
        ];
    distinct = Distinct-remove e s.essids valid.distinct;
    listed = λ x. rw (contains-remove x e s.essids valid.distinct) (elim (Bool-cases (x == e)) [
      | inl here ↦ rw here (ground arith)
      | inr there ↦ rw (there, valid.listed x) (ground arith)
    ]);
    unused = λ x c. ground (arith, contains-remove x e s.essids valid.distinct, valid.unused x);
    counted = valid.counted;
    used = λ x c p. ground (arith, contains-remove x e s.essids valid.distinct, valid.used x);
    fits = valid.fits;
  }

  -- A network that has a node need not be marked.
  pub narrow :
      (s : Networks) (e : ℕ)
      → IsNetworks node (λ x. empty x || x == e) s
      → 0 < s.num_nodes e
      → IsNetworks node empty s
  narrow s e valid somebody = record {
    links = valid.links;
    node_alive = valid.node_alive;
    essid_alive = valid.essid_alive;
    distinct = valid.distinct;
    listed = valid.listed;
    unused = valid.unused;
    counted = valid.counted;
    used = λ x c p. elim (Bool-cases (x == e)) [
      | inl here ↦ let same : x ≡ e = ground arith in rw same somebody
      | inr there ↦ valid.used x c (ground arith)
    ];
    fits = valid.fits;
  }

module _ {lists : Lists} (laws : ListLaws lists) {node : ℕ → Option Info} {empty : ℕ → Bool} where
  leave_essid-Leaves :
      (s : Networks) (n e : ℕ)
      → IsNetworks node empty s
      → s.node_essid n ≡ some e
      → Leaves node empty s n (leave_essid lists node n (some e) s)
  leave_essid-Leaves s n e valid member =
      let listed = valid.essid_alive n e (some-points (s.node_essid n) e member) in
      let (name, at) = is_some-some (s.essid e) (valid.listed e ∙ listed) in
      let deleted =
        laws.removes n (s.essid_nodes e) (valid.links.unique e)
          (contains-owner valid.links n e member) in
      let s1 = unlinked s n e in
      let valid1 = unlinked-IsNetworks s n e valid member in
      let others : (m : ℕ) → (m == n) ≡ false → s1.node_essid m ≡ s.node_essid m =
        λ m other. rw other refl in
      let apart : (x : ℕ) → points (s.node_essid n) x ≡ false → (x == e) ≡ false = λ x p.
        let differ : (e == x) ≡ false = ap (λ o. points o x) (sym member) ∙ p in ground arith in
      elim (Bool-cases (s1.num_nodes e == 0)) [
        | inl nobody ↦
            let zero_nodes : s1.num_nodes e ≡ 0 = ground (arith, nobody) in
            let emptied = laws.removes e s.essids valid.distinct listed in
            record {
              left = record s1 { essids = remove e s.essids; essid = update s.essid e none };
              runs = rw (at, deleted, nobody, emptied) refl;
              valid = dropped-IsNetworks s1 e valid1 zero_nodes;
              free = ground arith;
              others = others;
              stay = λ x p. (
                contains-remove x e s.essids valid.distinct ∙ ground (arith, apart x p),
                rw (apart x p) refl,
                rw (apart x p) refl,
              );
            }
        | inr somebody ↦
            let split = not (all_same (bssids node (s1.essid_nodes e))) in
            record {
              left = record s1 { split = update s.split e split };
              runs =
                  rw (at, deleted, somebody)
                    (update_essid_split_status_lem node (λ x. empty x || x == e) s1 e valid1
                      listed);
              valid =
                  keep_networks node node empty s1 (update s.split e split)
                    (narrow s1 e valid1 (ground (arith, somebody))) (λ m a. a);
              free = ground arith;
              others = others;
              stay = λ x p. (refl, refl, rw (apart x p) refl);
            }
      ]

  -- Where the networks are in order, uwifi_essids_remove_node meets no fault and leaves the node
  -- without a network and the networks in order; networks other than that of the node keep their
  -- place, name and number of nodes, and other nodes their network.
  pub essids_remove_node-Leaves :
      (s : Networks) (n : ℕ)
      → IsNetworks node empty s
      → Leaves node empty s n (essids_remove_node lists node n s)
  unfolding essids_remove_node
  essids_remove_node-Leaves s n valid = elim (Option-cases (s.node_essid n)) [
    | inl e ↦ record {
      left = s;
      runs = rw e refl;
      valid = valid;
      free = e;
      others = λ m other. refl;
      stay = λ x p. (refl, refl, refl);
    }
    | inr (e, member) ↦ rw member (leave_essid-Leaves s n e valid member)
  ]
