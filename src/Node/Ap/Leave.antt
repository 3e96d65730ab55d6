-- ===== src/Node/Ap/Leave.antt =====
-- A node that leaves its access point, and an access point whose stations leave.
use libuwifi.Base.{
  ℕ, ◌≡◌, refl, ◌∙◌, false, Option, none, some, List, [], ◌∷◌, ◌==◌, Option-cases, inl, inr, arith,
  sym, ap,
}
use libuwifi.Store.{
  Lists, ListLaws, contains, remove, update, is_some-some, points-some, some-points, remove_link,
  contains-owner,
}
use libuwifi.Node.Info.{Info}
use libuwifi.Node.Ap.{Aps, IsAps, leave_ap, clear_ap}

-- The run ends with the links in order, the node without an access point, and the other nodes with theirs.
pub record Leaves (node : ℕ → Option Info) (s : Aps) (n : ℕ) (r : Option Aps) : Type 0 where
  pub left : Aps
  pub runs : r ≡ some left
  pub valid : IsAps node left
  pub free : left.ap_node n ≡ none
  pub others : (m : ℕ) → (m == n) ≡ false → left.ap_node m ≡ s.ap_node m

module _ {lists : Lists} (laws : ListLaws lists) {node : ℕ → Option Info} where
  -- What one removal gives.
  unlinked :
      (s : Aps) (n a : ℕ)
      → IsAps node s
      → s.ap_node n ≡ some a
      → IsAps node (record {
        ap_node = update s.ap_node n none;
        ap_nodes = update s.ap_nodes a (remove n (s.ap_nodes a));
      })
  unlinked s n a valid member = record {
    links = remove_link valid.links n a member;
    station_alive = λ m b p. ground (arith, valid.station_alive m b);
    ap_alive = λ m b p. ground (arith, valid.ap_alive m b);
  }

  leave_some :
      (s : Aps) (n a : ℕ)
      → IsAps node s
      → s.ap_node n ≡ some a
      → Leaves node s n (leave_ap lists node n (some a) s)
  leave_some s n a valid member =
      let (i, alive) =
        is_some-some (node a) (valid.ap_alive n a (some-points (s.ap_node n) a member)) in
      let runs =
        laws.removes n (s.ap_nodes a) (valid.links.unique a)
          (contains-owner valid.links n a member) in
      record {
        left = record {
          ap_node = update s.ap_node n none;
          ap_nodes = update s.ap_nodes a (remove n (s.ap_nodes a));
        };
        runs = rw (alive, runs);
        valid = unlinked s n a valid member;
        free = ground arith;
        others = λ m other. rw other refl;
      }

  -- A node leaves its access point without a fault.
  pub leave_ap_lem :
      (s : Aps) (n : ℕ) → IsAps node s → Leaves node s n (leave_ap lists node n (s.ap_node n) s)
  leave_ap_lem s n valid = elim (Option-cases (s.ap_node n)) [
    | inl e ↦ record { left = s; runs = rw e; valid = valid; free = e; others = λ m other. refl }
    | inr (a, e) ↦ rw e (leave_some s n a valid e)
  ]

  -- The stations `ms` of the list of `n` leave it one by one.
  pub clear_ap_lem :
      (s : Aps) (n : ℕ) (ms : List ℕ)
      → IsAps node s
      → s.ap_node n ≡ none
      → s.ap_nodes n ≡ ms
      → (s' : Aps) × (clear_ap lists node n ms s ≡ some s')
        × IsAps node s'
        × (s'.ap_node n ≡ none)
        × (s'.ap_nodes n ≡ [])
  clear_ap_lem s n [] valid free e = (s, refl, valid, free, e)
  clear_ap_lem s n (m ∷ ms) valid free e =
      let member =
        points-some (s.ap_node m) n
          (sym (valid.links.linked m n) ∙ ap (contains m) e ∙ ground arith) in
      let (i, alive) =
        is_some-some (node m) (valid.station_alive m n (some-points (s.ap_node m) n member)) in
      let runs =
        laws.removes m (s.ap_nodes n) (valid.links.unique n)
          (contains-owner valid.links m n member) in
      let (s', runs', valid', free', empty) =
        clear_ap_lem
          (record {
            ap_node = update s.ap_node m none;
            ap_nodes = update s.ap_nodes n (remove m (s.ap_nodes n));
          })
          n ms (unlinked s m n valid member) (ground (arith, free)) (ground (arith, e)) in
      (s', rw (alive, runs) runs', valid', free', empty)
