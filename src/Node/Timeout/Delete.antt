-- ===== src/Node/Timeout/Delete.antt =====
-- The removal of one node by uwifi_nodes_timeout of core/node.c.
use libuwifi.Base.{
  ℕ, ◌≡◌, refl, ◌∙◌, sym, ap, true, false, Option, none, some, [], ◌==◌, Bool-cases, inl, inr,
  arith,
}
use libuwifi.Store.{Lists, ListLaws, contains, update, points}
use libuwifi.Node.Info.{Info}
use libuwifi.Node.Table.Free.{without, without-IsTable, without-Unique}
use libuwifi.Node.Ap.{Aps, IsAps}
use libuwifi.Node.Ap.Leave.{leave_ap_lem, clear_ap_lem}
use libuwifi.Essid.Networks.{Networks, IsNetworks, no_empty}
use libuwifi.Essid.Networks.Leave.{essids_remove_node-Leaves}
use libuwifi.Node.Timeout.{State, IsState, delete_node}

-- A node without links can be freed.
free-IsAps :
    (node : ℕ → Option Info) (s : Aps) (n : ℕ)
    → IsAps node s
    → s.ap_node n ≡ none
    → s.ap_nodes n ≡ []
    → IsAps (update node n none) s
free-IsAps node s n valid free nobody = record {
  links = valid.links;
  station_alive = λ m a p. elim (Bool-cases (m == n)) [
    | inl here ↦
        let same : m ≡ n = ground arith in
        let clash : false ≡ true = ap (λ o. points o a) (sym free ∙ ap s.ap_node (sym same)) ∙ p in
        absurd (cc)
    | inr there ↦ rw there (valid.station_alive m a p)
  ];
  ap_alive = λ m a p. elim (Bool-cases (a == n)) [
    | inl here ↦
        let same : a ≡ n = ground arith in
        let clash : false ≡ true =
          ap (contains m) (sym nobody ∙ ap s.ap_nodes (sym same)) ∙ valid.links.linked m a ∙ p in
        absurd (cc)
    | inr there ↦ rw there (valid.ap_alive m a p)
  ];
}

free-IsNetworks :
    (node : ℕ → Option Info) (s : Networks) (n : ℕ)
    → IsNetworks node no_empty s
    → s.node_essid n ≡ none
    → IsNetworks (update node n none) no_empty s
free-IsNetworks node s n valid free = record {
  links = valid.links;
  node_alive = λ m e p. elim (Bool-cases (m == n)) [
    | inl here ↦
        let same : m ≡ n = ground arith in
        let clash : false ≡ true =
          ap (λ o. points o e) (sym free ∙ ap s.node_essid (sym same)) ∙ p in
        absurd (cc)
    | inr there ↦ rw there (valid.node_alive m e p)
  ];
  essid_alive = valid.essid_alive;
  distinct = valid.distinct;
  listed = valid.listed;
  unused = valid.unused;
  counted = valid.counted;
  used = valid.used;
  fits = valid.fits;
}

-- A node of the list is removed without a fault, and the state stays in order.
pub delete_node_lem :
    {lists : Lists} (laws : ListLaws lists) (s : State) (n : ℕ)
    → IsState s
    → contains n s.table.nodes ≡ true
    → (s' : State) × (delete_node lists n s ≡ some s') × IsState s' × (s'.table ≡ without n s.table)
unfolding delete_node
delete_node_lem {lists} laws s n valid listed =
    let rest = laws.removes n s.table.nodes valid.table.distinct listed in
    let left = leave_ap_lem laws s.aps n valid.aps in
    let gone = essids_remove_node-Leaves laws s.networks n valid.networks in
    let (cleared, clears, valid', free, nobody) =
      clear_ap_lem laws left.left n (left.left.ap_nodes n) left.valid left.free refl in
    (
      record { table = without n s.table; aps = cleared; networks = gone.left },
      rw (rest, left.runs, gone.runs, clears) refl,
      record {
        table = without-IsTable s.table n valid.table;
        unique = without-Unique s.table n valid.unique;
        aps = free-IsAps s.table.node cleared n valid' free nobody;
        networks = free-IsNetworks s.table.node gone.left n gone.valid gone.free;
      },
      refl,
    )
