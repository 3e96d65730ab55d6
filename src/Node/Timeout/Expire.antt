-- ===== src/Node/Timeout/Expire.antt =====
-- Which nodes uwifi_nodes_timeout of core/node.c frees.
use libuwifi.Base.{
  ℕ, ◌≡◌, refl, ◌∙◌, sym, ap, Bool, true, false, Option, none, some, List, [], ◌∷◌, ◌==◌,
  Bool-cases, inl, inr, arith, if◌then◌else◌, ltb, sub32, u32, ◌*◌,
}
use libuwifi.Store.{
  Lists, ListLaws, Distinct, contains, remove, is_some, is_some-some, contains-remove,
}
use libuwifi.Node.Info.{Info}
use libuwifi.Node.Timeout.{State, IsState, is_over, limit_of, timeout_loop, nodes_timeout}
use libuwifi.Node.Timeout.Delete.{delete_node_lem}

-- A node that was last seen more than `limit` microseconds before `now`, on the 32-bit clock, is gone.
abbrev pub expire : ℕ → ℕ → Option Info → Option Info
expire limit now none = none
expire limit now (some i) = if ltb limit (sub32 now i.last_seen) then none else some i

-- What the loop leaves of a node, from whether it still comes in the list.
abbrev left_of : ℕ → ℕ → Bool → Option Info → Option Info
left_of limit now comes o = if comes then expire limit now o else o

left_of-none : (limit now : ℕ) (comes : Bool) → left_of limit now comes none ≡ none
left_of-none limit now true = refl
left_of-none limit now false = refl

alive_left :
    (limit now : ℕ) (o : Option Info) → left_of limit now (is_some o) o ≡ expire limit now o
alive_left limit now none = refl
alive_left limit now (some i) = refl

-- The head of a list without repetition is not in the rest.
other_inside :
    (n : ℕ) (ns nodes : List ℕ)
    → Distinct nodes
    → contains n ns ≡ false
    → ((m : ℕ) → contains m (n ∷ ns) ≡ true → contains m nodes ≡ true)
    → (m : ℕ) → contains m ns ≡ true
    → contains m (remove n nodes) ≡ true
other_inside n ns nodes distinct once inside m c = elim (Bool-cases (m == n)) [
  | inl here ↦
      let same : m ≡ n = ground arith in
      let clash : true ≡ false = sym c ∙ ap (λ k. contains k ns) same ∙ once in absurd (cc)
  | inr there ↦ contains-remove m n nodes distinct ∙ ground (arith, inside m (ground arith), there)
]

module _ {lists : Lists} (laws : ListLaws lists) (limit now : ℕ) where
  loop_lem :
      (ns : List ℕ) (s : State)
      → IsState s
      → Distinct ns
      → ((n : ℕ) → contains n ns ≡ true → contains n s.table.nodes ≡ true)
      → (s' : State) × (timeout_loop lists limit now ns s ≡ some s')
        × IsState s'
        × ((m : ℕ) → s'.table.node m ≡ left_of limit now (contains m ns) (s.table.node m))
  unfolding timeout_loop
  loop_lem [] s valid distinct inside = (s, refl, valid, λ m. refl)
  loop_lem (n ∷ ns) s valid distinct inside =
      let (i, at) =
        is_some-some (s.table.node n) (valid.table.listed n ∙ inside n (ground arith)) in
      elim (Bool-cases (is_over limit now i)) [
        | inl over ↦
            let (s1, runs, valid1, table) =
              delete_node_lem laws s n valid (inside n (ground arith)) in
            let still = other_inside n ns s.table.nodes valid.table.distinct distinct.0 inside in
            let (s', runs', valid', left) =
              loop_lem ns s1 valid1 distinct.1
                (λ m c. ap (λ t. contains m t.nodes) table ∙ still m c) in
            (
              s',
              rw (at, over, runs) runs',
              valid',
              λ m.
                  left m
                  ∙ ap (λ t. left_of limit now (contains m ns) (t.node m)) table
                  ∙ elim (Bool-cases (m == n)) [
                    | inl here ↦
                        let same : m ≡ n = ground arith in
                        let at_m : s.table.node m ≡ some i = ap s.table.node same ∙ at in
                        rw (here, at_m, over) (left_of-none limit now (contains m ns))
                    | inr there ↦ rw there refl
                  ],
            )
        | inr fresh ↦
            let (s', runs', valid', left) =
              loop_lem ns s valid distinct.1 (λ m c. inside m (ground arith)) in
            (
              s',
              rw (at, fresh) runs',
              valid',
              λ m. left m ∙ elim (Bool-cases (m == n)) [
                | inl here ↦
                    let same : m ≡ n = ground arith in
                    let at_m : s.table.node m ≡ some i = ap s.table.node same ∙ at in
                    let once : contains m ns ≡ false = ap (λ k. contains k ns) same ∙ distinct.0 in
                    rw (here, at_m, fresh, once) refl
                | inr there ↦ rw there refl
              ],
            )
      ]

-- In a state in order, a timeout that is due meets no fault, sets the time of the last run, frees
-- exactly the nodes last seen more than the timeout ago, in microseconds on the 32-bit clock,
-- leaves the fields of the others as they were, and leaves the lists of nodes, stations and
-- networks in order.
pub nodes_timeout-expire :
    {lists : Lists} (laws : ListLaws lists) (timeout_sec now last : ℕ) (s : State)
    → IsState s
    → ltb (sub32 now last) (u32 (timeout_sec * 1000000)) ≡ false
    → (s' : State) × (nodes_timeout lists timeout_sec now last s ≡ some (s', now))
      × IsState s'
      × ((m : ℕ) → s'.table.node m ≡ expire (u32 (timeout_sec * 1000000)) now (s.table.node m))
unfolding nodes_timeout
nodes_timeout-expire laws timeout_sec now last s valid due =
    let limit = limit_of timeout_sec in
    let (s', runs, valid', left) =
      loop_lem laws limit now s.table.nodes s valid valid.table.distinct (λ n c. c) in
    (
      s',
      rw (due, runs) refl,
      valid',
      λ m.
          left m
          ∙ ap (λ c. left_of limit now c (s.table.node m)) (sym (valid.table.listed m))
          ∙ alive_left limit now (s.table.node m),
    )

-- A run that is not due changes nothing.
pub nodes_timeout-early :
    (lists : Lists) (timeout_sec now last : ℕ) (s : State)
    → ltb (sub32 now last) (limit_of timeout_sec) ≡ true
    → nodes_timeout lists timeout_sec now last s ≡ some (s, last)
unfolding nodes_timeout
nodes_timeout-early lists timeout_sec now last s early = rw early refl
