-- ===== src/Node/Table/Free.antt =====
-- uwifi_nodes_free of core/node.c: what is left of a table without some of its nodes.
use libuwifi.Base.{
  sym, ℕ, ◌≡◌, refl, ◌∙◌, ap, true, false, Option, none, some, List, [], ◌∷◌, ◌==◌, Bool-cases, inl,
  inr, arith,
}
use libuwifi.Store.{
  Lists, ListLaws, contains, remove, update, is_some, is_some-some, contains-remove,
  Distinct-remove,
}
use libuwifi.Node.Info.{Info}
use libuwifi.Node.Table.{Table, IsTable, Unique, free_loop, nodes_free}

-- The table without a node.
abbrev pub without : ℕ → Table → Table
without n t = record t { nodes = remove n t.nodes; node = update t.node n none }

pub without-IsTable : (t : Table) (n : ℕ) → IsTable t → IsTable (without n t)
without-IsTable t n valid = record {
  distinct = Distinct-remove n t.nodes valid.distinct;
  listed = λ m. rw (contains-remove m n t.nodes valid.distinct) (elim (Bool-cases (m == n)) [
    | inl here ↦ rw here (ground arith)
    | inr there ↦ rw (there, valid.listed m) (ground arith)
  ]);
  unused = λ m c. ground (arith, contains-remove m n t.nodes valid.distinct, valid.unused m);
}

-- What a node that is left had before.
left_at :
    (node : ℕ → Option Info) (n m : ℕ) (i : Info) → update node n none m ≡ some i → node m ≡ some i
left_at node n m i e = elim (Bool-cases (m == n)) [
  | inl here ↦
      let self : update node n none m ≡ none = rw here refl in
      let clash : none ≡ some i = sym self ∙ e in absurd (cc)
  | inr there ↦ let self : update node n none m ≡ node m = rw there refl in sym self ∙ e
]

pub without-Unique : (t : Table) (n : ℕ) → Unique t → Unique (without n t)
without-Unique t n unique = record {
  same = λ m k i j at_m at_k e.
      unique.same m k i j (left_at t.node n m i at_m) (left_at t.node n k j at_k) e;
}

free_loop_lem :
    {lists : Lists} (laws : ListLaws lists) (ns : List ℕ) (t : Table)
    → IsTable t
    → t.nodes ≡ ns
    → (t' : Table) × (free_loop lists ns t ≡ some t') × IsTable t' × (t'.nodes ≡ [])
free_loop_lem laws [] t valid e = (t, refl, valid, e)
free_loop_lem laws (n ∷ ns) t valid e =
    let inside : contains n t.nodes ≡ true = ap (contains n) e ∙ ground arith in
    let (i, at) = is_some-some (t.node n) (valid.listed n ∙ inside) in
    let rest = laws.removes n t.nodes valid.distinct inside in
    let shorter : remove n t.nodes ≡ ns = ap (remove n) e ∙ ground arith in
    let (t', runs, valid', empty) =
      free_loop_lem laws ns (without n t) (without-IsTable t n valid) shorter in
    (t', rw (at, rest) runs, valid', empty)

nothing_alive : (o : Option Info) → is_some o ≡ false → o ≡ none
nothing_alive none e = refl
nothing_alive (some i) e = absurd (cc)

-- Every node is freed, once.
pub nodes_free-empties :
    {lists : Lists} (laws : ListLaws lists) (t : Table)
    → IsTable t
    → (t' : Table) × (nodes_free lists true t ≡ some t')
      × (t'.nodes ≡ [])
      × ((n : ℕ) → t'.node n ≡ none)
unfolding nodes_free
nodes_free-empties laws t valid =
    let (t', runs, valid', empty) = free_loop_lem laws t.nodes t valid refl in
    (t', runs, empty, λ n. nothing_alive (t'.node n) (valid'.listed n ∙ ap (contains n) empty))
