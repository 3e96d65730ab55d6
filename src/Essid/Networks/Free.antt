-- ===== src/Essid/Networks/Free.antt =====
-- uwifi_essids_free of core/essid.c.
use libuwifi.Base.{
  ℕ, ◌≡◌, refl, ◌∙◌, ap, Bool, true, false, Option, none, some, List, [], ◌∷◌, ◌==◌, Bool-cases,
  inl, inr, arith,
}
use libuwifi.Store.{
  Lists, ListLaws, Distinct, contains, remove, update, is_some, is_some-some, contains-remove,
  Distinct-remove,
}
use libuwifi.Node.Info.{Info}
use libuwifi.Essid.Networks.{Networks, IsNetworks, free_essids, essids_free}

free_lem :
    {lists : Lists} (laws : ListLaws lists) (es : List ℕ) (s : Networks)
    → Distinct s.essids
    → ((e : ℕ) → is_some (s.essid e) ≡ contains e s.essids)
    → s.essids ≡ es
    → (s' : Networks) × (free_essids lists es s ≡ some s')
      × (s'.essids ≡ [])
      × ((e : ℕ) → is_some (s'.essid e) ≡ contains e s'.essids)
free_lem laws [] s distinct listed same = (s, refl, same, listed)
free_lem laws (e ∷ es) s distinct listed same =
    let inside : contains e s.essids ≡ true = ap (contains e) same ∙ ground arith in
    let (name, at) = is_some-some (s.essid e) (listed e ∙ inside) in
    let rest = laws.removes e s.essids distinct inside in
    let shorter : remove e s.essids ≡ es = ap (remove e) same ∙ ground arith in
    let (s', runs, empty, listed') =
      free_lem laws es (record s { essids = remove e s.essids; essid = update s.essid e none })
        (Distinct-remove e s.essids distinct)
        (λ x. rw (contains-remove x e s.essids distinct) (elim (Bool-cases (x == e)) [
          | inl here ↦ rw here (ground arith)
          | inr there ↦ rw (there, listed x) (ground arith)
        ]))
        shorter in
    (s', rw (at, rest) runs, empty, listed')

-- Every network is freed, once.
pub essids_free-empties :
    {lists : Lists} (laws : ListLaws lists) (node : ℕ → Option Info) (empty : ℕ → Bool)
    (s : Networks)
    → IsNetworks node empty s
    → (s' : Networks) × (essids_free lists s ≡ some s')
      × (s'.essids ≡ [])
      × ((e : ℕ) → is_some (s'.essid e) ≡ false)
unfolding essids_free
essids_free-empties laws node empty s valid =
    let (s', runs, gone, listed) = free_lem laws s.essids s valid.distinct valid.listed refl in
    (s', runs, gone, λ e. listed e ∙ ap (contains e) gone)
