-- ===== src/Essid/Networks/Find.antt =====
-- The search for a network by its name in uwifi_essids_update of core/essid.c, and its addition.
use libuwifi.Base.{
  Bool, if◌then◌else◌, >>=-eq-some, if_cases, ℕ, suc, ◌+◌, ◌<◌, ◌^◌, ◌≡◌, refl, ◌∙◌, sym, ap, true,
  false, ◌||◌, Option, none, some, List, [], ◌∷◌, ◌++◌, ◌==◌, Bool-cases, Option-cases, inl, inr,
  arith,
}
use libuwifi.Store.{
  Lists, ListLaws, contains, update, points, is_some, is_some-some, some_inj, add_owner,
  next_unlisted, contains-append, Distinct-append, update_self,
}
use libuwifi.Node.Info.{Info}
use libuwifi.Essid.Strings.{
  text, same_bytes, strncmp_eq-same_bytes, strncmp_eq, strncmp_eq-copy, copy_name, ends_within,
}
use libuwifi.Essid.Networks.{Networks, IsNetworks, no_empty, find_essid, or_new_essid}

-- The search meets no fault, and finds a network of the list with the name.
find_runs :
    (essid : ℕ → Option (List ℕ)) (name : List ℕ) (es : List ℕ)
    → ((e : ℕ) → contains e es ≡ true → is_some (essid e) ≡ true)
    → (found : Option ℕ) × (find_essid essid name es ≡ some found)
      × ((e : ℕ)
          → found ≡ some e
          → (contains e es ≡ true)
            × (own : List ℕ) × (essid e ≡ some own)
            × (strncmp_eq 34 own name ≡ true))
find_runs essid name [] alive = (none, refl, λ e p. absurd (cc))
find_runs essid name (x ∷ xs) alive =
    let (own, at) = is_some-some (essid x) (alive x (ground arith)) in
    let (found, runs, at_found) = find_runs essid name xs (λ e c. alive e (ground arith)) in
    elim (Bool-cases (strncmp_eq 34 own name)) [
      | inl same ↦ (
        some x,
        rw (at, same) refl,
        λ e p. let here : x ≡ e = some_inj p in (ground arith, own, ap essid (sym here) ∙ at, same),
      )
      | inr other ↦ (
        found,
        rw (at, other) runs,
        λ e p. let (c, own', at', same) = at_found e p in (ground arith, own', at', same),
      )
    ]

-- The name of a network is this one, up to its end.
abbrev pub is_named : List ℕ → Option (List ℕ) → Bool
is_named name none = false
is_named name (some own) = same_bytes (text 34 own) (text 34 name)

-- The first network of the list with the name, and `other` if there is none.
abbrev pub first_named_or : ℕ → (ℕ → Option (List ℕ)) → List ℕ → List ℕ → ℕ
first_named_or other essid name [] = other
first_named_or other essid name (e ∷ es) =
    if is_named name (essid e) then e else first_named_or other essid name es

abbrev found_or : ℕ → Option ℕ → ℕ
found_or other none = other
found_or other (some e) = e

find_essid-first_named_or :
    (other : ℕ) (essid : ℕ → Option (List ℕ)) (name : List ℕ) (es : List ℕ) (found : Option ℕ)
    → find_essid essid name es ≡ some found
    → found_or other found ≡ first_named_or other essid name es
find_essid-first_named_or other essid name [] found e = ap (found_or other) (sym (some_inj e))
find_essid-first_named_or other essid name (x ∷ xs) found e =
    let (own, at, e1) = >>=-eq-some (essid x) _ e in
    elim (if_cases (strncmp_eq 34 own name) _ _ e1) [
      | inl (same, e2) ↦
          rw (at, sym (strncmp_eq-same_bytes 34 own name) ∙ same)
            (ap (found_or other) (sym (some_inj e2)))
      | inr (differ, e2) ↦
          rw (at, sym (strncmp_eq-same_bytes 34 own name) ∙ differ)
            (find_essid-first_named_or other essid name xs found e2)
    ]

-- The network with the name, found or new, which may be without nodes.
pub record Ready (lists : Lists) (node : ℕ → Option Info) (name : List ℕ) (s : Networks)
    (found : Option ℕ) : Type 0 where
  pub e : ℕ
  pub ready : Networks
  pub runs : or_new_essid lists name s found ≡ (e, ready)
  pub valid : IsNetworks node (λ x. no_empty x || x == e) ready
  pub listed : contains e ready.essids ≡ true
  pub place : e ≡ first_named_or s.next s.essid name s.essids
  pub named : (own : List ℕ) × (ready.essid e ≡ some own) × (strncmp_eq 34 own name ≡ true)
  pub same : ready.node_essid ≡ s.node_essid
  pub room : (x : ℕ) → ready.num_nodes x + 1 < 2 ^ 32

module _ {lists : Lists} (laws : ListLaws lists) {node : ℕ → Option Info} where
  -- A new network.
  new_network :
      (name : List ℕ) (s : Networks)
      → IsNetworks node no_empty s
      → ((x : ℕ) → s.num_nodes x + 1 < 2 ^ 32)
      → ends_within 34 name ≡ true
      → find_essid s.essid name s.essids ≡ some none
      → Ready lists node name s none
  new_network name s valid room ends missing =
      let unused = next_unlisted s.next s.essids valid.unused in
      let added = laws.appends s.next s.essids in
      record {
        e = s.next;
        ready = record s {
          essids = s.essids ++ s.next ∷ [];
          essid = update s.essid s.next (some (copy_name name));
          essid_nodes = update s.essid_nodes s.next [];
          num_nodes = update s.num_nodes s.next 0;
          split = update s.split s.next false;
          next = suc s.next;
        };
        runs = rw added refl;
        valid = record {
          links = add_owner valid.links s.next (λ m.
              elim (Bool-cases (points (s.node_essid m) s.next)) [
                | inl p ↦
                    let clash : true ≡ false = sym (valid.essid_alive m s.next p) ∙ unused in
                    absurd (cc)
                | inr p ↦ p
              ]);
          node_alive = valid.node_alive;
          essid_alive =
              λ m x p. contains-append x s.next s.essids ∙ ground (arith, valid.essid_alive m x);
          distinct = Distinct-append s.next s.essids valid.distinct unused;
          listed = λ x. rw (contains-append x s.next s.essids) (elim (Bool-cases (x == s.next)) [
            | inl here ↦ rw here (ground arith)
            | inr there ↦ rw (there, valid.listed x) (ground arith)
          ]);
          unused = λ x c. ground (arith, contains-append x s.next s.essids, valid.unused x);
          counted = λ x. elim (Bool-cases (x == s.next)) [
            | inl here ↦ rw here refl
            | inr there ↦ rw there (valid.counted x)
          ];
          used = λ x c p. ground (arith, contains-append x s.next s.essids, valid.used x);
          fits = λ x. ground (arith, valid.fits x);
        };
        listed = contains-append s.next s.next s.essids ∙ ground arith;
        place = find_essid-first_named_or s.next s.essid name s.essids none missing;
        named = (
          copy_name name,
          update_self s.essid s.next (some (copy_name name)),
          strncmp_eq-copy 33 name ends,
        );
        same = refl;
        room = λ x. ground (arith, room x);
      }

  -- The search and the addition meet no fault.
  pub ready_lem :
      (name : List ℕ) (s : Networks)
      → IsNetworks node no_empty s
      → ((x : ℕ) → s.num_nodes x + 1 < 2 ^ 32)
      → ends_within 34 name ≡ true
      → (found : Option ℕ) × (find_essid s.essid name s.essids ≡ some found)
        × Ready lists node name s found
  ready_lem name s valid room ends =
      let (found, runs, at_found) = find_runs s.essid name s.essids (λ e c. valid.listed e ∙ c) in
      elim (Option-cases found) [
        | inl missing ↦ (
          none,
          runs ∙ ap some missing,
          new_network name s valid room ends (runs ∙ ap some missing),
        )
        | inr (e, one) ↦
            let (listed, own, at, same) = at_found e one in
            (
              some e,
              runs ∙ ap some one,
              record {
                e = e;
                ready = s;
                runs = refl;
                valid = record {
                  links = valid.links;
                  node_alive = valid.node_alive;
                  essid_alive = valid.essid_alive;
                  distinct = valid.distinct;
                  listed = valid.listed;
                  unused = valid.unused;
                  counted = valid.counted;
                  used = λ x c p. valid.used x c refl;
                  fits = valid.fits;
                };
                listed = listed;
                place =
                    find_essid-first_named_or s.next s.essid name s.essids (some e)
                      (runs ∙ ap some one);
                named = (own, at, same);
                same = refl;
                room = room;
              },
            )
      ]
