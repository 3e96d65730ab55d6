-- ===== src/Store/Members.antt =====
-- Lists of members that point back to the owner of their list.
use Prim.{tt}
use Prim.{tt}
use libuwifi.Base.{
  ap, sym, ℕ, ◌≡◌, true, false, Option, none, some, List, [], ◌∷◌, ◌++◌, ◌==◌, Bool-cases, inl, inr,
  arith, ◌∙◌, sym,
}
use libuwifi.Store.Pointers.{
  contains, Distinct, remove, update, points, contains-append, contains-remove, Distinct-append,
  Distinct-remove,
}

-- `back` is the pointer of a member to its owner, and `list` the list of an owner.
pub record Links (back : ℕ → Option ℕ) (list : ℕ → List ℕ) : Type 0 where
  pub linked : (n o : ℕ) → contains n (list o) ≡ points (back n) o
  pub unique : (o : ℕ) → Distinct (list o)

module _ {back : ℕ → Option ℕ} {list : ℕ → List ℕ} (links : Links back list) where
  -- A free member becomes the last of a list.
  pub add_link :
      (n o : ℕ) → back n ≡ none → Links (update back n (some o)) (update list o (list o ++ n ∷ []))
  add_link n o free = record {
    linked = λ m q. elim (Bool-cases (q == o)) [
      | inl e ↦ ground (arith, contains-append m n (list o), links.linked m o, links.linked m q)
      | inr e ↦ ground (arith, links.linked m q, links.linked n q)
    ];
    unique = λ q. elim (Bool-cases (q == o)) [
      | inl e ↦
          rw e
            (Distinct-append n (list o) (links.unique o) (links.linked n o ∙ ground (arith, free)))
      | inr e ↦ rw e (links.unique q)
    ];
  }

  -- A member leaves its list.
  pub remove_link :
      (n o : ℕ) → back n ≡ some o → Links (update back n none) (update list o (remove n (list o)))
  remove_link n o member = record {
    linked = λ m q. elim (Bool-cases (q == o)) [
      | inl e ↦ ground (arith, contains-remove m n (list o) (links.unique o), links.linked m o)
      | inr e ↦ ground (arith, links.linked m q, links.linked n q)
    ];
    unique = λ q. elim (Bool-cases (q == o)) [
      | inl e ↦ rw e (Distinct-remove n (list o) (links.unique o))
      | inr e ↦ rw e (links.unique q)
    ];
  }

  -- The owner's list has its members.
  pub contains-owner : (n o : ℕ) → back n ≡ some o → contains n (list o) ≡ true
  contains-owner n o member = links.linked n o ∙ ground (arith, member)

  -- An owner without members starts with an empty list.
  pub add_owner : (o : ℕ) → ((n : ℕ) → points (back n) o ≡ false) → Links back (update list o [])
  add_owner o nobody = record {
    linked = λ m q. elim (Bool-cases (q == o)) [
      | inl e ↦
          let same : q ≡ o = ground arith in rw e (sym (nobody m) ∙ ap (points (back m)) (sym same))
      | inr e ↦ rw e (links.linked m q)
    ];
    unique = λ q. elim (Bool-cases (q == o)) [ inl e ↦ rw e tt | inr e ↦ rw e (links.unique q) ];
  }
