-- ===== src/Store/Pointers.antt =====
-- Linked lists of pointers: what the code relies on of include/uwifi/cc_list.h, and the lists' lemmas.
use Prim.{Unit, tt}
use libuwifi.Base.{
  ap, ◌<◌, ℕ, suc, ◌≡◌, refl, Bool, true, false, ◌&&◌, ◌||◌, not, Option, none, some, List, [], ◌∷◌,
  ◌++◌, ◌==◌, length, Bool-cases, inl, inr, arith, if◌then◌else◌,
}

-- The operations of a linked list, on the sequence of its elements: cc_list_add_tail, and
-- cc_list_del_from and cc_list_del, which are a fault for an element of another list.
pub record Lists : Type 0 where
  pub add_tail : List ℕ → ℕ → List ℕ
  pub del_from : List ℕ → ℕ → Option (List ℕ)

-- The pointer stands in the list.
abbrev pub contains : ℕ → List ℕ → Bool
contains n [] = false
contains n (x ∷ xs) = n == x || contains n xs

-- No pointer stands in the list twice.
abbrev pub Distinct : List ℕ → Type 0
Distinct [] = Unit {0}
Distinct (x ∷ xs) = (contains x xs ≡ false) × Distinct xs

abbrev pub remove : ℕ → List ℕ → List ℕ
remove n [] = []
remove n (x ∷ xs) = if n == x then xs else x ∷ remove n xs

-- What the list's documentation says of the two operations.
pub record ListLaws (lists : Lists) : Type 0 where
  pub appends : (n : ℕ) (xs : List ℕ) → lists.add_tail xs n ≡ xs ++ n ∷ []
  pub removes :
      (n : ℕ) (xs : List ℕ)
      → Distinct xs
      → contains n xs ≡ true
      → lists.del_from xs n ≡ some (remove n xs)

-- A map with a new value at one pointer.
abbrev pub update {ℓ} : {A : Type ℓ} → (ℕ → A) → ℕ → A → ℕ → A
update f p v q = if q == p then v else f q

pub update_self {ℓ} : {A : Type ℓ} (f : ℕ → A) (p : ℕ) (v : A) → update f p v p ≡ v
update_self f p v = ground arith

-- The pointer is the given one.
abbrev pub points : Option ℕ → ℕ → Bool
points none o = false
points (some x) o = x == o

-- The pointer leads to memory that has not been freed.
abbrev pub is_some {ℓ} : {A : Type ℓ} → Option A → Bool
is_some none = false
is_some (some a) = true

pub is_some-some {ℓ} : {A : Type ℓ} (o : Option A) → is_some o ≡ true → (a : A) × (o ≡ some a)
is_some-some none e = absurd (cc)
is_some-some (some a) e = (a, refl)

pub some_inj {ℓ} : {A : Type ℓ} {x y : A} → some x ≡ some y → x ≡ y
some_inj e = cc

pub points-some : (o : Option ℕ) (n : ℕ) → points o n ≡ true → o ≡ some n
points-some none n e = absurd (cc)
points-some (some x) n e = ap some (ground arith)

pub some-points : (o : Option ℕ) (n : ℕ) → o ≡ some n → points o n ≡ true
some-points o n e = rw e (ground arith)

pub contains-append :
    (m n : ℕ) (xs : List ℕ) → contains m (xs ++ n ∷ []) ≡ (contains m xs || m == n)
contains-append m n [] = ground arith
contains-append m n (x ∷ xs) = ground (arith, contains-append m n xs)

-- An element that is the head of a list without repetition is not in the rest.
head_once :
    (m n : ℕ) (xs : List ℕ) → contains n xs ≡ false → (m == n) ≡ true → contains m xs ≡ false
head_once m n [] d e = refl
head_once m n (x ∷ xs) d e = ground (arith, head_once m n xs)

pub contains-remove :
    (m n : ℕ) (xs : List ℕ)
    → Distinct xs
    → contains m (remove n xs) ≡ (contains m xs && not (m == n))
contains-remove m n [] d = refl
contains-remove m n (x ∷ xs) d =
    ground (arith, contains-remove m n xs, head_once m x xs, head_once m n xs)

pub Distinct-append :
    (n : ℕ) (xs : List ℕ) → Distinct xs → contains n xs ≡ false → Distinct (xs ++ n ∷ [])
Distinct-append n [] d e = (refl, tt)
Distinct-append n (x ∷ xs) d e =
    (ground (arith, contains-append x n xs, d.0), Distinct-append n xs d.1 (ground arith))

pub Distinct-remove : (n : ℕ) (xs : List ℕ) → Distinct xs → Distinct (remove n xs)
Distinct-remove n [] d = tt
Distinct-remove n (x ∷ xs) d = elim (Bool-cases (n == x)) [
  | inl e ↦ rw e d.1
  | inr e ↦ rw e (ground (arith, contains-remove x n xs d.1, d.0), Distinct-remove n xs d.1)
]

pub length-remove :
    (n : ℕ) (xs : List ℕ) → contains n xs ≡ true → suc (length (remove n xs)) ≡ length xs
length-remove n [] e = absurd (cc)
length-remove n (x ∷ xs) e = ground (arith, length-remove n xs)

-- A pointer above those of a list is not in it.
pub next_unlisted :
    (next : ℕ) (xs : List ℕ)
    → ((n : ℕ) → contains n xs ≡ true → n < next)
    → contains next xs ≡ false
next_unlisted next xs unused = elim (Bool-cases (contains next xs)) [
  | inl e ↦ let below : next < next = unused next e in absurd (omega arith)
  | inr e ↦ e
]
