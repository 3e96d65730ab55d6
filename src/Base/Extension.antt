-- ===== src/Base/Extension.antt =====
-- When a read that succeeds keeps its result: the order on results in which `none` is least, and its
-- rules for the reads of `Faults`.
use Prim.Native.Nat.{ℕ, zero, suc, ◌+◌}
use mathlib.Core.Path.{◌≡◌, refl}
use mathlib.Core.Bool.{Bool, true, false}
use mathlib.Core.Option.{Option, none, some}
use mathlib.Core.List.{List, [], ◌∷◌, ◌++◌}
use libuwifi.Base.Tests.{if◌then◌else◌}
use libuwifi.Base.Lists.{get_elem?, drop}
use libuwifi.Base.Faults.{◌>>=◌, bytes, le16, le32, le64, copy}

infix 50 ◌⊑◌
-- If the first run succeeds, so does the second, with the same result.
pub record ◌⊑◌ {ℓ} {A : Type ℓ} (m m' : Option A) : Type ℓ where
  pub keeps : (x : A) → m ≡ some x → m' ≡ some x

module _ {ℓ} {A : Type ℓ} where
  pub ⊑_refl : {m : Option A} → m ⊑ m
  ⊑_refl = record { keeps = λ x e. e }

  pub none_⊑ : {m : Option A} → none ⊑ m
  none_⊑ = record { keeps = λ x e. absurd (cc) }

  pub ⊑_if :
      (b : Bool) {m n m' n' : Option A}
      → m ⊑ m'
      → n ⊑ n'
      → (if b then m else n) ⊑ (if b then m' else n')
  ⊑_if true p q = p
  ⊑_if false p q = q

  pub get_elem?_⊑ : (xs ys : List A) (i : ℕ) → get_elem? xs i ⊑ get_elem? (xs ++ ys) i
  get_elem?_⊑ [] ys i = none_⊑
  get_elem?_⊑ (x ∷ xs) ys zero = ⊑_refl
  get_elem?_⊑ (x ∷ xs) ys (suc i) = get_elem?_⊑ xs ys i

module _ {ℓ κ} {A : Type ℓ} {B : Type κ} where
  pub ⊑_bind :
      {m m' : Option A} {f f' : A → Option B}
      → m ⊑ m'
      → ((a : A) → f a ⊑ f' a)
      → (m >>= f) ⊑ (m' >>= f')
  ⊑_bind {m = none} {m'} {f} {f'} p q = none_⊑
  ⊑_bind {m = some a} {m'} {f} {f'} p q = rw (p.keeps a refl) (q a)

-- Reading bytes and words.
pub bytes_⊑ : (n : ℕ) (xs ys : List ℕ) → bytes n xs ⊑ bytes n (xs ++ ys)
bytes_⊑ zero xs ys = ⊑_refl
bytes_⊑ (suc n) [] ys = none_⊑
bytes_⊑ (suc n) (x ∷ xs) ys = ⊑_bind (bytes_⊑ n xs ys) (λ a. ⊑_refl)

pub le16_⊑ : (xs ys : List ℕ) (i : ℕ) → le16 xs i ⊑ le16 (xs ++ ys) i
le16_⊑ xs ys i =
    ⊑_bind (get_elem?_⊑ xs ys i) (λ a. ⊑_bind (get_elem?_⊑ xs ys (i + 1)) (λ b. ⊑_refl))

le32_⊑ : (xs ys : List ℕ) (i : ℕ) → le32 xs i ⊑ le32 (xs ++ ys) i
le32_⊑ xs ys i = ⊑_bind (le16_⊑ xs ys i) (λ a. ⊑_bind (le16_⊑ xs ys (i + 2)) (λ b. ⊑_refl))

pub le64_⊑ : (xs ys : List ℕ) (i : ℕ) → le64 xs i ⊑ le64 (xs ++ ys) i
le64_⊑ xs ys i = ⊑_bind (le32_⊑ xs ys i) (λ a. ⊑_bind (le32_⊑ xs ys (i + 4)) (λ b. ⊑_refl))

-- Skipping bytes of the longer memory skips them of the shorter one, and leaves a longer memory.
pub drop-append : (n : ℕ) (xs ys : List ℕ) → (zs : List ℕ) × (drop n (xs ++ ys) ≡ drop n xs ++ zs)
drop-append zero xs ys = (ys, refl)
drop-append (suc n) [] ys = (drop (suc n) ys, refl)
drop-append (suc n) (x ∷ xs) ys = drop-append n xs ys

-- So what holds of every longer memory holds after a skip.
pub drop_⊑ {ℓ} :
    {A : Type ℓ} (f : List ℕ → Option A)
    → ((xs ys : List ℕ) → f xs ⊑ f (xs ++ ys))
    → (n : ℕ) (xs ys : List ℕ) → f (drop n xs) ⊑ f (drop n (xs ++ ys))
drop_⊑ f keeps n xs ys = let (zs, e) = drop-append n xs ys in rw e (keeps (drop n xs) zs)

pub copy_⊑ : (n : ℕ) (xs ys : List ℕ) (i : ℕ) → copy n xs i ⊑ copy n (xs ++ ys) i
copy_⊑ n xs ys i = drop_⊑ (bytes n) (bytes_⊑ n) i xs ys
