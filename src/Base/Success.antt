-- ===== src/Base/Success.antt =====
-- When reads succeed: rules for the reads of `Faults` inside memory that is long enough.
use Prim.Native.Nat.{ℕ, zero, suc, ◌+◌, ◌≤◌, ◌<◌}
use mathlib.Core.Path.{◌≡◌, refl}
use mathlib.Core.Bool.{Bool, true, false}
use mathlib.Core.Option.{Option, some}
use mathlib.Core.List.{List, [], ◌∷◌}
use native.Mathlib.Omega.{arith}
use libuwifi.Base.Tests.{if◌then◌else◌}
use libuwifi.Base.Lists.{length, get_elem?, get_elem?_lt, drop, length-drop}
use libuwifi.Base.Faults.{◌>>=◌, bytes, le16, le32, le64, copy}

-- The run meets no fault.
pub record Succeeds {ℓ} {A : Type ℓ} (m : Option A) : Type ℓ where
  pub result : A
  pub runs : m ≡ some result

module _ {ℓ} {A : Type ℓ} where
  pub succeeds : {a : A} → Succeeds (some a)
  succeeds {a} = record { result = a; runs = refl }

  pub if-Succeeds :
      (b : Bool) {m n : Option A}
      → (b ≡ true → Succeeds m)
      → (b ≡ false → Succeeds n)
      → Succeeds (if b then m else n)
  if-Succeeds true p q = p refl
  if-Succeeds false p q = q refl

  pub get_elem?-Succeeds : (xs : List A) (i : ℕ) → i < length xs → Succeeds (get_elem? xs i)
  get_elem?-Succeeds xs i h = let (x, e) = get_elem?_lt xs i h in record { result = x; runs = e }

module _ {ℓ κ} {A : Type ℓ} {B : Type κ} where
  pub bind-Succeeds :
      {m : Option A} {f : A → Option B}
      → Succeeds m
      → ((a : A) → m ≡ some a → Succeeds (f a))
      → Succeeds (m >>= f)
  bind-Succeeds {m} {f} s k =
      let t = k s.result s.runs in record { result = t.result; runs = rw (s.runs) t.runs }

-- Reading bytes and words.
pub bytes-Succeeds : (n : ℕ) (xs : List ℕ) → n ≤ length xs → Succeeds (bytes n xs)
bytes-Succeeds zero xs h = succeeds
bytes-Succeeds (suc n) [] h = absurd (omega arith)
bytes-Succeeds (suc n) (x ∷ xs) h =
    bind-Succeeds (bytes-Succeeds n xs (omega arith)) (λ c e. succeeds)

pub le16-Succeeds : (xs : List ℕ) (i : ℕ) → i + 2 ≤ length xs → Succeeds (le16 xs i)
le16-Succeeds xs i h =
    bind-Succeeds (get_elem?-Succeeds xs i (omega arith))
      λ lo e. bind-Succeeds (get_elem?-Succeeds xs (i + 1) (omega arith)) (λ hi e'. succeeds)

pub le32-Succeeds : (xs : List ℕ) (i : ℕ) → i + 4 ≤ length xs → Succeeds (le32 xs i)
le32-Succeeds xs i h =
    bind-Succeeds (le16-Succeeds xs i (omega arith))
      λ lo e. bind-Succeeds (le16-Succeeds xs (i + 2) (omega arith)) (λ hi e'. succeeds)

pub le64-Succeeds : (xs : List ℕ) (i : ℕ) → i + 8 ≤ length xs → Succeeds (le64 xs i)
le64-Succeeds xs i h =
    bind-Succeeds (le32-Succeeds xs i (omega arith))
      λ lo e. bind-Succeeds (le32-Succeeds xs (i + 4) (omega arith)) (λ hi e'. succeeds)

pub copy-Succeeds : (n : ℕ) (xs : List ℕ) (i : ℕ) → i + n ≤ length xs → Succeeds (copy n xs i)
copy-Succeeds n xs i h = bytes-Succeeds n (drop i xs) (omega (arith, length-drop {0} i xs))

-- Every byte is below 256.
abbrev pub IsBytes : List ℕ → Type 0
IsBytes [] = Unit {0}
IsBytes (x ∷ xs) = (x < 256) × IsBytes xs

pub get_elem?-IsBytes : (xs : List ℕ) (i x : ℕ) → IsBytes xs → get_elem? xs i ≡ some x → x < 256
get_elem?-IsBytes [] i x h e = absurd (cc)
get_elem?-IsBytes (y ∷ xs) zero x h e = ground arith
get_elem?-IsBytes (y ∷ xs) (suc i) x h e = get_elem?-IsBytes xs i x h.1 e

pub drop-IsBytes : (n : ℕ) (xs : List ℕ) → IsBytes xs → IsBytes (drop n xs)
drop-IsBytes zero xs h = h
drop-IsBytes (suc n) [] h = h
drop-IsBytes (suc n) (x ∷ xs) h = drop-IsBytes n xs h.1
