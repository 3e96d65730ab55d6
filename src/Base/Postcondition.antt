-- ===== src/Base/Postcondition.antt =====
-- What follows from the success of a chain of reads, and how a chain fails.
use mathlib.Core.Path.{◌≡◌, refl}
use mathlib.Core.Option.{Option, none, some}
use mathlib.Core.List.{List, [], ◌∷◌}
use Prim.Native.Nat.{ℕ, zero, suc, ◌+◌, ◌<◌}
use native.Mathlib.Omega.{arith}
use libuwifi.Base.Lists.{length, get_elem?, get_elem?_ge}
use libuwifi.Base.Faults.{◌>>=◌, bytes, le16}

-- A chain that succeeds has succeeded at its first step, and then in the rest.
pub >>=-eq-some {ℓ κ} :
    {A : Type ℓ} {B : Type κ} (m : Option A) (f : A → Option B) {b : B}
    → (m >>= f) ≡ some b
    → (a : A) × (m ≡ some a) × (f a ≡ some b)
>>=-eq-some none f e = absurd (cc)
>>=-eq-some (some a) f e = (a, refl, e)

-- A chain of steps fails if a step does, whatever the steps before it give.
pub bind-none {ℓ κ} :
    {A : Type ℓ} {B : Type κ} (m : Option A) {f : A → Option B}
    → ((a : A) → f a ≡ none)
    → (m >>= f) ≡ none
bind-none none h = refl
bind-none (some a) h = h a

pub bytes_short : (n : ℕ) (xs : List ℕ) → length xs < n → bytes n xs ≡ none
bytes_short zero xs h = absurd (omega arith)
bytes_short (suc n) [] h = refl
bytes_short (suc n) (x ∷ xs) h = rw (bytes_short n xs (omega arith))

pub le16_short : (xs : List ℕ) (i : ℕ) → length xs < i + 2 → le16 xs i ≡ none
le16_short xs i h = bind-none (get_elem? xs i) (λ lo. rw (get_elem?_ge xs (i + 1) (omega arith)))
