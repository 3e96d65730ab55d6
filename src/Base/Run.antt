-- ===== src/Base/Run.antt =====
-- Code that changes a state and may meet a fault: `none` is a fault, as in `Faults`.
use mathlib.Core.Path.{◌≡◌, refl}
use mathlib.Core.Bool.{Bool, true, false}
use mathlib.Core.Option.{Option, none, some}
use libuwifi.Base.Tests.{if◌then◌else◌}

abbrev pub Run : Type 0 → Type 0 → Type 0
Run S A = S → Option (A × S)

abbrev pub pure : {S A : Type 0} → A → Run S A
pure a s = some (a, s)

-- A step that meets no fault.
abbrev pub call : {S A : Type 0} → (S → A × S) → Run S A
call f s = some (f s)

abbrev pub proceed : {S A B : Type 0} → Option (A × S) → (A → Run S B) → Option (B × S)
proceed none k = none
proceed (some (a, s)) k = k a s

infixl 5 ◌>>=◌ ◌>>◌
abbrev pub ◌>>=◌ : {S A B : Type 0} → Run S A → (A → Run S B) → Run S B
◌>>=◌ m k s = proceed (m s) k

abbrev pub ◌>>◌ : {S A B : Type 0} → Run S A → Run S B → Run S B
m >> k = m >>= λ _. k

-- The run meets no fault, and its result and last state are as `P` says.
pub data Returns {S A : Type 0} (P : A → S → Type 0) : Option (A × S) → Type 0 where
  returns : {a : A} {s : S} → P a s → Returns P (some (a, s))

module _ {S A : Type 0} {P : A → S → Type 0} where
  -- What a run returns, by name.
  pub Returns-some :
      {r : Option (A × S)} → Returns P r → (a : A) × (s : S) × (r ≡ some (a, s)) × P a s
  Returns-some (returns {a} {s} p) = (a, s, refl, p)

  pub Returns-mono :
      {Q : A → S → Type 0} {r : Option (A × S)}
      → Returns P r
      → ((a : A) (s : S) → P a s → Q a s)
      → Returns Q r
  Returns-mono (returns p) weaken = returns (weaken _ _ p)

  pub Returns-if :
      (b : Bool) (x y : Run S A) {s : S}
      → (b ≡ true → Returns P (x s))
      → (b ≡ false → Returns P (y s))
      → Returns P ((if b then x else y) s)
  Returns-if true x y h k = h refl
  Returns-if false x y h k = k refl

  pub Returns-bind :
      {B : Type 0} {Q : B → S → Type 0} {r : Option (A × S)} {k : A → Run S B}
      → Returns P r
      → ((a : A) (s : S) → P a s → Returns Q (k a s))
      → Returns Q (proceed r k)
  Returns-bind (returns p) next = next _ _ p

-- What holds of the result and the last state, if the run meets no fault.
abbrev pub Yields : {S A : Type 0} → (A → S → Type 0) → Option (A × S) → Type 0
Yields P none = Unit {0}
Yields P (some (a, s)) = P a s

module _ {S A : Type 0} where
  pub Yields-bind :
      {B : Type 0} (P : A → S → Type 0) (Q : B → S → Type 0) (r : Option (A × S)) (k : A → Run S B)
      → Yields P r
      → ((a : A) (s : S) → P a s → Yields Q (k a s))
      → Yields Q (proceed r k)
  Yields-bind P Q none k p next = tt
  Yields-bind P Q (some (a, s)) k p next = next a s p

  pub Yields-if :
      (P : A → S → Type 0) (b : Bool) (x y : Run S A) (s : S)
      → (b ≡ true → Yields P (x s))
      → (b ≡ false → Yields P (y s))
      → Yields P ((if b then x else y) s)
  Yields-if P true x y s h k = h refl
  Yields-if P false x y s h k = k refl

  -- A run that meets no fault, and what holds of it if it does not.
  pub Returns-and :
      {P : A → S → Type 0} (Q : A → S → Type 0) {r : Option (A × S)}
      → Returns P r
      → Yields Q r
      → Returns (λ a s. P a s × Q a s) r
  Returns-and Q (returns p) q = returns (p, q)
