-- ===== src/Base/Int.antt =====
-- The C type `int` as an integer over the native numbers, and its conversions.
use Prim.Native.Nat.{ℕ, suc, ◌+◌, ◌-◌, ◌*◌, ◌/◌, ◌%◌, ◌^◌, ◌≤◌, ◌<◌}
use mathlib.Core.Path.{◌≡◌}
use mathlib.Core.Logic.{◌↔◌}
use mathlib.Core.Bool.{Bool, true}
use native.Mathlib.Omega.{arith}
use libuwifi.Base.Tests.{ltb, leb, ◌==◌, if◌then◌else◌}

-- `negsuc n` is -(n + 1).
pub data ℤ : Type 0 where
  pos : ℕ → ℤ
  negsuc : ℕ → ℤ

abbrev pub pos_part : ℤ → ℕ
pos_part (pos n) = n
pos_part (negsuc n) = 0

abbrev pub neg_part : ℤ → ℕ
neg_part (pos n) = 0
neg_part (negsuc n) = suc n

-- a - b, as an integer.
abbrev pub sub_ℕ : ℕ → ℕ → ℤ
sub_ℕ a b = if leb b a then pos (a - b) else negsuc (b - a - 1)

infixl 65 ◌+ℤ◌ ◌-ℤ◌
infixl 70 ◌*ℤ◌ ◌/ℤ◌
infix 50 ◌≤ℤ◌ ◌==ℤ◌
unfoldable pub ◌+ℤ◌ : ℤ → ℤ → ℤ
a +ℤ b = sub_ℕ (pos_part a + pos_part b) (neg_part a + neg_part b)

unfoldable pub ◌-ℤ◌ : ℤ → ℤ → ℤ
a -ℤ b = sub_ℕ (pos_part a + neg_part b) (neg_part a + pos_part b)

-- A product with a constant that is not negative.
unfoldable pub ◌*ℤ◌ : ℤ → ℕ → ℤ
a *ℤ k = sub_ℕ (pos_part a * k) (neg_part a * k)

-- C division by a positive constant: the quotient is truncated towards 0.
unfoldable pub ◌/ℤ◌ : ℤ → ℕ → ℤ
a /ℤ k = sub_ℕ (pos_part a / k) (neg_part a / k)

abbrev pub ◌≤ℤ◌ : ℤ → ℤ → Type 0
a ≤ℤ b = pos_part a + neg_part b ≤ pos_part b + neg_part a

abbrev pub ltb_ℤ : ℤ → ℤ → Bool
ltb_ℤ a b = ltb (pos_part a + neg_part b) (pos_part b + neg_part a)

abbrev pub leb_ℤ : ℤ → ℤ → Bool
leb_ℤ a b = leb (pos_part a + neg_part b) (pos_part b + neg_part a)

abbrev pub ◌==ℤ◌ : ℤ → ℤ → Bool
a ==ℤ b = (pos_part a + neg_part b) == (pos_part b + neg_part a)

-- The value -1 by which the functions report a failure.
abbrev pub minus_one : ℤ
minus_one = negsuc 0

-- The conversion of an unsigned 32-bit value to `int`.
abbrev pub int32 : ℕ → ℤ
int32 w = if leb (2 ^ 31) w then negsuc (2 ^ 32 - w - 1) else pos w

-- The conversion of an `int` to an unsigned 32-bit value.
abbrev pub uint32_of : ℤ → ℕ
uint32_of (pos n) = n % 2 ^ 32
uint32_of (negsuc n) = (2 ^ 32 - suc n % 2 ^ 32) % 2 ^ 32

pub ==ℤ_iff : (a b : ℤ) → ((a ==ℤ b) ≡ true) ↔ (a ≡ b)
==ℤ_iff a b = ground arith

pub uint32_of-int32 : (w : ℕ) → w < 2 ^ 32 → uint32_of (int32 w) ≡ w
uint32_of-int32 w h = ground arith
