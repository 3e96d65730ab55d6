-- ===== src/Base/Words.antt =====
-- Machine words: wrap-around, bit tests and bit fields in the form that arithmetic reads, and bytes
-- in little-endian order.
use Prim.Native.Nat.{ℕ, ◌+◌, ◌-◌, ◌/◌, ◌%◌, ◌^◌}
use mathlib.Core.Bool.{Bool}
use mathlib.Core.List.{List, [], ◌∷◌, ◌++◌}
use libuwifi.Base.Tests.{◌==◌}

abbrev pub u8 : ℕ → ℕ
u8 n = n % 2 ^ 8

abbrev pub u16 : ℕ → ℕ
u16 n = n % 2 ^ 16

abbrev pub u32 : ℕ → ℕ
u32 n = n % 2 ^ 32

abbrev pub u64 : ℕ → ℕ
u64 n = n % 2 ^ 64

-- uint32_t a - b.
abbrev pub sub32 : ℕ → ℕ → ℕ
sub32 a b = (a + 2 ^ 32 - b) % 2 ^ 32

-- size_t a - b.
abbrev pub sub64 : ℕ → ℕ → ℕ
sub64 a b = (a + 2 ^ 64 - b) % 2 ^ 64

-- `(x & mask) >> lo` for a mask of `n` ones above `lo` zeros.
abbrev pub field : ℕ → ℕ → ℕ → ℕ
field x lo n = x / 2 ^ lo % 2 ^ n

-- `(x & (1 << k)) != 0`
abbrev pub test_bit : ℕ → ℕ → Bool
test_bit x k = (x / 2 ^ k % 2) == 1

abbrev pub le16_bytes : ℕ → List ℕ
le16_bytes n = n % 256 ∷ n / 256 % 256 ∷ []

abbrev pub le32_bytes : ℕ → List ℕ
le32_bytes n = n % 256 ∷ n / 256 % 256 ∷ n / 65536 % 256 ∷ n / 16777216 % 256 ∷ []

abbrev pub le64_bytes : ℕ → List ℕ
le64_bytes n = le32_bytes n ++ le32_bytes (n / 4294967296)
