-- ===== src/Base/Faults.antt =====
-- Code that reads memory: `none` is a read outside the buffer or array that a pointer leads into.
use Prim.Native.Nat.{ℕ, zero, suc, ◌+◌, ◌*◌}
use mathlib.Core.Option.{Option, none, some}
use mathlib.Core.List.{List, [], ◌∷◌}
use libuwifi.Base.Lists.{get_elem?, drop}

infixl 5 ◌>>=◌
abbrev pub ◌>>=◌ {ℓ κ} : {A : Type ℓ} {B : Type κ} → Option A → (A → Option B) → Option B
none >>= f = none
some a >>= f = f a

-- The `n` bytes at the start of `buf`.
abbrev pub bytes : ℕ → List ℕ → Option (List ℕ)
bytes zero buf = some []
bytes (suc n) [] = none
bytes (suc n) (b ∷ buf) = bytes n buf >>= λ rest. some (b ∷ rest)

-- `le16toh`, `le32toh` and `le64toh` of the bytes at an offset.
abbrev pub le16 : List ℕ → ℕ → Option ℕ
le16 buf i = do lo ← get_elem? buf i; hi ← get_elem? buf (i + 1); some (lo + 256 * hi)

abbrev pub le32 : List ℕ → ℕ → Option ℕ
le32 buf i = do lo ← le16 buf i; hi ← le16 buf (i + 2); some (lo + 65536 * hi)

abbrev pub le64 : List ℕ → ℕ → Option ℕ
le64 buf i = do lo ← le32 buf i; hi ← le32 buf (i + 4); some (lo + 4294967296 * hi)

-- `memcpy` of `n` bytes from an offset.
abbrev pub copy : ℕ → List ℕ → ℕ → Option (List ℕ)
copy n buf i = bytes n (drop i buf)
