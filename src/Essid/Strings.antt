-- ===== src/Essid/Strings.antt =====
-- The C strings of network names, of WLAN_MAX_SSID_LEN = 34 bytes, by strncmp and strncpy.
use libuwifi.Base.{
  Bool-cases, inl, inr, ℕ, zero, suc, ◌≡◌, refl, Bool, true, false, ◌&&◌, ◌||◌, List, [], ◌∷◌, ◌==◌,
  if◌then◌else◌, replicate, set, arith,
}

-- strncmp(a, b, n) == 0. A list that ends is a string that ends.
abbrev pub strncmp_eq : ℕ → List ℕ → List ℕ → Bool
strncmp_eq zero xs ys = true
strncmp_eq (suc n) [] [] = true
strncmp_eq (suc n) [] (y ∷ ys) = y == 0
strncmp_eq (suc n) (x ∷ xs) [] = x == 0
strncmp_eq (suc n) (x ∷ xs) (y ∷ ys) = x == y && (x == 0 || strncmp_eq n xs ys)

-- The bytes that strncpy(dst, src, n) writes.
abbrev pub strncpy : ℕ → List ℕ → List ℕ
strncpy zero xs = []
strncpy (suc n) [] = replicate (suc n) 0
strncpy (suc n) (x ∷ xs) = x ∷ (if x == 0 then replicate n 0 else strncpy n xs)

-- The name of a new `struct essid_info`: the copy, with its last byte set to NUL.
abbrev pub copy_name : List ℕ → List ℕ
copy_name name = set (strncpy 34 name) 33 0

-- The string in the list ends within the first `n` bytes.
abbrev pub ends_within : ℕ → List ℕ → Bool
ends_within zero xs = false
ends_within (suc n) [] = true
ends_within (suc n) (x ∷ xs) = x == 0 || ends_within n xs

strncmp_eq-zeros : (n : ℕ) → strncmp_eq n (replicate n 0) [] ≡ true
strncmp_eq-zeros zero = refl
strncmp_eq-zeros (suc n) = refl

-- The copy of a string that ends within the bytes before the last equals the string.
pub strncmp_eq-copy :
    (n : ℕ) (xs : List ℕ)
    → ends_within (suc n) xs ≡ true
    → strncmp_eq (suc n) (set (strncpy (suc n) xs) n 0) xs ≡ true
strncmp_eq-copy zero [] e = refl
strncmp_eq-copy zero (x ∷ xs) e = ground arith
strncmp_eq-copy (suc n) [] e = refl
strncmp_eq-copy (suc n) (x ∷ xs) e = ground (arith, strncmp_eq-copy n xs)

-- The string in a list: the bytes in front of the first zero, `n` at most.
abbrev pub text : ℕ → List ℕ → List ℕ
text zero xs = []
text (suc n) [] = []
text (suc n) (x ∷ xs) = if x == 0 then [] else x ∷ text n xs

abbrev pub same_bytes : List ℕ → List ℕ → Bool
same_bytes [] [] = true
same_bytes [] (y ∷ ys) = false
same_bytes (x ∷ xs) [] = false
same_bytes (x ∷ xs) (y ∷ ys) = x == y && same_bytes xs ys

-- The comparison is that of the strings.
pub strncmp_eq-same_bytes :
    (n : ℕ) (xs ys : List ℕ) → strncmp_eq n xs ys ≡ same_bytes (text n xs) (text n ys)
strncmp_eq-same_bytes zero xs ys = refl
strncmp_eq-same_bytes (suc n) [] [] = refl
strncmp_eq-same_bytes (suc n) [] (y ∷ ys) = elim (Bool-cases (y == 0)) [
  | inl e ↦ rw e refl
  | inr e ↦ rw e refl
]
strncmp_eq-same_bytes (suc n) (x ∷ xs) [] = elim (Bool-cases (x == 0)) [
  | inl e ↦ rw e refl
  | inr e ↦ rw e refl
]
strncmp_eq-same_bytes (suc n) (x ∷ xs) (y ∷ ys) =
    let rest = strncmp_eq-same_bytes n xs ys in
    elim (Bool-cases (x == 0)) [
      | inl x0 ↦ elim (Bool-cases (y == 0)) [
        | inl y0 ↦ let same : (x == y) ≡ true = ground arith in rw (x0, y0, same) refl
        | inr y1 ↦ let other : (x == y) ≡ false = ground arith in rw (x0, y1, other) refl
      ]
      | inr x1 ↦ elim (Bool-cases (y == 0)) [
        | inl y0 ↦ let other : (x == y) ≡ false = ground arith in rw (x1, y0, other) refl
        | inr y1 ↦ rw (x1, y1, rest) refl
      ]
    ]
