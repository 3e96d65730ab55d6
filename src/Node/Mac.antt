-- ===== src/Node/Mac.antt =====
-- MAC addresses as lists of six bytes: memcmp of WLAN_MAC_LEN bytes and the macros of include/uwifi/util.h.
use libuwifi.Base.{
  ◌≢◌, sym, ap, ◌∙◌, ℕ, ◌≡◌, refl, Bool, true, false, ◌&&◌, List, [], ◌∷◌, ◌==◌, arith,
}

-- memcmp(a, b, WLAN_MAC_LEN) == 0
abbrev pub eq_mac : List ℕ → List ℕ → Bool
eq_mac [] [] = true
eq_mac [] (y ∷ ys) = false
eq_mac (x ∷ xs) [] = false
eq_mac (x ∷ xs) (y ∷ ys) = x == y && eq_mac xs ys

-- Every byte of the address is `b`.
abbrev pub all_bytes : ℕ → List ℕ → Bool
all_bytes b [] = true
all_bytes b (x ∷ xs) = x == b && all_bytes b xs

-- MAC_EMPTY
abbrev pub mac_empty : List ℕ → Bool
mac_empty mac = all_bytes 0 mac

-- MAC_BCAST
abbrev pub mac_bcast : List ℕ → Bool
mac_bcast mac = all_bytes 255 mac

-- mac[0] == 0xff
abbrev pub starts_ff : List ℕ → Bool
starts_ff [] = false
starts_ff (x ∷ xs) = x == 255

pub eq_mac_refl : (xs : List ℕ) → eq_mac xs xs ≡ true
eq_mac_refl [] = refl
eq_mac_refl (x ∷ xs) = ground (arith, eq_mac_refl xs)

pub eq_mac_clash : (xs ys : List ℕ) → eq_mac xs ys ≡ false → xs ≢ ys
eq_mac_clash xs ys other e =
    let clash : true ≡ false = sym (eq_mac_refl xs) ∙ ap (eq_mac xs) e ∙ other in absurd (cc)

pub eq_mac_sound : (xs ys : List ℕ) → eq_mac xs ys ≡ true → xs ≡ ys
eq_mac_sound [] [] e = refl
eq_mac_sound [] (y ∷ ys) e = absurd (cc)
eq_mac_sound (x ∷ xs) [] e = absurd (cc)
eq_mac_sound (x ∷ xs) (y ∷ ys) e = ground (arith, eq_mac_sound xs ys)
