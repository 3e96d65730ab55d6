-- ===== src/Nl80211/Groups/Lookup.antt =====
-- The search of nl_family_group_id_cb of linux/netl80211.c, against a look-up by name.
use libuwifi.Base.{
  ℕ, ◌<◌, ◌≡◌, refl, ℤ, int32, Bool, true, false, ◌&&◌, some, List, [], ◌∷◌, ◌++◌, map, ◌==◌,
  if◌then◌else◌, arith,
}
use libuwifi.Nl80211.Groups.{GroupAttrs, strncmp_same, group_loop, group_id_cb}
use libuwifi.Sys.Process.{Name}

-- No byte is zero.
abbrev pub IsText : Name → Type 0
IsText [] = Unit {0}
IsText (c ∷ cs) = (0 < c) × IsText cs

abbrev pub same_name : Name → Name → Bool
same_name [] [] = true
same_name [] (b ∷ ys) = false
same_name (a ∷ xs) [] = false
same_name (a ∷ xs) (b ∷ ys) = a == b && same_name xs ys

-- The comparison of a whole string with its zero is that of the names.
strncmp_same-same_name :
    (name group : Name)
    → IsText name
    → IsText group
    → strncmp_same (name ++ 0 ∷ []) group ≡ same_name name group
strncmp_same-same_name [] [] t u = refl
strncmp_same-same_name [] (b ∷ group) t u = ground arith
strncmp_same-same_name (a ∷ name) [] t u = ground arith
strncmp_same-same_name (a ∷ name) (b ∷ group) t u =
    ground (arith, strncmp_same-same_name name group t.1 u.1)

-- The attributes of a group with a name and a number.
abbrev pub group_attrs : Name × ℕ → GroupAttrs
group_attrs (name, id) = record { grp_name = some (name ++ 0 ∷ []); grp_id = some id }

abbrev pub Texts : List (Name × ℕ) → Type 0
Texts [] = Unit {0}
Texts (g ∷ gs) = IsText g.0 × Texts gs

-- The number of the first group with the name, or another value if there is none.
abbrev pub lookup_or : ℤ → Name → List (Name × ℕ) → ℤ
lookup_or other group [] = other
lookup_or other group ((name, id) ∷ gs) =
    let rest = lookup_or other group gs in if same_name name group then int32 id else rest

-- For groups whose names have no zero byte, nl_family_group_id_cb finds the number of the first
-- group with exactly the name, as a look-up by name does, and keeps the number it was given if
-- there is none.
pub group_id_cb-lookup_or :
    (group : Name) (gs : List (Name × ℕ)) (id : ℤ)
    → IsText group
    → Texts gs
    → group_id_cb group (some (map group_attrs gs)) id ≡ lookup_or id group gs
unfolding group_id_cb
group_id_cb-lookup_or group [] id t ts = refl
group_id_cb-lookup_or group ((name, i) ∷ gs) id t ts =
    let rest : group_loop group (map group_attrs gs) id ≡ lookup_or id group gs =
      group_id_cb-lookup_or group gs id t ts.1 in
    rw (strncmp_same-same_name name group ts.0 t, rest) refl
