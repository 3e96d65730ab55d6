-- ===== src/Wlan/Names/Lookup.antt =====
-- What the table of frame names promises: core/wlan_util.c.
use libuwifi.Base.{
  ℕ, ◌<◌, ◌≡◌, ◌≢◌, refl, Bool, true, false, ◌||◌, arith, ◌==◌, Option, none, some, passes_below,
  passes_below_at,
}
use libuwifi.Wlan.Frame.{frame_type, frame_stype, frame_mask, frame_fc}
use libuwifi.Wlan.Names.{PktName, get_packet_struct, stype_name}

-- The character of the reserved entries is a dash.
abbrev pub is_reserved : PktName → Bool
is_reserved n = n.c == b'-'

abbrev entry_fits : ℕ → ℕ → Option PktName → Bool
entry_fits t s none = false
entry_fits t s (some n) = is_reserved n || (n.fc == frame_fc t s)

names_table : passes_below 3 (λ t. passes_below 16 (λ s. entry_fits t s (stype_name t s))) ≡ true
unfolding passes_below
names_table = refl

entry_found : (t s : ℕ) → t < 3 → s < 16 → entry_fits t s (stype_name t s) ≡ true
entry_found t s ht hs =
    passes_below_at 16 (λ s. entry_fits t s (stype_name t s)) s
      (passes_below_at 3 (λ t. passes_below 16 (λ s. entry_fits t s (stype_name t s))) t names_table
        ht)
      hs

entry_cases :
    (t s : ℕ) (o : Option PktName)
    → entry_fits t s o ≡ true
    → (n : PktName) × (o ≡ some n) × (is_reserved n ≡ false → n.fc ≡ frame_fc t s)
entry_cases t s none h = absurd (cc)
entry_cases t s (some n) h = (n, refl, λ r. ground arith)

-- Every frame control value but the mark of a bad FCS finds an entry of the table inside its bounds if its
-- type is not the extension type, and the entry, unless reserved, is that of the value's type and subtype.
pub get_packet_struct-fc :
    (type : ℕ)
    → type ≢ 1
    → frame_type type ≢ 3
    → (n : PktName) × (get_packet_struct type ≡ some n)
      × (is_reserved n ≡ false → n.fc ≡ frame_mask type)
unfolding get_packet_struct
get_packet_struct-fc type h1 h3 =
    let (n, e, f) =
      entry_cases (frame_type type) (frame_stype type)
        (stype_name (frame_type type) (frame_stype type))
        (entry_found (frame_type type) (frame_stype type) (omega arith) (omega arith)) in
    (n, ground arith, λ r. omega (arith, f r))
