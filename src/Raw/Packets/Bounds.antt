-- ===== src/Raw/Packets/Bounds.antt =====
-- The value that uwifi_parse_raw of linux/raw_parser.c returns.
use libuwifi.Base.{
  sym, refl, ◌≤◌, ◌+◌, ◌⊎◌, ℕ, zero, suc, ◌-◌, ◌<◌, ◌≡◌, subst, ℤ, pos, negsuc, ◌+ℤ◌, ◌≤ℤ◌, some,
  List, leb, minus_one, drop, arith, inl, inr, >>=-eq-some, if_cases,
}
use libuwifi.Store.{some_inj}
use libuwifi.Parser.Packet.{Packet}
use libuwifi.Parser.Header.{parse_80211_header}
use libuwifi.Parser.Header.Bounds.{parse_80211_header-consumed}
use libuwifi.Raw.Radiotap.{RadiotapLib}
use libuwifi.Raw.Packets.{Arphrd, parse_raw_header, parse_raw_frame, add_header, parse_raw}

-- What is returned behind a header of `h` bytes for the value of the frame parser: -1 or 0 if that is, and
-- else the size of both headers, for which the length has room.
abbrev pub Sums : ℕ → ℕ → ℤ → ℤ → Type 0
Sums h len (negsuc n) v = v ≡ minus_one
Sums h len (pos zero) v = v ≡ pos 0
Sums h len (pos (suc k)) v = (v ≡ pos (h + suc k)) × (h + suc k ≤ len)

-- What is returned for the value of the first header: -1 or 0 if that is, -1 if nothing is behind the header,
-- and else what the value of the frame parser on the bytes behind it gives.
abbrev pub Continues : List ℕ → ℕ → ℤ → Packet → ℤ × Packet → Type 0
Continues buf len (negsuc n) q r = r ≡ (minus_one, q)
Continues buf len (pos zero) q r = r ≡ (pos 0, q)
Continues buf len (pos (suc k)) q r =
    ((len ≤ suc k) × (r ≡ (minus_one, q)))
    ⊎ ((x : ℤ) × (suc k < len)
        × (parse_80211_header (drop (suc k) buf) (len - suc k) q ≡ some (x, r.1))
        × Sums (suc k) len x r.0)

pub record IsValue (lib : RadiotapLib) (buf : List ℕ) (len : ℕ) (p : Packet) (arphrd : Arphrd)
    (r : ℤ × Packet) : Type 0 where
  pub header : ℤ × Packet
  pub runs : parse_raw_header lib buf len p arphrd ≡ some header
  pub value : Continues buf len header.0 header.1 r

add_header-Sums :
    (h len : ℕ) (x : ℤ) (y : Packet)
    → h < len
    → (minus_one ≤ℤ x) × (x ≤ℤ pos (len - h))
    → Sums h len x (add_header h (x, y)).0
unfolding ◌+ℤ◌
add_header-Sums h len (negsuc zero) y less low = refl
add_header-Sums h len (negsuc (suc n)) y less low = absurd (omega (arith, low.0))
add_header-Sums h len (pos zero) y less low = refl
add_header-Sums h len (pos (suc k)) y less low = (ground arith, omega (arith, low.1))

frame-Continues :
    (buf : List ℕ) (len : ℕ) (v : ℤ) (q : Packet) (r : ℤ × Packet)
    → parse_raw_frame buf len v q ≡ some r
    → Continues buf len v q r
frame-Continues buf len (negsuc n) q r e = sym (some_inj e)
frame-Continues buf len (pos zero) q r e = sym (some_inj e)
frame-Continues buf len (pos (suc k)) q r e = elim (if_cases (leb len (suc k)) _ _ e) [
  | inl (long, e1) ↦ inl (ground (arith, long), sym (some_inj e1))
  | inr (short, e1) ↦
      let (x, parsed, e2) =
        >>=-eq-some (parse_80211_header (drop (suc k) buf) (len - suc k) q) _ e1 in
      let less : suc k < len = ground (arith, short) in
      let bounds = parse_80211_header-consumed (drop (suc k) buf) (len - suc k) q x parsed in
      subst (Continues buf len (pos (suc k)) q) (some_inj e2)
        (inr (x.0, less, parsed, add_header-Sums (suc k) len x.0 x.1 less bounds))
]

-- Where uwifi_parse_raw meets no fault, it returns -1 or 0 where the first header gives that, -1
-- where nothing is behind that header, and else, for the bytes behind it, -1 or 0 where the frame
-- parser gives that, and otherwise the sum of both sizes, which is within the length of the packet.
pub parse_raw-IsValue :
    (lib : RadiotapLib) (buf : List ℕ) (len : ℕ) (p : Packet) (arphrd : Arphrd) (r : ℤ × Packet)
    → parse_raw lib buf len p arphrd ≡ some r
    → IsValue lib buf len p arphrd r
unfolding parse_raw
parse_raw-IsValue lib buf len p arphrd r e =
    let (h, header, e1) = >>=-eq-some (parse_raw_header lib buf len p arphrd) _ e in
    record { header = h; runs = header; value = frame-Continues buf len h.0 h.1 r e1 }
