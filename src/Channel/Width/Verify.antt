-- ===== src/Channel/Width/Verify.antt =====
-- What uwifi_channel_verify of core/channel.c accepts.
use libuwifi.Base.{
  ℕ, ◌+◌, ◌-◌, ◌%◌, ◌^◌, ◌≤◌, ◌<◌, ◌≡◌, refl, List, [], ◌∷◌, Bool, true, false, ◌&&◌, if◌then◌else◌,
  not, pos, negsuc, minus_one, ◌==ℤ◌, ◌+ℤ◌, int32, sub32, arith,
}
use libuwifi.Wlan.Types.{w40, w80, w160}
use libuwifi.Channel.Types.{Channels}
use libuwifi.Channel.Table.{idx_from_freq}
use libuwifi.Channel.Width.{verify_ch, verify_width, verify_ht40, all_exist, add32, fix_center_freq}

-- Some channel of the table has the frequency.
abbrev pub exists : Channels → ℕ → Bool
exists ch f = not (idx_from_freq ch f ==ℤ minus_one)

-- For a centre that uwifi_channel_fix_center_freq has set for HT40, verification asks for the
-- secondary channel alone: 20 MHz above the primary for HT40+ and 20 MHz below it for HT40-.
pub verify_ch-ht40 :
    (ch : Channels) (f : ℕ) (ht40plus : Bool)
    → 20 ≤ f
    → f < 2 ^ 31
    → verify_ch (fix_center_freq (record { freq = f; width = w40; center_freq = 0 }) ht40plus) ch
      ≡ exists ch (if ht40plus then f + 20 else f - 20)
unfolding verify_ch verify_width verify_ht40
verify_ch-ht40 ch f true low high =
    let d : int32 (sub32 ((f + 10) % 2 ^ 32) f) ≡ pos 10 = ground arith in
    let second : add32 ((f + 10) % 2 ^ 32) (pos 10) ≡ f + 20 = omega arith in rw (d, second) refl
verify_ch-ht40 ch f false low high =
    let d : int32 (sub32 (sub32 f 10) f) ≡ negsuc 9 = ground arith in
    let second : add32 (sub32 f 10) (negsuc 9) ≡ f - 20 = omega arith in rw (d, second) refl

-- All the frequencies of a list have a channel.
abbrev pub all_present : Channels → List ℕ → Bool
all_present ch [] = true
all_present ch (f ∷ fs) = exists ch f && all_present ch fs

checked_and : (a b : Bool) → (if a then false else b) ≡ (not a && b)
checked_and true b = refl
checked_and false b = refl

-- For 80 MHz, verification asks for three of the four channels of 20 MHz, those at -30, -10 and +10
-- MHz from the centre: not for the last one at +30 MHz.
pub verify_ch-w80 :
    (ch : Channels) (f c : ℕ)
    → 30 ≤ c
    → c < 2 ^ 31
    → verify_ch (record { freq = f; width = w80; center_freq = c }) ch
      ≡ all_present ch ((c - 30) ∷ (c - 10) ∷ (c + 10) ∷ [])
unfolding verify_ch verify_width all_exist ◌+ℤ◌
verify_ch-w80 ch f c low high =
    let e0 : add32 c (negsuc 29) ≡ c - 30 = omega arith in
    let e1 : add32 c (negsuc 9) ≡ c - 10 = omega arith in
    let e2 : add32 c (pos 10) ≡ c + 10 = omega arith in rw (e0, e1, e2) (simp checked_and refl)

-- For 160 MHz, verification asks for seven of the eight channels, from -70 to +50 MHz: not for the
-- last one at +70 MHz.
pub verify_ch-w160 :
    (ch : Channels) (f c : ℕ)
    → 70 ≤ c
    → c < 2 ^ 31
    → verify_ch (record { freq = f; width = w160; center_freq = c }) ch
      ≡ all_present ch
          ((c - 70) ∷ (c - 50) ∷ (c - 30) ∷ (c - 10) ∷ (c + 10) ∷ (c + 30) ∷ (c + 50) ∷ [])
unfolding verify_ch verify_width all_exist ◌+ℤ◌
verify_ch-w160 ch f c low high =
    let e0 : add32 c (negsuc 69) ≡ c - 70 = omega arith in
    let e1 : add32 c (negsuc 49) ≡ c - 50 = omega arith in
    let e2 : add32 c (negsuc 29) ≡ c - 30 = omega arith in
    let e3 : add32 c (negsuc 9) ≡ c - 10 = omega arith in
    let e4 : add32 c (pos 10) ≡ c + 10 = omega arith in
    let e5 : add32 c (pos 30) ≡ c + 30 = omega arith in
    let e6 : add32 c (pos 50) ≡ c + 50 = omega arith in
    rw (e0, e1, e2, e3, e4, e5, e6) (simp checked_and refl)
