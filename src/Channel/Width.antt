-- ===== src/Channel/Width.antt =====
-- Channel widths and centre frequencies of core/channel.c.
pub mod Verify
pub mod Capab
pub mod Stable
use libuwifi.Base.{
  ℕ, suc, zero, ◌+◌, ◌-◌, ◌*◌, ◌%◌, ◌^◌, Bool, true, false, ◌&&◌, ◌||◌, not, Option, none, some,
  List, [], ◌∷◌, if◌then◌else◌, get_elem?, set, ltb, leb, ◌==◌, ℤ, pos, negsuc, ◌+ℤ◌, ◌-ℤ◌, ◌==ℤ◌,
  ltb_ℤ, minus_one, int32, uint32_of, sub32,
}
use libuwifi.Wlan.Types.{ChanWidth, unspec, noht20, w20, w40, w80, w160, w8080, width_le, width_lt}
use libuwifi.Channel.Types.{ChanFreq, Channels, ChanSpec}
use libuwifi.Channel.Table.{idx_from_chan, idx_from_freq, get_freq, get_band_from_idx}

abbrev within : ℕ → ℕ → ℕ → Bool
within f low high = leb low f && leb f high

-- get_center_freq_vht
unfoldable pub get_center_freq_vht : ℕ → ChanWidth → ℕ
get_center_freq_vht f w80 =
    if within f 5180 5240
    then 5210
    else if within f 5260 5320
    then 5290
    else if within f 5500 5560
    then 5530
    else if within f 5580 5640
    then 5610
    else if within f 5660 5720
    then 5690
    else if within f 5745 5805
    then 5775
    else 0
get_center_freq_vht f w160 =
    if within f 5180 5320 then 5250 else if within f 5180 5320 then 5570 else 0
get_center_freq_vht f w = 0

-- The centre frequency that uwifi_channel_fix_center_freq stores.
abbrev pub fixed_center : ChanWidth → ℕ → Bool → ℕ → ℕ
fixed_center w40 freq ht40plus old = if ht40plus then (freq + 10) % 2 ^ 32 else sub32 freq 10
fixed_center w80 freq ht40plus old = get_center_freq_vht freq w80
fixed_center w160 freq ht40plus old = get_center_freq_vht freq w160
fixed_center w freq ht40plus old = old

-- uwifi_channel_fix_center_freq
abbrev pub fix_center_freq : ChanSpec → Bool → ChanSpec
fix_center_freq spec ht40plus = record spec {
  center_freq = fixed_center spec.width spec.freq ht40plus spec.center_freq;
}

-- uwifi_channel_width_from_mhz
abbrev pub width_from_mhz : ℤ → ChanWidth
width_from_mhz (negsuc n) = unspec
width_from_mhz (pos n) =
    if n == 20
    then w20
    else if n == 40
    then w40
    else if n == 80
    then w80
    else if n == 160
    then w160
    else unspec

-- The sum of an unsigned 32-bit value and an `int`.
abbrev pub add32 : ℕ → ℤ → ℕ
add32 a d = (a + uint32_of d) % 2 ^ 32

-- The loop of uwifi_channel_verify_ch from offset `i` on, for `fuel` rounds.
pub all_exist : ℕ → Channels → ℕ → ℤ → ℤ → Bool
all_exist zero ch center i max = false
all_exist (suc fuel) ch center i max =
    let rest = all_exist fuel ch center (i +ℤ pos 20) max in
    if ltb_ℤ i max
    then (if idx_from_freq ch (add32 center i) ==ℤ minus_one then false else rest)
    else true

-- The rounds of that loop: at most seven, and one to leave it.
abbrev pub rounds : ℕ
rounds = 8

verify_ht40 : ChanSpec → Channels → Bool
verify_ht40 spec ch =
    let d = int32 (sub32 spec.center_freq spec.freq) in
    if not (d ==ℤ pos 10) && not (d ==ℤ negsuc 9)
    then false
    else not (idx_from_freq ch (add32 spec.center_freq d) ==ℤ minus_one)

verify_width : ChanWidth → ChanSpec → Channels → Bool
unfolding verify_ht40
verify_width w40 spec ch = verify_ht40 spec ch
verify_width w80 spec ch = all_exist rounds ch spec.center_freq (negsuc 29) (pos 30)
verify_width w160 spec ch = all_exist rounds ch spec.center_freq (negsuc 69) (pos 70)
verify_width w spec ch = true

-- uwifi_channel_verify_ch
unfoldable pub verify_ch : ChanSpec → Channels → Bool
unfolding verify_width
verify_ch spec ch = verify_width spec.width spec ch

abbrev width_of : Option ChanFreq → ChanWidth
width_of none = unspec
width_of (some c) = c.max_width

-- `channels->chan[idx].max_width` at an index that a look-up has returned; the width unspec where
-- there is none.
abbrev pub max_width_at : Channels → ℤ → ChanWidth
max_width_at ch (negsuc i) = unspec
max_width_at ch (pos i) = width_of (get_elem? ch.chan i)

-- uwifi_channel_verify
unfoldable pub verify : ChanSpec → Channels → Bool
verify spec ch =
    let idx = idx_from_freq ch spec.freq in
    if idx ==ℤ minus_one
    then false
    else if width_lt (max_width_at ch idx) spec.width
    then false
    else verify_ch spec ch

abbrev pub is_w40 : ChanWidth → Bool
is_w40 w40 = true
is_w40 w = false

-- uwifi_channel_is_ht40plus
abbrev pub is_ht40plus : ChanSpec → Bool
is_ht40plus spec = is_w40 spec.width && ltb spec.freq spec.center_freq

-- The loop of chan_check_capab over the widths from 80 MHz on, with the widest width that is found.
pub check_wider : List ChanWidth → ChanWidth → ChanSpec → Channels → ChanWidth → ChanWidth
check_wider [] limit spec ch found = found
check_wider (w ∷ ws) limit spec ch found =
    let fixed = fix_center_freq (record spec { width = w }) false in
    let rest = check_wider ws limit fixed ch w in
    if width_le w limit then (if verify_ch fixed ch then rest else found) else found

-- chan_check_capab on the channel `c` of the table, whose index is `idx`: what it makes of the channel.
-- The width and the two flags that it writes are read by none of the look-ups that it calls.
unfoldable pub capable : Channels → ℕ → ChanFreq → ChanFreq
capable ch idx c =
    let limit = (get_band_from_idx ch (pos idx)).max_chan_width in
    let freq = get_freq ch (pos idx) in
    let minus = not (idx_from_chan ch (c.chan -ℤ pos 4) ==ℤ minus_one) in
    let plus = not (idx_from_chan ch (c.chan +ℤ pos 4) ==ℤ minus_one) in
    let spec : ChanSpec = record { freq = uint32_of freq; width = w80; center_freq = 0 } in
    let wider = check_wider (w80 ∷ w160 ∷ w8080 ∷ []) limit spec ch in
    if freq ==ℤ pos 2484
    then record c { max_width = w20 }
    else if width_le w40 limit
    then (if minus || plus
        then record c { max_width = wider w40; ht40minus = minus; ht40plus = plus }
        else record c { max_width = w20; ht40minus = minus; ht40plus = plus })
    else record c { max_width = wider w20 }

abbrev pub store_capable : Channels → ℕ → Option ChanFreq → Channels
store_capable ch idx none = ch
store_capable ch idx (some c) = record ch { chan = set ch.chan idx (capable ch idx c) }

-- chan_check_capab
abbrev pub check_capab : Channels → ℕ → Channels
check_capab ch idx = store_capable ch idx (get_elem? ch.chan idx)

-- The loop of uwifi_channel_init from index `i` on, for the `n` channels that are left.
pub check_all : ℕ → ℕ → Channels → Channels
check_all zero i ch = ch
check_all (suc n) i ch = check_all n (suc i) (check_capab ch i)
