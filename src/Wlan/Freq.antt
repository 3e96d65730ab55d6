-- ===== src/Wlan/Freq.antt =====
-- Channel numbers and frequencies: wlan_freq2chan and wlan_chan2freq of core/wlan_util.c.
use libuwifi.Base.{
  ℕ, ◌%◌, ◌≤◌, ◌≡◌, ◌⊎◌, arith, ◌&&◌, if◌then◌else◌, ℤ, pos, negsuc, ◌+ℤ◌, ◌-ℤ◌, ◌*ℤ◌, ◌/ℤ◌, ◌≤ℤ◌,
  ◌==ℤ◌, ltb_ℤ, leb_ℤ,
}

unfoldable pub freq2chan : ℤ → ℤ
freq2chan freq =
    if freq ==ℤ pos 2484
    then pos 14
    else if ltb_ℤ freq (pos 2484)
    then (freq -ℤ pos 2407) /ℤ 5
    else if leb_ℤ (pos 4910) freq && leb_ℤ freq (pos 4980)
    then (freq -ℤ pos 4000) /ℤ 5
    else if leb_ℤ freq (pos 45000)
    then (freq -ℤ pos 5000) /ℤ 5
    else if leb_ℤ (pos 58320) freq && leb_ℤ freq (pos 64800)
    then (freq -ℤ pos 56160) /ℤ 2160
    else pos 0

unfoldable pub chan2freq : ℤ → ℤ
chan2freq channel =
    if channel ==ℤ pos 14
    then pos 2484
    else if ltb_ℤ channel (pos 14)
    then pos 2407 +ℤ channel *ℤ 5
    else pos 5000 +ℤ channel *ℤ 5

-- Every channel number up to 8000 is recovered from the frequency that stands for it.
pub freq2chan-chan2freq : (c : ℤ) → c ≤ℤ pos 8000 → freq2chan (chan2freq c) ≡ c
unfolding freq2chan chan2freq ◌+ℤ◌ ◌-ℤ◌ ◌*ℤ◌ ◌/ℤ◌
freq2chan-chan2freq (pos c) h = ground arith
freq2chan-chan2freq (negsuc c) h = ground arith

-- Each channel of the 2.4 GHz band (5 MHz apart from 2412 to 2472 MHz, and 2484 MHz) and of the 5 GHz
-- band (5 MHz apart from 5075 to 45000 MHz) is recovered from its number.
pub chan2freq-freq2chan :
    (f : ℕ)
    → ((2412 ≤ f) × (f ≤ 2472) × (f % 5 ≡ 2))
      ⊎ ((f ≡ 2484) ⊎ ((5075 ≤ f) × (f ≤ 45000) × (f % 5 ≡ 0)))
    → chan2freq (freq2chan (pos f)) ≡ pos f
unfolding freq2chan chan2freq ◌+ℤ◌ ◌-ℤ◌ ◌*ℤ◌ ◌/ℤ◌
chan2freq-freq2chan f h = ground arith
