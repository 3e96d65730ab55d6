-- ===== src/Examples/Util.antt =====
-- Frequencies, rates, streams and frame names of core/wlan_util.c on concrete inputs.
use libuwifi.Base.{ℕ, ◌≡◌, refl, List, [], ◌∷◌, pos, ◌+ℤ◌, ◌*ℤ◌}
use libuwifi.Wlan.Freq.{chan2freq}

chan2freq_13 : chan2freq (pos 13) ≡ pos 2472
unfolding chan2freq ◌+ℤ◌ ◌*ℤ◌
chan2freq_13 = refl

abbrev mcs_set : List ℕ
mcs_set = 0xff ∷ 0xff ∷ 0 ∷ 0 ∷ 0 ∷ 0 ∷ 0 ∷ 0 ∷ 0 ∷ 0 ∷ 0 ∷ 0 ∷ 1 ∷ []
