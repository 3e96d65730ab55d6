-- ===== src/Channel/Width/Stable.antt =====
-- uwifi_channel_init of core/channel.c checks every channel: the look-ups do not change by it.
use libuwifi.Base.{
  ℕ, suc, zero, ◌≡◌, refl, get_elem?, length, length-set, ◌==◌, ℤ, ◌==ℤ◌, ◌∙◌, Option-cases, inl,
  inr,
}
use libuwifi.Channel.Table.Scan.{scan-set}
use libuwifi.Channel.Width.Capab.{capable_same}
use libuwifi.Channel.Types.{Channels}
use libuwifi.Channel.Table.{idx_from_chan, idx_from_freq, visited}
use libuwifi.Channel.Width.{capable, check_capab, check_all}

-- The two tables give the same answers to look-ups by frequency and by number, and are of the same size.
abbrev pub SameLookups : Channels → Channels → Type 0
SameLookups a b =
    ((f : ℕ) → idx_from_freq b f ≡ idx_from_freq a f)
    × ((c : ℤ) → idx_from_chan b c ≡ idx_from_chan a c)
    × (b.num_channels ≡ a.num_channels)
    × (length b.chan ≡ length a.chan)

check_capab-SameLookups : (ch : Channels) (i : ℕ) → SameLookups ch (check_capab ch i)
unfolding idx_from_freq idx_from_chan
check_capab-SameLookups ch i = elim (Option-cases (get_elem? ch.chan i)) [
  | inl e ↦ rw e (λ f. refl, λ c. refl, refl, refl)
  | inr (c, e) ↦
      let same = capable_same ch i c in
      rw e (
        λ f.
            scan-set (λ x. x.freq == f) (capable ch i) (λ d. rw (capable_same ch i d).1 refl)
              ch.chan i c (visited ch) 0 e,
        λ k.
            scan-set (λ x. x.chan ==ℤ k) (capable ch i) (λ d. rw (capable_same ch i d).0 refl)
              ch.chan i c (visited ch) 0 e,
        refl,
        length-set ch.chan i (capable ch i c),
      )
]

-- Checking all the channels of a table, as the initialisation does, changes no look-up by frequency or
-- by channel number, and neither the number of channels nor the size of the table.
pub check_all-SameLookups : (n i : ℕ) (ch : Channels) → SameLookups ch (check_all n i ch)
unfolding check_all
check_all-SameLookups zero i ch = (λ f. refl, λ c. refl, refl, refl)
check_all-SameLookups (suc n) i ch =
    let one = check_capab-SameLookups ch i in
    let more = check_all-SameLookups n (suc i) (check_capab ch i) in
    (λ f. more.0 f ∙ one.0 f, λ c. more.1 c ∙ one.1 c, more.2 ∙ one.2, more.3 ∙ one.3)

check_capab_bands : (ch : Channels) (i : ℕ) → (check_capab ch i).num_bands ≡ ch.num_bands
check_capab_bands ch i = elim (Option-cases (get_elem? ch.chan i)) [
  | inl e ↦ rw e refl
  | inr (c, e) ↦ rw e refl
]

-- The number of bands stays.
pub check_all_bands : (n i : ℕ) (ch : Channels) → (check_all n i ch).num_bands ≡ ch.num_bands
unfolding check_all
check_all_bands zero i ch = refl
check_all_bands (suc n) i ch = check_all_bands n (suc i) (check_capab ch i) ∙ check_capab_bands ch i
