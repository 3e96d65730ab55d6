-- ===== src/Channel/Change/Sweep.antt =====
-- Successful changes to the next channel (core/channel.c), one behind the other, visit the whole table.
use libuwifi.Base.{
  ℕ, suc, zero, ◌+◌, ◌%◌, ◌<◌, ◌≡◌, refl, sym, ◌∙◌, ap, subst, inl, inr, true, false, not, some,
  pos, get_elem?, arith,
}
use native.Mathlib.Nat.{mod-add-mod, mod-eq_of_lt}
use libuwifi.Channel.Types.{Interface, ChanSpec, ChanFreq, Channels, IsValid}
use libuwifi.Channel.Table.{idx_from_freq, visited}
use libuwifi.Channel.Table.Scan.{idx_from_freq-Found}
use libuwifi.Channel.Width.{is_w40}
use libuwifi.Channel.Change.{Platform, channel_change, get_next, target}
use libuwifi.Channel.Change.Outcome.{channel_change-Changed, Changed}
use libuwifi.Channel.Change.Next.{IsOn, following, get_next-following, mod_below}

-- The channel `c` stands at index `k` of the table.
abbrev pub Holds : Channels → ℕ → ChanFreq → Type 0
Holds ch k c = (k < ch.num_channels) × (get_elem? ch.chan k ≡ some c)

-- No two channels of the table share their frequency.
abbrev pub IsDistinct : Channels → Type 0
IsDistinct ch = (j k : ℕ) (c d : ChanFreq) → Holds ch j c → Holds ch k d → c.freq ≡ d.freq → j ≡ k

-- No channel of the table is 40 MHz wide, so that each is visited once.
abbrev pub IsNarrow : Channels → Type 0
IsNarrow ch = (k : ℕ) (c : ChanFreq) → Holds ch k c → is_w40 c.max_width ≡ false

idx_from_freq-Holds :
    (ch : Channels) (k : ℕ) (c : ChanFreq)
    → IsValid ch
    → IsDistinct ch
    → Holds ch k c
    → idx_from_freq ch c.freq ≡ pos k
idx_from_freq-Holds ch k c v distinct h =
    let count : visited ch ≡ ch.num_channels = ground arith in
    elim (idx_from_freq-Found ch c.freq) [
      | inl (j, r, (lt, (d, at, same), _)) ↦
          let f : d.freq ≡ c.freq = ground arith in
          let q : j ≡ k = distinct j k d c (omega arith, at) h f in rw r (ap pos (omega arith))
      | inr (r, absent) ↦ absurd (ground (arith, absent k c (omega arith) h.1))
    ]

-- The interface stands on channel `i` of such a table, on a channel that is not 40 MHz wide, without
-- bounds.
pub record IsSweep (intf : Interface) (i : ℕ) : Type 0 where
  pub on : IsOn intf i
  pub no_min : intf.channel_min ≡ pos 0
  pub no_max : intf.channel_max ≡ pos 0
  pub narrow : is_w40 intf.channel.width ≡ false
  pub all_narrow : IsNarrow intf.channels
  pub distinct : IsDistinct intf.channels

module _ {W : Type 0} (platform : Platform W) where
  advance :
      (intf mid new : Interface) (i : ℕ) (spec s : ChanSpec) (w w1 : W)
      → IsSweep intf i
      → get_next intf spec ≡ some (mid, s)
      → channel_change platform mid s w ≡ (true, new, w1)
      → IsSweep new ((i + 1) % intf.channels.num_channels) × (new.channels ≡ intf.channels)
  advance intf mid new i spec s w w1 sweep e1 e2 =
      let (c, at, g) =
        get_next-following intf i spec sweep.on sweep.no_min sweep.no_max sweep.narrow in
      let m : mid ≡ intf = cc in
      let t : s ≡ target spec c (not c.ht40minus) = cc in
      let (is_s, tuned, table, _, min_same, max_same) =
        subst (Changed platform mid s) e2 (channel_change-Changed platform mid s w) in
      let same : new.channels ≡ intf.channels = table ∙ ap (λ x. x.channels) m in
      let below = mod_below (i + 1) intf.channels.num_channels (omega (arith, sweep.on.2)) in
      let holds : Holds intf.channels (following intf i) c = (below, at) in
      let freq : new.channel.freq ≡ c.freq = ap (λ x. x.freq) (is_s ∙ t) in
      let width : new.channel.width ≡ c.max_width = ap (λ x. x.width) (is_s ∙ t) in
      let idx : new.channel_idx ≡ pos (following intf i) =
        tuned
        ∙ ap (λ x. idx_from_freq x new.channel.freq) same
        ∙ ap (idx_from_freq intf.channels) freq
        ∙ idx_from_freq-Holds intf.channels (following intf i) c sweep.on.0 sweep.distinct holds in
      (
        record {
          on = (
            subst IsValid (sym same) sweep.on.0,
            idx,
            subst (λ x. following intf i < x.num_channels) (sym same) below,
          );
          no_min = min_same ∙ ap (λ x. x.channel_min) m ∙ sweep.no_min;
          no_max = max_same ∙ ap (λ x. x.channel_max) m ∙ sweep.no_max;
          narrow = ap is_w40 width ∙ sweep.all_narrow (following intf i) c holds;
          all_narrow = subst IsNarrow (sym same) sweep.all_narrow;
          distinct = subst IsDistinct (sym same) sweep.distinct;
        },
        same,
      )

  -- A number of successful changes, each to the channel that is chosen next, from one interface to another.
  pub data Changes : ℕ → Interface → Interface → Type 0 where
    done : {a : Interface} → Changes 0 a a
    next :
        {n : ℕ} {a b c : Interface} (mid : Interface) (spec s : ChanSpec) (w w1 : W)
        → Changes n a b
        → get_next b spec ≡ some (mid, s)
        → channel_change platform mid s w ≡ (true, c, w1)
        → Changes (suc n) a c

  -- Where no channel of the table is 40 MHz wide, the frequencies are distinct and no bounds are set,
  -- `n` successful changes lead from channel `i` to the channel `n` places behind it, around the
  -- table: as many changes as there are channels visit all of them and come back.
  pub Changes-IsSweep :
      (n i : ℕ) (a b : Interface)
      → IsSweep a i
      → Changes n a b
      → IsSweep b ((i + n) % a.channels.num_channels) × (b.channels ≡ a.channels)
  Changes-IsSweep zero i a _ sweep done =
      let q : (i + 0) % a.channels.num_channels ≡ i =
        ap (λ x. x % a.channels.num_channels) (omega arith) ∙ mod-eq_of_lt sweep.on.2 in
      rw q (sweep, refl)
  Changes-IsSweep (suc n) i a c sweep (next {b = b} mid spec s w w1 steps e1 e2) =
      let (at_b, same) = Changes-IsSweep n i a b sweep steps in
      let (at_c, kept) = advance b mid c _ spec s w w1 at_b e1 e2 in
      let count = ap (λ x. x.num_channels) same in
      let q : ((i + n) % a.channels.num_channels + 1) % b.channels.num_channels
          ≡ (i + suc n) % a.channels.num_channels =
        ap (λ x. ((i + n) % a.channels.num_channels + 1) % x) count
        ∙ mod-add-mod (i + n) a.channels.num_channels 1
        ∙ ap (λ x. x % a.channels.num_channels) (omega arith) in
      (subst (IsSweep c) q at_c, kept ∙ same)
