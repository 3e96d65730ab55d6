-- ===== src/Channel/Change/Next.antt =====
-- Which channel uwifi_channel_get_next of core/channel.c chooses.
use libuwifi.Base.{
  ℕ, ◌+◌, ◌%◌, ◌<◌, ◌≡◌, refl, sym, ◌∙◌, ap, subst, Option-cases, inl, inr, Bool, false, ◌&&◌, not,
  Option, none, some, >>=-eq-some, Bool-cases, ℤ, pos, ◌+ℤ◌, leb, get_elem?, get_elem?_lt, length,
  arith,
}
use native.Mathlib.Nat
use native.Mathlib.Nat.{mod-eq_of_lt, mod-lt}
use libuwifi.Wlan.Types.{ChanWidth}
use libuwifi.Channel.Types.{Interface, ChanSpec, ChanFreq, IsValid}
use libuwifi.Channel.Width.{is_ht40plus, is_w40}
use libuwifi.Channel.Change.{
  Platform, channel_change, get_next, step_from, from_min, next_idx, target, chan_at,
}
use libuwifi.Channel.Change.Outcome.{channel_change-Changed, Changed}

-- The interface is on channel `i` of a valid table.
abbrev pub IsOn : Interface → ℕ → Type 0
IsOn intf i = IsValid intf.channels × (intf.channel_idx ≡ pos i) × (i < intf.channels.num_channels)

from_min-unset :
    (intf : Interface)
    → intf.channel_min ≡ pos 0
    → from_min intf ≡ (intf, intf.channel_idx, is_ht40plus intf.channel)
unfolding from_min
from_min-unset intf e = rw e refl

pub pos-add : (i j : ℕ) → pos i +ℤ pos j ≡ pos (i + j)
unfolding ◌+ℤ◌
pos-add i j = ground arith

pub mod_below : (i n : ℕ) → 0 < n → i % n < n
mod_below i n h = mod-lt i h

mod_self : (i n : ℕ) → i ≡ n → 0 < n → i % n ≡ 0
mod_self i n e h = rw e (Nat.mod_self n)

-- Without bounds, the index behind `i` is the next one modulo the number of channels.
pub next_idx-unset :
    (intf : Interface) (i : ℕ)
    → IsOn intf i
    → intf.channel_min ≡ pos 0
    → intf.channel_max ≡ pos 0
    → next_idx intf (pos i) ≡ pos ((i + 1) % intf.channels.num_channels)
unfolding next_idx
next_idx-unset intf i on emin emax = elim (Bool-cases (leb intf.channels.num_channels (i + 1))) [
  | inl e ↦
      rw
        (
          emin,
          emax,
          pos-add i 1,
          mod_self (i + 1) intf.channels.num_channels (ground arith) (omega arith),
        )
        (ground arith)
  | inr e ↦
      let below : i + 1 < intf.channels.num_channels = ground arith in
      rw (emin, emax, pos-add i 1, mod-eq_of_lt below) (ground arith)
]

-- The index of the element in the table that the loop goes on with.
abbrev pub following : Interface → ℕ → ℕ
following intf i = (i + 1) % intf.channels.num_channels

-- On a channel that is not 40 MHz wide, without bounds, the next channel is that behind the current
-- one in the table, and behind the last one the first; its width is the widest of that channel.
-- Nothing is read outside the table and the interface stays.
pub get_next-following :
    (intf : Interface) (i : ℕ) (spec : ChanSpec)
    → IsOn intf i
    → intf.channel_min ≡ pos 0
    → intf.channel_max ≡ pos 0
    → is_w40 intf.channel.width ≡ false
    → (c : ChanFreq) × (get_elem? intf.channels.chan (following intf i) ≡ some c)
      × (get_next intf spec ≡ some (intf, target spec c (not c.ht40minus)))
unfolding get_next step_from next_idx mod_below
get_next-following intf i spec on emin emax narrow =
    let below : i < length intf.channels.chan = omega arith in
    let m = mod_below (i + 1) intf.channels.num_channels (omega arith) in
    let (c, at) = get_elem?_lt intf.channels.chan (following intf i) (omega arith) in
    let (d, here) = get_elem?_lt intf.channels.chan i below in
    (
      c,
      at,
      rw (from_min-unset intf emin, on.1, here, narrow, next_idx-unset intf i on emin emax, at)
          refl,
    )

-- The frequency and the width of a chosen channel.
abbrev choice : Option ChanSpec → Option (ℕ × ChanWidth)
choice none = none
choice (some s) = some (s.freq, s.width)

step_from-choice :
    (intf : Interface) (idx : ℤ) (plus : Bool) (a b : ChanSpec)
    → choice (step_from intf idx plus a) ≡ choice (step_from intf idx plus b)
unfolding step_from
step_from-choice intf idx plus a b = elim (Option-cases (chan_at intf idx)) [
  | inl e ↦ rw e refl
  | inr (c, e) ↦ elim (Bool-cases (is_w40 intf.channel.width && (not plus && c.ht40plus))) [
    | inl t ↦ rw (e, t) refl
    | inr t ↦ elim (Option-cases (chan_at intf (next_idx intf idx))) [
      | inl f ↦ rw (e, t, f) refl
      | inr (d, f) ↦ rw (e, t, f) refl
    ]
  ]
]

get_next-step :
    (intf : Interface) (spec s : ChanSpec) (new : Interface)
    → get_next intf spec ≡ some (new, s)
    → step_from (from_min intf).0 (from_min intf).1 (from_min intf).2 spec ≡ some s
unfolding get_next
get_next-step intf spec s new e =
    let (checked, idx, plus) = from_min intf in
    let (t, g, q) = >>=-eq-some (step_from checked idx plus spec) (λ s. some (checked, s)) e in
    let p : t ≡ s = cc in rw g (ap some p)

-- After a failed change the same channel is chosen again, in the same width: the choice is made from
-- the interface, which a failed change leaves as it was.
pub get_next-retry :
    {W : Type 0} (platform : Platform W) (intf new last : Interface) (spec first second : ChanSpec)
    (w w1 : W)
    → get_next intf spec ≡ some (intf, first)
    → channel_change platform intf first w ≡ (false, new, w1)
    → get_next new first ≡ some (last, second)
    → (second.freq ≡ first.freq) × (second.width ≡ first.width)
get_next-retry platform intf new last spec first second w w1 e1 failed e2 =
    let same : new ≡ intf =
      subst (Changed platform intf first) failed (channel_change-Changed platform intf first w) in
    let s1 = get_next-step intf spec first intf e1 in
    let s2 =
      get_next-step intf first second last
        (subst (λ i. get_next i first ≡ some (last, second)) same e2) in
    let (checked, idx, plus) = from_min intf in
    let q : choice (some first) ≡ choice (some second) =
      ap choice (sym s1) ∙ step_from-choice checked idx plus spec first ∙ ap choice s2 in
    (cc, cc)
