-- ===== src/Channel/Change/Total.antt =====
-- uwifi_channel_auto_change of core/channel.c ends without a read outside the table.
use libuwifi.Base.{
  ℕ, suc, zero, ◌+◌, ◌≤◌, ◌<◌, ◌≡◌, ◌≢◌, refl, sym, ◌∙◌, ap, subst, ◌⊎◌, inl, inr, Bool, true,
  false, ◌&&◌, ◌||◌, not, Option, some, ◌>>=◌, if◌then◌else◌, ℤ, pos, minus_one, ◌==ℤ◌, ltb_ℤ,
  leb_ℤ, ltb, get_elem?_lt, length, Bool-cases, arith,
}
use libuwifi.Channel.Types.{Interface, ChanSpec, Channels, IsValid, max_channels}
use libuwifi.Channel.Table.{idx_from_chan, visited, get_chan}
use libuwifi.Channel.Table.Scan.{idx_from_chan-Found}
use libuwifi.Channel.Width.{is_w40}
use libuwifi.Channel.Change.{
  Platform, channel_change, get_next, step_from, from_min, next_idx, is_set, chan_at, target,
  change_loop, auto_change, remaining_dwell_time, after_loop, max_tries, empty_spec,
}
use libuwifi.Channel.Change.Outcome.{channel_change-Changed, Changed}
use libuwifi.Channel.Change.Next.{IsOn, pos-add}

-- The index stands for an element of the array of a valid table.
abbrev IsIndex : ℤ → Type 0
IsIndex x = (k : ℕ) × (x ≡ pos k) × (k < max_channels)

-- The lower bound is not set, or it is the number of a channel of the table.
abbrev pub HasMin : Interface → Type 0
HasMin intf =
    (intf.channel_min ≡ pos 0) ⊎ (idx_from_chan intf.channels intf.channel_min ≢ minus_one)

idx_from_chan-IsIndex :
    (ch : Channels) (c : ℤ)
    → IsValid ch
    → idx_from_chan ch c ≢ minus_one
    → IsIndex (idx_from_chan ch c)
idx_from_chan-IsIndex ch c v h = elim (idx_from_chan-Found ch c) [
  | inl (k, r, (lt, _, _)) ↦
      let below : visited ch ≤ max_channels = ground arith in
      (k, r ∙ ap pos (omega arith), omega arith)
  | inr (r, _) ↦ absurd (h r)
]

nonnegative : (k : ℕ) → ltb_ℤ (pos k) (pos 0) ≡ false
nonnegative k = ground arith

from_min-IsIndex :
    (intf : Interface) (i : ℕ)
    → IsOn intf i
    → HasMin intf
    → ((from_min intf).0 ≡ intf) × IsIndex (from_min intf).1
unfolding from_min
from_min-IsIndex intf i on (inl e) = rw (e, on.1) (refl, (i, refl, omega arith))
from_min-IsIndex intf i on (inr h) =
    let (k, e, lt) = idx_from_chan-IsIndex intf.channels intf.channel_min on.0 h in
    elim (Bool-cases (
      is_set intf.channel_min
      && ltb_ℤ (get_chan intf.channels intf.channel_idx) intf.channel_min)) [
        | inl t ↦ rw (t, e, nonnegative k) (refl, (k, refl, lt))
        | inr t ↦ rw t (refl, (i, on.1, omega arith))
      ]

-- The condition to wrap around.
abbrev wraps : Interface → ℤ → Bool
wraps intf next =
    leb_ℤ (pos intf.channels.num_channels) next
    || leb_ℤ (pos max_channels) next
    || (is_set intf.channel_max && ltb_ℤ intf.channel_max (get_chan intf.channels next))

next_idx-IsIndex :
    (intf : Interface) (i k : ℕ)
    → IsOn intf i
    → HasMin intf
    → k < max_channels
    → IsIndex (next_idx intf (pos k))
unfolding next_idx
next_idx-IsIndex intf i k on m lt = elim (Bool-cases (wraps intf (pos (k + 1)))) [
  | inr t ↦
      let below : k + 1 < max_channels = ground arith in rw (pos-add k 1, t) (k + 1, refl, below)
  | inl t ↦ elim m [
    | inl e ↦ rw (pos-add k 1, t, e) (0, refl, omega arith)
    | inr h ↦
        let (l, e, below) = idx_from_chan-IsIndex intf.channels intf.channel_min on.0 h in
        elim (Bool-cases (is_set intf.channel_min)) [
          | inl q ↦ rw (pos-add k 1, t, q) (l, e, below)
          | inr q ↦ rw (pos-add k 1, t, q) (0, refl, omega arith)
        ]
  ]
]

step_from-total :
    (intf : Interface) (idx : ℤ) (plus : Bool) (spec : ChanSpec)
    → length intf.channels.chan ≡ max_channels
    → IsIndex idx
    → IsIndex (next_idx intf idx)
    → (s : ChanSpec) × (step_from intf idx plus spec ≡ some s)
unfolding step_from
step_from-total intf idx plus spec size (k, e, lt) (l, f, below) =
    let (c, at) = get_elem?_lt intf.channels.chan k (omega arith) in
    let (d, there) = get_elem?_lt intf.channels.chan l (omega arith) in
    let here : chan_at intf idx ≡ some c = rw e at in
    let other : chan_at intf (next_idx intf idx) ≡ some d = rw f there in
    elim (Bool-cases (is_w40 intf.channel.width && (not plus && c.ht40plus))) [
      | inl t ↦ (target spec c true, rw (here, t) refl)
      | inr t ↦ (target spec d (not d.ht40minus), rw (here, t, other) refl)
    ]

-- The next channel can be chosen, and the interface stays.
pub get_next-total :
    (intf : Interface) (i : ℕ) (spec : ChanSpec)
    → IsOn intf i
    → HasMin intf
    → (s : ChanSpec) × (get_next intf spec ≡ some (intf, s))
unfolding get_next
get_next-total intf i spec on m =
    let (same, (k, e, lt)) = from_min-IsIndex intf i on m in
    let (checked, idx, plus) = from_min intf in
    let next : IsIndex (next_idx intf idx) =
      subst (λ x. IsIndex (next_idx intf x)) (sym e) (next_idx-IsIndex intf i k on m lt) in
    let (s, q) = step_from-total intf idx plus spec on.0.0 (k, e, lt) next in
    let r : step_from checked idx plus spec ≡ some s =
      ap (λ x. step_from x idx plus spec) same ∙ q in
    (s, rw r (ap (λ x. some (x, s)) same))

-- A result stands behind each of three guards and behind none.
guarded :
    {A : Type 0} (a b c : Bool) (x y : A) (m : Option A) (z : A)
    → m ≡ some z
    → (r : A) × ((if a then some x else if b then some x else if c then some y else m) ≡ some r)
guarded true b c x y m z e = (x, refl)
guarded false true c x y m z e = (x, refl)
guarded false false true x y m z e = (y, refl)
guarded false false false x y m z e = (z, e)

module _ {W : Type 0} (platform : Platform W) where
  change_loop-total :
      (rounds : ℕ) (intf : Interface) (i : ℕ) (spec : ChanSpec) (w : W)
      → IsOn intf i
      → HasMin intf
      → (r : Bool × Interface × W) × (change_loop platform rounds intf spec w ≡ some r)
  unfolding change_loop
  change_loop-total zero intf i spec w on m = ((false, intf, w), refl)
  change_loop-total (suc rounds) intf i spec w on m =
      let (s, e) = get_next-total intf i spec on m in
      let (ok, new, w1) = channel_change platform intf s w in
      elim (Bool-cases ok) [
        | inl t ↦ ((true, new, w1), rw (e, t) refl)
        | inr t ↦
            let failed : channel_change platform intf s w ≡ (false, new, w1) =
              ap (λ b. (b, new, w1)) t in
            let same : new ≡ intf =
              subst (Changed platform intf s) failed (channel_change-Changed platform intf s w) in
            let (r, f) = change_loop-total rounds intf i s w1 on m in
            (r, rw (e, t) (ap (λ x. change_loop platform rounds x s w1) same ∙ f))
      ]

  -- On a channel of a valid table, with a lower bound that is unset or is in the table, an automatic
  -- change ends, whatever the platform answers, and reads nothing outside the table.
  pub auto_change-total :
      (intf : Interface) (i : ℕ) (w : W)
      → IsOn intf i
      → HasMin intf
      → (r : ℤ × Interface × W) × (auto_change platform intf w ≡ some r)
  unfolding auto_change
  auto_change-total intf i w on m =
      let (dwell, w1) = remaining_dwell_time platform intf w in
      let (l, e) =
        change_loop-total (max_tries platform intf) intf i (empty_spec platform) w1 on m in
      guarded (not intf.channel_scan) (intf.channel_idx ==ℤ minus_one) (ltb 0 dwell)
        (pos 0, intf, w) (pos 0, intf, w1)
        (change_loop platform (max_tries platform intf) intf (empty_spec platform) w1 >>= λ r.
          some (after_loop platform r))
        (after_loop platform l) (rw e refl)
