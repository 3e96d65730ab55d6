-- ===== src/Channel/Change/Outcome.antt =====
-- What the changes of channel of core/channel.c leave in the interface, on success and on failure.
use libuwifi.Base.{
  ℕ, suc, zero, ◌≡◌, refl, ◌∙◌, ◌⊎◌, inl, inr, Bool, true, false, ◌&&◌, not, Option, some, ◌>>=◌,
  >>=-eq-some, if◌then◌else◌, Bool-cases, ℤ, pos, minus_one, ◌==ℤ◌, ltb, ltb_ℤ, ◌==◌,
}
use libuwifi.Channel.Types.{Interface, ChanSpec}
use libuwifi.Channel.Table.{idx_from_freq, idx_from_chan, get_chan}
use libuwifi.Channel.Change.{
  Platform, channel_change, is_20mhz, get_next, step_from, from_min, is_set, change_loop,
  auto_change, after_loop, remaining_dwell_time, max_tries, empty_spec,
}

-- The interface is tuned: its channel index is that of its channel's frequency.
abbrev pub IsTuned : Interface → Type 0
IsTuned intf = intf.channel_idx ≡ idx_from_freq intf.channels intf.channel.freq

-- The interfaces have the same channel, index, maximum rate, table of channels and scan settings.
pub record SameChannel (a b : Interface) : Type 0 where
  pub same_channel : b.channel ≡ a.channel
  pub same_idx : b.channel_idx ≡ a.channel_idx
  pub same_rate : b.max_phy_rate ≡ a.max_phy_rate
  pub same_table : b.channels ≡ a.channels

module _ {W : Type 0} (platform : Platform W) where
  -- What is left behind a change to `spec`.
  abbrev pub Changed : Interface → ChanSpec → Bool × Interface × W → Type 0
  Changed intf spec (true, new, w) =
      (new.channel ≡ spec)
      × IsTuned new
      × (new.channels ≡ intf.channels)
      × (((spec.center_freq == 0) && not (is_20mhz spec.width)) ≡ false)
      × (new.channel_min ≡ intf.channel_min)
      × (new.channel_max ≡ intf.channel_max)
  Changed intf spec (false, new, w) = new ≡ intf

  -- A change that fails leaves the interface as it was. One that succeeds stores the channel asked
  -- for, with the index of its frequency, in the same table of channels, with the same bounds; and
  -- only a channel of 20 MHz is accepted without a centre frequency.
  pub channel_change-Changed :
      (intf : Interface) (spec : ChanSpec) (w : W)
      → Changed intf spec (channel_change platform intf spec w)
  unfolding channel_change
  channel_change-Changed intf spec w =
      let (time, w1) = platform.time_usec w in
      let ok =
        (platform.iwset_freq spec.freq spec.width spec.center_freq (platform.time_usec w).1).0 in
      elim (Bool-cases ((spec.center_freq == 0) && not (is_20mhz spec.width))) [
        | inl e ↦ rw e refl
        | inr e ↦ elim (Bool-cases ok) [
          | inl a ↦ rw (e, a) (refl, refl, refl, e, refl, refl)
          | inr a ↦ rw (e, a) refl
        ]
      ]

-- Of the interface, the choice of the next channel changes at most the lower bound.
from_min-SameChannel : (intf : Interface) → SameChannel intf (from_min intf).0
unfolding from_min
from_min-SameChannel intf =
    elim (Bool-cases (
      is_set intf.channel_min
      && ltb_ℤ (get_chan intf.channels intf.channel_idx) intf.channel_min)) [
        | inr e ↦
            rw e
              (record { same_channel = refl; same_idx = refl; same_rate = refl; same_table = refl })
        | inl e ↦ elim (Bool-cases (ltb_ℤ (idx_from_chan intf.channels intf.channel_min) (pos 0))) [
          | inl f ↦
              rw (e, f)
                (record {
                  same_channel = refl;
                  same_idx = refl;
                  same_rate = refl;
                  same_table = refl;
                })
          | inr f ↦
              rw (e, f)
                (record {
                  same_channel = refl;
                  same_idx = refl;
                  same_rate = refl;
                  same_table = refl;
                })
        ]
      ]

pub get_next-SameChannel :
    (intf : Interface) (spec : ChanSpec) (r : Interface × ChanSpec)
    → get_next intf spec ≡ some r
    → SameChannel intf r.0
unfolding get_next
get_next-SameChannel intf spec r e =
    let (checked, idx, plus) = from_min intf in
    let (s, _, q) = >>=-eq-some (step_from checked idx plus spec) (λ s. some (checked, s)) e in
    let p : (checked, s) ≡ r = cc in rw (← p) (from_min-SameChannel intf)

-- Three guards in front of a result.
guard_cases :
    {A : Type 0} (a b c : Bool) (x y : A) (m : Option A) (r : A)
    → (if a then some x else if b then some x else if c then some y else m) ≡ some r
    → ((r ≡ x) ⊎ (r ≡ y)) ⊎ (m ≡ some r)
guard_cases true b c x y m r e = inl (inl cc)
guard_cases false true c x y m r e = inl (inl cc)
guard_cases false false true x y m r e = inl (inr cc)
guard_cases false false false x y m r e = inr e

-- What a number of attempts leaves behind.
module _ {W : Type 0} (platform : Platform W) where
  abbrev pub Attempted : Interface → Bool × Interface × W → Type 0
  Attempted intf (true, new, w) = IsTuned new × (new.channels ≡ intf.channels)
  Attempted intf (false, new, w) = SameChannel intf new

  Attempted-SameChannel :
      (a b : Interface) (r : Bool × Interface × W) → SameChannel a b → Attempted b r → Attempted a r
  Attempted-SameChannel a b (true, new, w) s (tuned, same) = (tuned, same ∙ s.same_table)
  Attempted-SameChannel a b (false, new, w) s t = record {
    same_channel = t.same_channel ∙ s.same_channel;
    same_idx = t.same_idx ∙ s.same_idx;
    same_rate = t.same_rate ∙ s.same_rate;
    same_table = t.same_table ∙ s.same_table;
  }

  attempt_cases :
      (intf new : Interface) (spec : ChanSpec) (rest : Option (Bool × Interface × W)) (ok : Bool)
      (w : W) (r : Bool × Interface × W)
      → Changed platform intf spec (ok, new, w)
      → (if ok then some (true, new, w) else rest) ≡ some r
      → (rest ≡ some r → Attempted new r)
      → Attempted intf r
  attempt_cases intf new spec rest true w r (c, tuned, same, _, _, _) e h =
      let p : (true, new, w) ≡ r = cc in rw (← p) (tuned, same)
  attempt_cases intf new spec rest false w r c e h = rw (← c) (h e)

  abbrev one_round : ℕ → W → Interface × ChanSpec → Option (Bool × Interface × W)
  one_round rounds w (intf, spec) =
      let (ok, new, w1) = channel_change platform intf spec w in
      if ok then some (true, new, w1) else change_loop platform rounds new spec w1

  change_loop-Attempted :
      (rounds : ℕ) (intf : Interface) (spec : ChanSpec) (w : W) (r : Bool × Interface × W)
      → change_loop platform rounds intf spec w ≡ some r
      → Attempted intf r
  unfolding change_loop
  change_loop-Attempted zero intf spec w r e =
      let p : (false, intf, w) ≡ r = cc in
      rw (← p)
        (record { same_channel = refl; same_idx = refl; same_rate = refl; same_table = refl })
  change_loop-Attempted (suc rounds) intf spec w r e =
      let ((intf1, spec1), g, q) = >>=-eq-some (get_next intf spec) (one_round rounds w) e in
      let (ok, new, w1) = channel_change platform intf1 spec1 w in
      Attempted-SameChannel intf intf1 r (get_next-SameChannel intf spec (intf1, spec1) g) (
        attempt_cases intf1 new spec1 (change_loop platform rounds new spec1 w1) ok w1 r
          (channel_change-Changed platform intf1 spec1 w) q
          (change_loop-Attempted rounds new spec1 w1 r))

  -- The three ways in which uwifi_channel_auto_change ends.
  abbrev pub Ended : Interface → ℤ × Interface × W → Type 0
  Ended intf r =
      ((r.0 ≡ pos 0) × (r.1 ≡ intf))
      ⊎ (((r.0 ≡ pos 1) × IsTuned r.1 × (r.1.channels ≡ intf.channels))
          ⊎ ((r.0 ≡ minus_one) × SameChannel intf r.1))

  after_loop-Ended :
      (intf : Interface) (r : Bool × Interface × W)
      → Attempted intf r
      → Ended intf (after_loop platform r)
  after_loop-Ended intf (true, new, w) a = inr (inl (refl, a.0, a.1))
  after_loop-Ended intf (false, new, w) a = inr (
      inr (
        refl,
        record {
          same_channel = a.same_channel;
          same_idx = a.same_idx;
          same_rate = a.same_rate;
          same_table = a.same_table;
        },
      ))

  -- Where an automatic change ends without a fault, it returns 0 and has left the interface as it was,
  -- or it returns 1 and the channel index is that of the new channel's frequency in the same table of
  -- channels, or it returns -1 and the channel, its index, the maximum rate and the table are the old
  -- ones.
  pub auto_change-Ended :
      (intf : Interface) (w : W) (r : ℤ × Interface × W)
      → auto_change platform intf w ≡ some r
      → Ended intf r
  unfolding auto_change
  auto_change-Ended intf w r e =
      let (dwell, w1) = remaining_dwell_time platform intf w in
      let loop = change_loop platform (max_tries platform intf) intf (empty_spec platform) w1 in
      elim (guard_cases (not intf.channel_scan) (intf.channel_idx ==ℤ minus_one) (ltb 0 dwell)
        (pos 0, intf, w) (pos 0, intf, w1) (loop >>= λ l. some (after_loop platform l)) r e) [
          | inl (inl p) ↦ rw p (inl (refl, refl))
          | inl (inr p) ↦ rw p (inl (refl, refl))
          | inr q ↦
              let (l, g, h) = >>=-eq-some loop (λ l. some (after_loop platform l)) q in
              let p : after_loop platform l ≡ r = cc in
              rw (← p) (
                after_loop-Ended intf l (
                  change_loop-Attempted (max_tries platform intf) intf (empty_spec platform) w1 l
                    g))
        ]
