-- ===== src/Channel/Change/Init.antt =====
-- uwifi_channel_init of core/channel.c: when the current channel is read inside the table.
use libuwifi.Base.{
  ℕ, Option, if◌then◌else◌, ◌<◌, ◌≡◌, ◌≢◌, ◌∙◌, ◌⊎◌, inl, inr, Bool, false, ◌||◌, none, minus_one,
  get_elem?_lt, length, ltb, ◌==◌, arith, pos, sym, ap, Succeeds, succeeds, if-Succeeds,
  bind-Succeeds, refl,
}
use libuwifi.Channel.Types.{Interface, Channels, max_channels}
use libuwifi.Channel.Table.{idx_from_freq, visited}
use libuwifi.Channel.Table.Scan.{idx_from_freq-Found}
use libuwifi.Channel.Width.{check_all}
use libuwifi.Channel.Width.Stable.{check_all-SameLookups, check_all_bands}
use libuwifi.Channel.Change.{Platform, channel_init, adopt, listed, chan_at}

-- The frequency is that of a channel of a table of MAX_CHANNELS elements.
abbrev pub Has : Channels → ℕ → Type 0
Has ch f = (length ch.chan ≡ max_channels) × (idx_from_freq ch f ≢ minus_one)

-- A channel is configured, or no channel is set, or the current one is in the table.
abbrev pub Known : Interface → Type 0
Known intf =
    (0 < intf.channel_set.freq) ⊎ (intf.channel.freq ≡ 0) ⊎ Has intf.channels intf.channel.freq

checked : Interface → Channels
checked intf = check_all (visited intf.channels) 0 intf.channels

check_all-Has : (ch : Channels) (f n : ℕ) → Has ch f → Has (check_all n 0 ch) f
check_all-Has ch f n (size, found) =
    let same = check_all-SameLookups n 0 ch in (same.3 ∙ size, λ e. found (sym (same.0 f) ∙ e))

chan_at-Succeeds :
    (intf : Interface)
    → Has intf.channels intf.channel.freq
    → Succeeds (chan_at intf (idx_from_freq intf.channels intf.channel.freq))
chan_at-Succeeds intf (size, found) = elim (idx_from_freq-Found intf.channels intf.channel.freq) [
  | inl (k, r, (lt, _, _)) ↦
      let (c, at) = get_elem?_lt intf.channels.chan k (ground arith) in
      let index : idx_from_freq intf.channels intf.channel.freq ≡ pos k =
        r ∙ ap pos (omega arith) in
      record { result = c; runs = rw index at }
  | inr (r, _) ↦ absurd (found r)
]

-- Behind three guards that are false.
fall_through :
    {A : Type 0} (a b c : Bool) (x y z m : Option A)
    → a ≡ false
    → b ≡ false
    → c ≡ false
    → m ≡ none
    → (if a then x else if b then y else if c then z else m) ≡ none
fall_through a b c x y z m p q r e = rw (p, q, r) e

-- The interface behind the listing of the channels.
abbrev pub got : {W : Type 0} → Platform W → Interface → W → Interface
got platform intf w = (platform.iwget_freqlist intf w).0

module _ {W : Type 0} (platform : Platform W) where
  adopt-Succeeds :
      (intf : Interface) (w : W)
      → Has intf.channels intf.channel.freq
      → Succeeds (adopt platform intf w)
  unfolding adopt
  adopt-Succeeds intf w has = bind-Succeeds (chan_at-Succeeds intf has) (λ ch e. succeeds)

  -- Where iwget_freqlist gives an interface whose current channel is known, uwifi_channel_init meets no fault.
  pub channel_init-Succeeds :
      (intf : Interface) (w : W)
      → Known (got platform intf w)
      → Succeeds (channel_init platform intf w)
  unfolding channel_init
  channel_init-Succeeds intf w known =
      let (new, w1) = listed platform intf w in
      let n = visited (platform.iwget_freqlist intf w).0.channels in
      if-Succeeds ((new.channels.num_bands == 0) || (new.channels.num_channels == 0))
        (λ e. succeeds)
        (λ e.
          if-Succeeds (ltb 0 new.channel_set.freq) (λ e. succeeds)
            (λ unset.
              if-Succeeds (new.channel.freq == 0) (λ e. succeeds)
                (λ set. adopt-Succeeds new w1 (elim known [
                  | inl p ↦ absurd (ground arith)
                  | inr (inl p) ↦ absurd (ground arith)
                  | inr (inr p) ↦ check_all-Has _ _ n p
                ]))))

  -- Where the listing gives channels and bands, no channel is configured, and the current frequency
  -- is set but not in the table, uwifi_channel_init reads the table at index -1.
  pub channel_init-absent :
      (intf : Interface) (w : W)
      → (0 < (got platform intf w).channels.num_bands)
      → (0 < (got platform intf w).channels.num_channels)
      → (got platform intf w).channel_set.freq ≡ 0
      → 0 < (got platform intf w).channel.freq
      → idx_from_freq (got platform intf w).channels (got platform intf w).channel.freq ≡ minus_one
      → channel_init platform intf w ≡ none
  unfolding channel_init adopt
  channel_init-absent intf w bands channels unset current absent =
      let got_it = got platform intf w in
      let n = visited got_it.channels in
      let same = check_all-SameLookups n 0 got_it.channels in
      let index = same.0 got_it.channel.freq ∙ absent in
      let (new, w1) = listed platform intf w in
      let none_there : chan_at new (idx_from_freq new.channels new.channel.freq) ≡ none =
        rw index refl in
      let filled : ((new.channels.num_bands == 0) || (new.channels.num_channels == 0)) ≡ false =
        ground (arith, check_all_bands n 0 got_it.channels, same.2) in
      let not_set : ltb 0 new.channel_set.freq ≡ false = ground arith in
      let tuned : (new.channel.freq == 0) ≡ false = ground arith in
      fall_through _ _ _ _ _ _ _ filled not_set tuned (rw none_there refl)
