-- ===== src/Nl80211/Freqlist/Listed.antt =====
-- The table behind nl80211_get_freqlist_cb of linux/ifctrl-nl80211.c, for a device that fits into it.
use Prim.{Unit, tt}
use libuwifi.Store.{is_some, is_some-some}
use libuwifi.Base.{
  sym, ℕ, suc, ◌+◌, ◌<◌, ◌≤◌, ◌≡◌, refl, ◌∙◌, ap, pos, ◌-ℤ◌, true, Option, none, some, List, [],
  ◌∷◌, min, ◌++◌, ◌==◌, leb, length, length-append, arith, Succeeds, succeeds, if-Succeeds,
  bind-Succeeds, Bool-cases, Option-cases, inl, inr, subst,
}
use libuwifi.Wlan.Streams.Count.{ht_streams-Succeeds, vht_streams-Succeeds}
use libuwifi.Channel.Types.{Band, Channels, max_channels}
use libuwifi.Nl80211.Freqlist.{
  FreqAttrs, BandAttrs, ht_width, vht_width, ht_streams, vht_streams, read_band, usable, add_freq,
  freq_loop, count_band, get_freqlist_cb,
}
use libuwifi.Nl80211.Freqlist.Fill.{usables, add_usable, freqs_of, freq_loop_lem}

-- The frequencies of a band that are given and not disabled.
abbrev pub usables_of : Option (List FreqAttrs) → List ℕ
usables_of none = []
usables_of (some fs) = usables fs

-- The first two bands have their frequencies as an attribute.
abbrev pub HasFreqs : List BandAttrs → Type 0
HasFreqs [] = Unit {0}
HasFreqs (a ∷ []) = is_some a.freqs ≡ true
HasFreqs (a ∷ b ∷ rest) = (is_some a.freqs ≡ true) × (is_some b.freqs ≡ true)

-- The usable frequencies of the first two bands.
abbrev pub firsts : List BandAttrs → List ℕ
firsts [] = []
firsts (a ∷ []) = usables_of a.freqs
firsts (a ∷ b ∷ rest) = usables_of a.freqs ++ usables_of b.freqs

-- The bands count their usable frequencies.
abbrev pub BandSizes : List BandAttrs → Channels → Type 0
BandSizes [] ch = Unit {0}
BandSizes (a ∷ []) ch = ch.band0.num_channels ≡ pos (length (usables_of a.freqs))
BandSizes (a ∷ b ∷ rest) ch =
    (ch.band0.num_channels ≡ pos (length (usables_of a.freqs)))
    × (ch.band1.num_channels ≡ pos (length (usables_of b.freqs)))

-- The table has the usable frequencies of the first two bands, in order, and the bands count theirs.
pub record IsListed (bands : List BandAttrs) (ch : Channels) : Type 0 where
  pub size : length ch.chan ≡ 64
  pub count : ch.num_channels ≡ length (firsts bands)
  pub listed : freqs_of ch.num_channels ch.chan ≡ firsts bands
  pub band_count : ch.num_bands ≡ min 2 (length bands)
  pub sizes : BandSizes bands ch

ht_streams_runs : (o : Option (List ℕ)) (band : Band) → Succeeds (ht_streams o band)
ht_streams_runs none band = succeeds
ht_streams_runs (some mcs) band =
    if-Succeeds (length mcs == 16)
      (λ e.
        bind-Succeeds (ht_streams-Succeeds mcs band.streams_tx (ground arith)) (λ s e1. succeeds))
      (λ e. succeeds)

vht_streams_runs : (o : Option (List ℕ)) (band : Band) → Succeeds (vht_streams o band)
vht_streams_runs none band = succeeds
vht_streams_runs (some mcs) band =
    if-Succeeds (length mcs == 8)
      (λ e. bind-Succeeds (vht_streams-Succeeds mcs (ground arith)) (λ s e1. succeeds))
      (λ e. succeeds)

-- The capabilities of a band are read inside their attributes.
read_band-Succeeds : (a : BandAttrs) (band : Band) → Succeeds (read_band a band)
unfolding read_band
read_band-Succeeds a band =
    bind-Succeeds
      (ht_streams_runs a.ht_mcs_set (record band { max_chan_width = ht_width a.ht_capa }))
      λ ht e.
        vht_streams_runs a.vht_mcs_set
          (record ht { max_chan_width = vht_width a.vht_capa ht.max_chan_width })

-- What a device with more channels than the table leaves: the loop over the frequencies jumps to the end.
freq_loop_full :
    (fs : List FreqAttrs) (i : ℕ) (ch : Channels)
    → i < 64
    → 64 ≤ i + length (usables fs)
    → (ch' : Channels) × (freq_loop fs i ch ≡ (true, 64, ch'))
freq_loop_full [] i ch below many = absurd (omega arith)
freq_loop_full (f ∷ fs) i ch below many = elim (Option-cases (usable f)) [
  | inl skipped ↦
      let more : 64 ≤ i + length (usables fs) =
        subst (λ o. 64 ≤ i + length (add_usable o (usables fs))) skipped many in
      rw skipped (freq_loop_full fs i ch below more)
  | inr (freq, given) ↦
      let more : 64 ≤ i + suc (length (usables fs)) =
        subst (λ o. 64 ≤ i + length (add_usable o (usables fs))) given many in
      elim (Bool-cases (leb max_channels (suc i))) [
        | inl last ↦
            let end : suc i ≡ 64 = ground arith in
            rw given (add_freq ch freq, rw last (ap (λ j. (true, j, add_freq ch freq)) end))
        | inr room ↦
            let (ch', runs) =
              freq_loop_full fs (suc i) (add_freq ch freq) (ground arith) (omega arith) in
            rw given (ch', rw room runs)
      ]
]

-- The band with these frequencies.
abbrev with_freqs : BandAttrs → Option (List FreqAttrs) → BandAttrs
with_freqs a o = record a { freqs = o }

no_band_given :
    (a : BandAttrs) (fs : List FreqAttrs) (rest : List BandAttrs) (ch : Channels)
    → 64 ≤ length (usables fs)
    → (ch' : Channels) × (get_freqlist_cb (some (with_freqs a (some fs) ∷ rest)) ch ≡ some ch')
      × (ch'.num_channels ≡ 64)
      × (ch'.num_bands ≡ 0)
unfolding get_freqlist_cb
no_band_given a fs rest ch many =
    let read = read_band-Succeeds (with_freqs a (some fs)) ch.band0 in
    let (ch', runs) =
      freq_loop_full fs 0 (record ch { band0 = read.result }) (omega arith) (omega arith) in
    (record ch' { num_channels = 64; num_bands = 0 }, rw (read.runs, runs) refl, refl, refl)

-- If the first band has 64 usable frequencies or more, nl80211_get_freqlist_cb leaves a table of 64
-- channels without a band.
pub get_freqlist_cb-no_band :
    (a : BandAttrs) (rest : List BandAttrs) (ch : Channels)
    → 64 ≤ length (usables_of a.freqs)
    → (ch' : Channels) × (get_freqlist_cb (some (a ∷ rest)) ch ≡ some ch')
      × (ch'.num_channels ≡ 64)
      × (ch'.num_bands ≡ 0)
get_freqlist_cb-no_band a rest ch many = elim (Option-cases a.freqs) [
  | inl missing ↦
      let clash : 64 ≤ 0 = subst (λ o. 64 ≤ length (usables_of o)) missing many in
      absurd (omega arith)
  | inr (fs, given) ↦
      subst
        (λ x.
          (ch' : Channels) × (get_freqlist_cb (some (x ∷ rest)) ch ≡ some ch')
          × (ch'.num_channels ≡ 64)
          × (ch'.num_bands ≡ 0))
        (ap (with_freqs a) (sym given))
        (no_band_given a fs rest ch (subst (λ o. 64 ≤ length (usables_of o)) given many))
]

-- The counts of two bands.
rest_count : (m n : ℕ) → pos (m + n) -ℤ pos m ≡ pos n
unfolding ◌-ℤ◌
rest_count m n = ground arith

-- What is to be shown of a list of bands.
abbrev Lists : Channels → List BandAttrs → Type 0
Lists ch bands =
    (ch' : Channels) × (get_freqlist_cb (some bands) ch ≡ some ch') × IsListed bands ch'

one_listed :
    (a : BandAttrs) (fs : List FreqAttrs) (ch : Channels)
    → length ch.chan ≡ 64
    → ch.num_channels ≡ 0
    → length (usables fs) < 64
    → Lists ch (with_freqs a (some fs) ∷ [])
unfolding get_freqlist_cb
one_listed a fs ch size empty room =
    let read = read_band-Succeeds (with_freqs a (some fs)) ch.band0 in
    let (ch1, runs, filled) =
      freq_loop_lem fs 0 (record ch { band0 = read.result }) size empty (omega arith) in
    (
      record (count_band 0 (0 + length (usables fs)) ch1) {
        num_channels = 0 + length (usables fs);
        num_bands = 1;
      },
      rw (read.runs, runs) refl,
      record {
        size = filled.size;
        count = (omega arith);
        listed = filled.freqs;
        band_count = refl;
        sizes = (ap pos (omega arith));
      },
    )

two_listed :
    (a b : BandAttrs) (fs gs : List FreqAttrs) (rest : List BandAttrs) (ch : Channels)
    → length ch.chan ≡ 64
    → ch.num_channels ≡ 0
    → length (usables fs ++ usables gs) < 64
    → Lists ch (with_freqs a (some fs) ∷ with_freqs b (some gs) ∷ rest)
unfolding get_freqlist_cb
two_listed a b fs gs rest ch size empty room =
    let l1 = length (usables fs) in
    let l2 = length (usables gs) in
    let total : length (usables fs ++ usables gs) ≡ l1 + l2 =
      length-append {0} (usables fs) (usables gs) in
    let read1 = read_band-Succeeds (with_freqs a (some fs)) ch.band0 in
    let (ch1, runs1, filled1) =
      freq_loop_lem fs 0 (record ch { band0 = read1.result }) size empty (omega arith) in
    let counted1 = count_band 0 (0 + l1) ch1 in
    let read2 = read_band-Succeeds (with_freqs b (some gs)) counted1.band1 in
    let (ch2, runs2, filled2) =
      freq_loop_lem gs (0 + l1) (record counted1 { band1 = read2.result }) filled1.size
        filled1.count (omega arith) in
    let first : ch2.band0.num_channels ≡ pos l1 =
      ap (λ x. x.num_channels) filled2.band0 ∙ ap pos (omega arith) in
    (
      record (count_band 1 (0 + l1 + l2) ch2) { num_channels = 0 + l1 + l2; num_bands = 2 },
      rw (read1.runs, runs1, read2.runs, runs2) refl,
      record {
        size = filled2.size;
        count = (omega arith);
        listed = (filled2.freqs ∙ ap (λ l. l ++ usables gs) filled1.freqs);
        band_count = omega arith;
        sizes = (
          first,
          ap (λ x. pos (0 + l1 + l2) -ℤ x) first
              ∙ ap (λ j. pos j -ℤ pos l1) (omega arith)
              ∙ rest_count l1 l2,
        );
      },
    )

-- For a table of 64 elements without channels and a list of bands whose first two have their
-- frequencies as an attribute, of which fewer than 64 are given and not disabled,
-- nl80211_get_freqlist_cb meets no fault and leaves a table with exactly these frequencies, in
-- order, and with the first two bands, each of which counts its own.
pub get_freqlist_cb-IsListed :
    (bands : List BandAttrs) (ch : Channels)
    → length ch.chan ≡ 64
    → ch.num_channels ≡ 0
    → HasFreqs bands
    → length (firsts bands) < 64
    → (ch' : Channels) × (get_freqlist_cb (some bands) ch ≡ some ch') × IsListed bands ch'
unfolding get_freqlist_cb
get_freqlist_cb-IsListed [] ch size empty has room = (
  record ch { num_channels = 0; num_bands = 0 },
  refl,
  record { size = size; count = refl; listed = refl; band_count = refl; sizes = tt },
)
get_freqlist_cb-IsListed (a ∷ []) ch size empty has room =
    let (fs, given) = is_some-some a.freqs has in
    subst (λ x. Lists ch (x ∷ [])) (ap (with_freqs a) (sym given))
      (one_listed a fs ch size empty (subst (λ o. length (usables_of o) < 64) given room))
get_freqlist_cb-IsListed (a ∷ b ∷ rest) ch size empty (has_a, has_b) room =
    let (fs, given_a) = is_some-some a.freqs has_a in
    let (gs, given_b) = is_some-some b.freqs has_b in
    let few : length (usables fs ++ usables gs) < 64 =
      subst (λ o. length (usables fs ++ usables_of o) < 64) given_b
        (subst (λ o. length (usables_of o ++ usables_of b.freqs) < 64) given_a room) in
    subst (λ x. Lists ch (x ∷ b ∷ rest)) (ap (with_freqs a) (sym given_a))
      (subst (λ y. Lists ch (with_freqs a (some fs) ∷ y ∷ rest)) (ap (with_freqs b) (sym given_b))
        (two_listed a b fs gs rest ch size empty few))
