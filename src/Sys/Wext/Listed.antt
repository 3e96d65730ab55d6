-- ===== src/Sys/Wext/Listed.antt =====
-- The table that wext_get_channels of linux/ifctrl-wext.c makes of the frequencies of a device.
use libuwifi.Base.{
  ℤ, ltb_ℤ, uint32_of, ◌/ℤ◌, bind-none, ℕ, suc, zero, ◌+◌, ◌<◌, ◌≤◌, ◌≡◌, refl, sym, subst, ◌∙◌, ap,
  min, pos, false, Option, none, some, List, length, length-set, get_elem?, get_elem?_lt,
  get_elem?_ge, get_elem?-set_self, get_elem?-set_ne, set, ltb, leb, Bool-cases, inl, inr, arith,
  if◌then◌else◌,
}
use libuwifi.Store.{some_inj}
use libuwifi.Channel.Types.{ChanFreq, Channels}
use libuwifi.Sys.Wext.{
  IwFreq, Range, Listing, write_chan, add_chan, chan_loop, listed, fill_table, read_range,
}

-- A frequency in MHz, given so or, above 100000000, in units of 10 Hz, as an unsigned int.
abbrev pub mhz : ℤ → ℕ
mhz m = if ltb_ℤ (pos 100000000) m then uint32_of (m /ℤ 100000) else uint32_of m

-- One for a frequency up to 2500 MHz.
abbrev pub is_low : Option IwFreq → ℕ
is_low none = 0
is_low (some f) = if leb (mhz f.m) 2500 then 1 else 0

-- The number of these among `n` frequencies from index `i` on.
abbrev pub low : ℕ → ℕ → List IwFreq → ℕ
low zero i fs = 0
low (suc n) i fs = is_low (get_elem? fs i) + low n (suc i) fs

-- The channel at `k` has the number and the frequency of `f`.
abbrev pub IsFor : List ChanFreq → ℕ → IwFreq → Type 0
IsFor chan k f =
    (c : ChanFreq) × (get_elem? chan k ≡ some c) × (c.chan ≡ pos f.i) × (c.freq ≡ mhz f.m)

-- What the rounds from index `i` on make of a listing.
record Adds (rounds i : ℕ) (freqs : List IwFreq) (l l' : Listing) : Type 0 where
  size : length l'.chan ≡ length l.chan
  lows : l'.band0cnt ≡ l.band0cnt + low rounds i freqs
  total : l'.band0cnt + l'.band1cnt ≡ l.band0cnt + l.band1cnt + rounds
  kept : (k : ℕ) (f : IwFreq) → k < i → IsFor l.chan k f → IsFor l'.chan k f
  done :
      (k : ℕ) (f : IwFreq) → i ≤ k → k < i + rounds → get_elem? freqs k ≡ some f → IsFor l'.chan k f

add_chan_chan : (i : ℕ) (c : ChanFreq) (l : Listing) → (add_chan i c l).chan ≡ set l.chan i c
add_chan_chan i c l = ground arith

add_chan_counts :
    (i : ℕ) (f : IwFreq) (c : ChanFreq) (l : Listing)
    → ((add_chan i (write_chan f c) l).band0cnt ≡ l.band0cnt + is_low (some f))
      × ((add_chan i (write_chan f c) l).band0cnt + (add_chan i (write_chan f c) l).band1cnt
          ≡ suc (l.band0cnt + l.band1cnt))
add_chan_counts i f c l = elim (Bool-cases (leb (mhz f.m) 2500)) [
  | inl e ↦ rw e (omega arith, omega arith)
  | inr e ↦ rw e (omega arith, omega arith)
]

-- A write at another place.
IsFor-set :
    (chan : List ChanFreq) (i k : ℕ) (c : ChanFreq) (f : IwFreq)
    → k < i
    → IsFor chan k f
    → IsFor (set chan i c) k f
IsFor-set chan i k c f below (d, at, number, freq) =
    (d, get_elem?-set_ne chan i k c (λ e. absurd (omega arith)) ∙ at, number, freq)

chan_loop-Adds :
    (rounds i : ℕ) (freqs : List IwFreq) (l : Listing)
    → i + rounds ≤ length freqs
    → i + rounds ≤ length l.chan
    → (l' : Listing) × (chan_loop rounds i freqs l ≡ some l') × Adds rounds i freqs l l'
chan_loop-Adds zero i freqs l h g = (
  l,
  refl,
  record {
    size = refl;
    lows = omega arith;
    total = omega arith;
    kept = λ k f below is. is;
    done = λ k f above below at. absurd (omega arith);
  },
)
chan_loop-Adds (suc rounds) i freqs l h g =
    let (f, at) = get_elem?_lt freqs i (omega arith) in
    let (c, there) = get_elem?_lt l.chan i (omega arith) in
    let l1 = add_chan i (write_chan f c) l in
    let written = add_chan_chan i (write_chan f c) l in
    let size1 : length l1.chan ≡ length l.chan =
      ap length written ∙ length-set l.chan i (write_chan f c) in
    let (lows1, total1) = add_chan_counts i f c l in
    let (l', runs, adds) =
      chan_loop-Adds rounds (suc i) freqs l1 (omega arith) (omega (arith, size1)) in
    let here : IsFor l1.chan i f = (
      write_chan f c,
      ap (λ x. get_elem? x i) written ∙ get_elem?-set_self l.chan i (write_chan f c) (omega arith),
      refl,
      refl,
    ) in
    (
      l',
      rw (at, there) runs,
      record {
        size = adds.size ∙ size1;
        lows = rw at (omega (arith, adds.lows, lows1));
        total = omega (arith, adds.total, total1);
        kept = λ k g' below is. adds.kept k g' (omega arith) (
            subst (λ x. IsFor x k g') (sym written)
              (IsFor-set l.chan i k (write_chan f c) g' below is));
        done = λ k g' above below found. elim (Bool-cases (ltb i k)) [
          | inl more ↦ adds.done k g' (ground arith) (omega arith) found
          | inr last ↦
              let same : i ≡ k = ground arith in
              let equal : f ≡ g' = some_inj (sym at ∙ ap (get_elem? freqs) same ∙ found) in
              adds.kept k g' (omega arith)
                (subst (λ x. IsFor l1.chan k x) equal (subst (λ x. IsFor l1.chan x f) same here))
        ];
      },
    )

-- The table has the frequencies of the device, in order, and counts those of the two bands.
pub record IsTableOf (range : Range) (ch ch' : Channels) : Type 0 where
  pub size : length ch'.chan ≡ length ch.chan
  pub number : ch'.num_channels ≡ range.num_frequency
  pub entries :
      (k : ℕ) (f : IwFreq)
      → k < range.num_frequency
      → get_elem? range.freq k ≡ some f
      → IsFor ch'.chan k f
  pub first : ch'.band0.num_channels ≡ pos (low range.num_frequency 0 range.freq)
  pub both :
      (high : ℕ) × (ch'.band1.num_channels ≡ pos high)
      × (low range.num_frequency 0 range.freq + high ≡ range.num_frequency)

-- For an answer of version 16 or later with no more frequencies than its array, which has at most
-- 64, and a table of 64 elements, wext_get_channels meets no fault and leaves the channels and
-- frequencies of the device in order, with frequencies above 100000000 divided by 100000, and
-- counts those up to 2500 MHz in the first band and the others in the second.
pub read_range-IsTableOf :
    (range : Range) (ch : Channels)
    → 16 ≤ range.we_version_compiled
    → range.num_frequency ≤ length range.freq
    → length range.freq ≤ 64
    → length ch.chan ≡ 64
    → (ch' : Channels) × (read_range ch (some range) ≡ some (range.num_frequency, ch'))
      × IsTableOf range ch ch'
unfolding read_range
read_range-IsTableOf range ch version inside fits size =
    let n = range.num_frequency in
    let all : min n 64 ≡ n = omega arith in
    let new : ltb range.we_version_compiled 16 ≡ false = ground arith in
    let l : Listing = record { chan = ch.chan; band0cnt = 0; band1cnt = 0 } in
    let (l', runs, adds) = chan_loop-Adds n 0 range.freq l (omega arith) (omega arith) in
    (
      listed ch n l',
      rw new (ap (fill_table ch range.freq) all ∙ rw runs refl),
      record {
        size = adds.size;
        number = refl;
        entries = λ k f below at. adds.done k f (omega arith) (omega arith) at;
        first = ap pos (omega (arith, adds.lows));
        both = (l'.band1cnt, refl, omega (arith, adds.lows, adds.total));
      },
    )

-- A range that claims more frequencies than its array has, though no more than the table.
chan_loop-overrun :
    (rounds i : ℕ) (freqs : List IwFreq) (l : Listing)
    → i ≤ length freqs
    → length freqs < i + rounds
    → chan_loop rounds i freqs l ≡ none
chan_loop-overrun zero i freqs l g h = absurd (omega arith)
chan_loop-overrun (suc rounds) i freqs l g h = elim (Bool-cases (ltb i (length freqs))) [
  | inl inside ↦ bind-none (get_elem? freqs i) (λ f. bind-none (get_elem? l.chan i) (λ c.
      chan_loop-overrun rounds (suc i) freqs (add_chan i (write_chan f c) l) (ground arith)
        (omega arith)))
  | inr outside ↦ rw (get_elem?_ge freqs i (ground arith)) refl
]

-- A driver that claims more frequencies than its array has.
pub read_range-overrun :
    (range : Range) (ch : Channels)
    → 16 ≤ range.we_version_compiled
    → length range.freq < range.num_frequency
    → length range.freq < 64
    → read_range ch (some range) ≡ none
unfolding read_range
read_range-overrun range ch version outside fits =
    let n = range.num_frequency in
    let new : ltb range.we_version_compiled 16 ≡ false = ground arith in
    let l : Listing = record { chan = ch.chan; band0cnt = 0; band1cnt = 0 } in
    rw (new, chan_loop-overrun (min n 64) 0 range.freq l (omega arith) (omega arith)) refl
