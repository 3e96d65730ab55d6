-- ===== src/Nl80211/Freqlist/Fill.antt =====
-- The table that nl80211_get_freqlist_cb of linux/ifctrl-nl80211.c fills.
use libuwifi.Base.{
  if◌then◌else◌, ℕ, zero, suc, ◌+◌, ◌<◌, ◌≡◌, refl, sym, subst, ◌∙◌, ap, ℤ, false, Option, none,
  some, List, [], ◌∷◌, ◌++◌, leb, u32, int32, uint32_of, length, arith, Option-cases, inl, inr,
}
use libuwifi.Channel.Types.{Channels, ChanFreq, max_channels}
use libuwifi.Channel.Table.{write_freq}
use libuwifi.Channel.Table.Add.{list_add-room, length-write_freq}
use libuwifi.Nl80211.Freqlist.{FreqAttrs, usable, freq_loop}

-- The frequency in front of others, if there is one.
abbrev pub add_usable : Option ℕ → List ℕ → List ℕ
add_usable none rest = rest
add_usable (some freq) rest = u32 freq ∷ rest

-- The frequencies of a band that are given and not disabled, as 32-bit words.
abbrev pub usables : List FreqAttrs → List ℕ
usables [] = []
usables (f ∷ fs) = add_usable (if f.attr_disabled then none else f.attr_freq) (usables fs)

-- The frequencies of the first `n` channels.
abbrev pub freqs_of : ℕ → List ChanFreq → List ℕ
freqs_of zero cs = []
freqs_of (suc n) [] = []
freqs_of (suc n) (c ∷ cs) = c.freq ∷ freqs_of n cs

freqs_of-write_freq :
    (n : ℕ) (cs : List ChanFreq) (f : ℤ)
    → n < length cs
    → freqs_of (suc n) (write_freq f cs n) ≡ freqs_of n cs ++ uint32_of f ∷ []
freqs_of-write_freq n [] f h = absurd (omega arith)
freqs_of-write_freq zero (c ∷ cs) f h = refl
freqs_of-write_freq (suc n) (c ∷ cs) f h =
    ap (λ l. c.freq ∷ l) (freqs_of-write_freq n cs f (omega arith))

word_back : (w : ℕ) → uint32_of (int32 (u32 w)) ≡ u32 w
word_back w = ground arith

append_assoc : (xs ys zs : List ℕ) → (xs ++ ys) ++ zs ≡ xs ++ (ys ++ zs)
append_assoc [] ys zs = refl
append_assoc (x ∷ xs) ys zs = ap (λ l. x ∷ l) (append_assoc xs ys zs)

-- Behind a loop over frequencies that the table has room for: the table has them behind those it had.
pub record Filled (fs : List ℕ) (i : ℕ) (ch ch' : Channels) : Type 0 where
  pub size : length ch'.chan ≡ 64
  pub count : ch'.num_channels ≡ i + length fs
  pub freqs : freqs_of (i + length fs) ch'.chan ≡ freqs_of i ch.chan ++ fs
  pub band0 : ch'.band0 ≡ ch.band0
  pub band1 : ch'.band1 ≡ ch.band1

append_nil : (xs : List ℕ) → xs ≡ xs ++ []
append_nil [] = refl
append_nil (x ∷ xs) = ap (λ l. x ∷ l) (append_nil xs)

-- The loop over the frequencies of a band ends without the jump.
pub freq_loop_lem :
    (fs : List FreqAttrs) (i : ℕ) (ch : Channels)
    → length ch.chan ≡ 64
    → ch.num_channels ≡ i
    → i + length (usables fs) < 64
    → (ch' : Channels) × (freq_loop fs i ch ≡ (false, i + length (usables fs), ch'))
      × Filled (usables fs) i ch ch'
freq_loop_lem [] i ch size count room =
    let same : i + 0 ≡ i = omega arith in
    (
      ch,
      ap (λ j. (false, j, ch)) (sym same),
      record {
        size = size;
        count = count ∙ sym same;
        freqs = ap (λ j. freqs_of j ch.chan) same ∙ append_nil (freqs_of i ch.chan);
        band0 = refl;
        band1 = refl;
      },
    )
freq_loop_lem (f ∷ fs) i ch size count room = elim (Option-cases (usable f)) [
  | inl skipped ↦
      let fewer : i + length (usables fs) < 64 =
        subst (λ o. i + length (add_usable o (usables fs)) < 64) skipped room in
      rw skipped (freq_loop_lem fs i ch size count fewer)
  | inr (freq, given) ↦
      let fewer : i + suc (length (usables fs)) < 64 =
        subst (λ o. i + length (add_usable o (usables fs)) < 64) given room in
      let not_full : leb max_channels (suc i) ≡ false = ground arith in
      let added = list_add-room ch (int32 (u32 freq)) (omega arith) in
      let next = record ch {
        chan = write_freq (int32 (u32 freq)) ch.chan ch.num_channels;
        num_channels = suc ch.num_channels;
      } in
      let (ch', runs, filled) =
        freq_loop_lem fs (suc i) next
          (length-write_freq (int32 (u32 freq)) ch.chan ch.num_channels ∙ size) (omega arith)
          (omega arith) in
      let total : suc i + length (usables fs) ≡ i + suc (length (usables fs)) = omega arith in
      let written : freqs_of (suc i) next.chan ≡ freqs_of i ch.chan ++ u32 freq ∷ [] =
        ap (λ j. freqs_of (suc i) (write_freq (int32 (u32 freq)) ch.chan j)) count
        ∙ freqs_of-write_freq i ch.chan (int32 (u32 freq)) (omega arith)
        ∙ ap (λ w. freqs_of i ch.chan ++ w ∷ []) (word_back freq) in
      rw given (
        ch',
        rw (added, not_full) (runs ∙ ap (λ j. (false, j, ch')) total),
        record {
          size = filled.size;
          count = filled.count ∙ total;
          freqs =
              ap (λ j. freqs_of j ch'.chan) (sym total)
              ∙ filled.freqs
              ∙ ap (λ l. l ++ usables fs) written
              ∙ append_assoc (freqs_of i ch.chan) (u32 freq ∷ []) (usables fs);
          band0 = filled.band0;
          band1 = filled.band1;
        },
      )
]
