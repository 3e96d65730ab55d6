-- ===== src/Channel/Table/Add.antt =====
-- Adding channels to the table, against the look-ups.
use libuwifi.Base.{
  ℕ, suc, zero, ◌+◌, ◌<◌, ◌≤◌, ◌≡◌, refl, Bool, true, false, ◌&&◌, List, [], ◌∷◌, if◌then◌else◌,
  length, ◌==◌, ltb, leb, ℤ, pos, minus_one, ◌==ℤ◌, Bool-cases, arith, inl, inr, uint32_of,
}
use libuwifi.Channel.Types.{ChanFreq, Channels, IsValid, max_channels}
use libuwifi.Channel.Table.{scan, visited, idx_from_freq, list_add, write_freq}

-- The look-up in the table with a frequency written behind the `n` channels in use.
scan-write_freq :
    (f : ℤ) (g n i k : ℕ) (xs : List ChanFreq)
    → n < length xs
    → k ≡ i + n
    → scan (λ x. x.freq == g) (write_freq f xs n) (suc n) i ≡ (
        if scan (λ x. x.freq == g) xs n i ==ℤ minus_one && uint32_of f == g
        then pos k
        else scan (λ x. x.freq == g) xs n i)
unfolding scan
scan-write_freq f g n i k [] h q = absurd (omega arith)
scan-write_freq f g zero i k (x ∷ xs) h q = grind arith
scan-write_freq f g (suc n) i k (x ∷ xs) h q = elim (Bool-cases (x.freq == g)) [
  | inl e ↦ rw e (grind arith)
  | inr e ↦ rw (e, scan-write_freq f g n (suc i) k xs (omega arith) (omega arith)) (grind arith)
]

pub length-write_freq :
    (f : ℤ) (xs : List ChanFreq) (i : ℕ) → length (write_freq f xs i) ≡ length xs
length-write_freq f [] i = refl
length-write_freq f (x ∷ xs) zero = refl
length-write_freq f (x ∷ xs) (suc i) = rw (length-write_freq f xs i)

visited_valid : (ch : Channels) → IsValid ch → visited ch ≡ ch.num_channels
visited_valid ch v = ground arith

pub list_add-room :
    (ch : Channels) (f : ℤ)
    → ch.num_channels < max_channels
    → list_add ch f ≡ (
      true,
      record ch { chan = write_freq f ch.chan ch.num_channels; num_channels = suc ch.num_channels },
    )
unfolding list_add
list_add-room ch f h = let e : leb max_channels ch.num_channels ≡ false = ground arith in rw e

list_add-full :
    (ch : Channels) (f : ℤ) → max_channels ≤ ch.num_channels → list_add ch f ≡ (false, ch)
unfolding list_add
list_add-full ch f h = let e : leb max_channels ch.num_channels ≡ true = ground arith in rw e

-- The result of adding the frequency `f`, as the look-up of `g` sees it.
abbrev pub IsAdded : Channels → ℤ → ℕ → Bool × Channels → Type 0
IsAdded ch f g (ok, new) =
    IsValid new
    × (ok ≡ ltb ch.num_channels max_channels)
    × (idx_from_freq new g ≡ (
        if ok && (idx_from_freq ch g ==ℤ minus_one && uint32_of f == g)
        then pos ch.num_channels
        else idx_from_freq ch g))

-- In a valid table with room, adding a frequency succeeds, keeps the table valid and changes the
-- look-up of this frequency alone: where it was absent it is found behind the channels in use. With a
-- full table it fails and no look-up changes.
pub list_add-idx_from_freq :
    (ch : Channels) (f : ℤ) (g : ℕ) → IsValid ch → IsAdded ch f g (list_add ch f)
unfolding idx_from_freq
list_add-idx_from_freq ch f g (size, room) = elim (Bool-cases (ltb ch.num_channels max_channels)) [
  | inl e ↦
      rw (list_add-room ch f (ground arith), e)
        (let n = length-write_freq f ch.chan ch.num_channels in
          let more : Channels = record ch {
            chan = write_freq f ch.chan ch.num_channels;
            num_channels = suc ch.num_channels;
          } in
          (
            (omega arith, ground arith),
            refl,
            rw (visited_valid more (omega arith, ground arith)) (
                scan-write_freq f g ch.num_channels 0 ch.num_channels ch.chan (ground arith)
                  (omega arith)),
          ))
  | inr e ↦ rw (list_add-full ch f (ground arith), e) ((size, room), refl, refl)
]
