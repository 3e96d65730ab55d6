-- ===== src/Channel/Table/Scan.antt =====
-- What the look-ups of core/channel.c find: the first channel that matches.
use libuwifi.Base.{
  ℕ, suc, zero, ◌+◌, ◌<◌, ◌≡◌, refl, ap, ◌⊎◌, inl, inr, Bool, true, false, some, List, [], ◌∷◌,
  get_elem?, set, ◌==◌, ℤ, pos, minus_one, ◌==ℤ◌, Bool-cases, arith,
}
use libuwifi.Channel.Types.{ChanFreq, Channels}
use libuwifi.Channel.Table.{scan, visited, idx_from_chan, idx_from_freq}

-- No element below `n` passes the test.
abbrev pub Absent : (ChanFreq → Bool) → List ChanFreq → ℕ → Type 0
Absent test xs n = (j : ℕ) (c : ChanFreq) → j < n → get_elem? xs j ≡ some c → test c ≡ false

-- The element at `k`, which is below `n`, passes the test and none before it does.
abbrev pub FirstAt : (ChanFreq → Bool) → List ChanFreq → ℕ → ℕ → Type 0
FirstAt test xs n k =
    (k < n) × ((c : ChanFreq) × (get_elem? xs k ≡ some c) × (test c ≡ true)) × Absent test xs k

-- The result of a look-up of the `n` first elements that starts counting at `i`.
abbrev pub Found : (ChanFreq → Bool) → List ChanFreq → ℕ → ℕ → ℤ → Type 0
Found test xs n i r =
    ((k : ℕ) × (r ≡ pos (i + k)) × FirstAt test xs n k) ⊎ ((r ≡ minus_one) × Absent test xs n)

Absent-∷ :
    (test : ChanFreq → Bool) (x : ChanFreq) (xs : List ChanFreq) (n : ℕ)
    → test x ≡ false
    → Absent test xs n
    → Absent test (x ∷ xs) (suc n)
Absent-∷ test x xs n e a zero c h q = cc
Absent-∷ test x xs n e a (suc j) c h q = a j c (omega arith) q

pub scan-Found :
    (test : ChanFreq → Bool) (xs : List ChanFreq) (n i : ℕ) → Found test xs n i (scan test xs n i)
unfolding scan
scan-Found test xs zero i = inr (refl, λ j c h. absurd (omega arith))
scan-Found test [] (suc n) i = inr (refl, λ j c h q. absurd (cc))
scan-Found test (x ∷ xs) (suc n) i = elim (Bool-cases (test x)) [
  | inl e ↦
      inl
        (0, rw e (ap pos (omega arith)), (omega arith, (x, refl, e), λ j c h. absurd (omega arith)))
  | inr e ↦ elim (scan-Found test xs n (suc i)) [
    | inl (k, r, (lt, hit, before)) ↦
        inl (
          suc k,
          rw (e, r) (ap pos (omega arith)),
          (omega arith, hit, Absent-∷ test x xs k e before),
        )
    | inr (r, a) ↦ inr (rw e r, Absent-∷ test x xs n e a)
  ]
]

-- A look-up does not see the replacement of a channel by one on which its test has the same value.
pub scan-set :
    (test : ChanFreq → Bool) (new : ChanFreq → ChanFreq)
    → ((c : ChanFreq) → test (new c) ≡ test c)
    → (xs : List ChanFreq) (k : ℕ) (c : ChanFreq) (n i : ℕ) → get_elem? xs k ≡ some c
    → scan test (set xs k (new c)) n i ≡ scan test xs n i
unfolding scan
scan-set test new same xs k c zero i e = refl
scan-set test new same [] k c (suc n) i e = refl
scan-set test new same (x ∷ xs) zero c (suc n) i e = let q : x ≡ c = cc in rw (q, same c) refl
scan-set test new same (x ∷ xs) (suc k) c (suc n) i e =
    rw (scan-set test new same xs k c n (suc i) e) refl

-- The index that belongs to a frequency is that of the first channel of the table with this frequency,
-- and it is -1 exactly where no channel of the table has it.
pub idx_from_freq-Found :
    (ch : Channels) (f : ℕ) → Found (λ x. x.freq == f) ch.chan (visited ch) 0 (idx_from_freq ch f)
unfolding idx_from_freq
idx_from_freq-Found ch f = scan-Found (λ x. x.freq == f) ch.chan (visited ch) 0

-- The index that belongs to a channel number is that of the first channel of the table with this
-- number, and it is -1 exactly where no channel of the table has it.
pub idx_from_chan-Found :
    (ch : Channels) (c : ℤ) → Found (λ x. x.chan ==ℤ c) ch.chan (visited ch) 0 (idx_from_chan ch c)
unfolding idx_from_chan
idx_from_chan-Found ch c = scan-Found (λ x. x.chan ==ℤ c) ch.chan (visited ch) 0
