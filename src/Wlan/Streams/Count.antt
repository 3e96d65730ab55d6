-- ===== src/Wlan/Streams/Count.antt =====
-- The stream counts that the two loops over an MCS set find: core/wlan_util.c.
use libuwifi.Base.{
  ℕ, zero, suc, ◌+◌, ◌*◌, ◌≤◌, ◌<◌, ◌≡◌, refl, ◌⊎◌, inl, inr, arith, ◌==◌, if◌then◌else◌, some,
  List, ◌∷◌, get_elem?, field, Bool-cases, length, get_elem?_lt, test_bit, Succeeds, succeeds,
  if-Succeeds, bind-Succeeds, get_elem?-Succeeds, le16-Succeeds, ◌++◌, ◌⊑◌, ⊑_refl, ⊑_bind, ⊑_if,
  get_elem?_⊑, le16_⊑,
}
use libuwifi.Wlan.Streams.{ht_rx_loop, ht_streams_from_mcs, vht_loop, vht_streams_from_mcs}

-- `r` is the first index from `lo` on, and below `hi`, that stops the loop, or `hi`.
pub record IsFirst (Stops : ℕ → Type 0) (lo hi r : ℕ) : Type 0 where
  pub from_lo : lo ≤ r
  pub to_hi : r ≤ hi
  pub passed : (j : ℕ) → lo ≤ j → j < r → ¬ Stops j
  pub stops : r < hi → Stops r

module _ {Stops : ℕ → Type 0} where
  IsFirst-here : (lo hi : ℕ) → lo ≤ hi → Stops lo → IsFirst Stops lo hi lo
  IsFirst-here lo hi h s = record {
    from_lo = omega arith;
    to_hi = h;
    passed = λ j p q. absurd (omega arith);
    stops = λ _. s;
  }

  IsFirst-end : (lo hi : ℕ) → lo ≡ hi → IsFirst Stops lo hi lo
  IsFirst-end lo hi e = record {
    from_lo = omega arith;
    to_hi = omega arith;
    passed = λ j p q. absurd (omega arith);
    stops = λ h. absurd (omega arith);
  }

  IsFirst-next : (lo hi r : ℕ) → ¬ Stops lo → IsFirst Stops (lo + 1) hi r → IsFirst Stops lo hi r
  IsFirst-next lo hi r n f = record {
    from_lo = omega arith;
    to_hi = f.to_hi;
    passed = λ j p q. elim (split j lo p) [ inl e ↦ rw e n | inr later ↦ f.passed j later q ];
    stops = f.stops;
  }
    where
      split : (j k : ℕ) → k ≤ j → (j ≡ k) ⊎ (k + 1 ≤ j)
      split j k p = grind arith

-- The two-bit field of stream `i` says that the stream is not supported.
abbrev pub NoStream : ℕ → ℕ → Type 0
NoStream map i = field map (i * 2) 2 ≡ 3

vht_loop-IsFirst :
    (left i hi map : ℕ) → i + left ≡ hi → IsFirst (NoStream map) i hi (vht_loop left i map)
unfolding vht_loop
vht_loop-IsFirst zero i hi map e = IsFirst-end i hi (omega arith)
vht_loop-IsFirst (suc left) i hi map e = elim (Bool-cases (field map (i * 2) 2 == 3)) [
  | inl stop ↦ rw stop (IsFirst-here i hi (omega arith) (ground arith))
  | inr go ↦
      rw go (
        IsFirst-next i hi _ (λ s. ground arith)
          (vht_loop-IsFirst left (i + 1) hi map (omega arith)))
]

-- From six bytes or more, the VHT stream counts are the numbers of leading streams, of eight, that the
-- receive and the transmit map do not mark as unsupported.
pub vht_streams_from_mcs-IsFirst :
    (b0 b1 b2 b3 b4 b5 : ℕ) (rest : List ℕ)
    → (rx : ℕ) × (tx : ℕ) × (vht_streams_from_mcs (b0 ∷ b1 ∷ b2 ∷ b3 ∷ b4 ∷ b5 ∷ rest)
        ≡ some (rx, tx))
      × IsFirst (NoStream (b0 + 256 * b1)) 0 8 rx
      × IsFirst (NoStream (b4 + 256 * b5)) 0 8 tx
unfolding vht_streams_from_mcs
vht_streams_from_mcs-IsFirst b0 b1 b2 b3 b4 b5 rest = (
  vht_loop 8 0 (b0 + 256 * b1),
  vht_loop 8 0 (b4 + 256 * b5),
  refl,
  vht_loop-IsFirst 8 0 8 (b0 + 256 * b1) refl,
  vht_loop-IsFirst 8 0 8 (b4 + 256 * b5) refl,
)

-- The MCS bit mask of stream `i` is empty.
abbrev pub NoMcs : List ℕ → ℕ → Type 0
NoMcs mcs i = get_elem? mcs i ≡ some 0

ht_rx_loop-IsFirst :
    (left i hi : ℕ) (mcs : List ℕ)
    → i + left ≡ hi
    → hi ≤ length mcs
    → (rx : ℕ) × (ht_rx_loop left i mcs ≡ some rx) × IsFirst (NoMcs mcs) i hi rx
unfolding ht_rx_loop
ht_rx_loop-IsFirst zero i hi mcs e h = (i, refl, IsFirst-end i hi (omega arith))
ht_rx_loop-IsFirst (suc left) i hi mcs e h =
    let (m, found) = get_elem?_lt mcs i (omega arith) in
    let (rx, runs, first) = ht_rx_loop-IsFirst left (i + 1) hi mcs (omega arith) h in
    elim (Bool-cases (m == 0)) [
      | inl stop ↦ (i, rw (found, stop), IsFirst-here i hi (omega arith) (ground arith))
      | inr go ↦ (rx, rw (found, go) runs, IsFirst-next i hi rx (λ s. ground arith) first)
    ]

-- The transmit streams that the byte behind the receive masks tells, where it tells any: the receive
-- streams, or a count of its own.
abbrev pub ht_tx : ℕ → ℕ → ℕ → ℕ
ht_tx flags rx tx =
    if test_bit flags 0 then (if test_bit flags 1 then field flags 2 2 + 1 else rx) else tx

-- From 13 bytes on, the HT receive streams are the leading non-empty masks, of four, and the transmit
-- streams follow the flags of byte 12.
pub ht_streams_from_mcs-IsFirst :
    (mcs : List ℕ) (tx flags : ℕ)
    → get_elem? mcs 12 ≡ some flags
    → 13 ≤ length mcs
    → (rx : ℕ) × (ht_streams_from_mcs mcs tx ≡ some (rx, ht_tx flags rx tx))
      × IsFirst (NoMcs mcs) 0 4 rx
unfolding ht_streams_from_mcs
ht_streams_from_mcs-IsFirst mcs tx flags found h =
    let (rx, runs, first) = ht_rx_loop-IsFirst 4 0 4 mcs refl (omega arith) in
    (rx, rw (runs, found) (ground arith), first)

-- More memory behind the MCS set has no influence.
ht_rx_loop_⊑ : (left i : ℕ) (xs ys : List ℕ) → ht_rx_loop left i xs ⊑ ht_rx_loop left i (xs ++ ys)
unfolding ht_rx_loop
ht_rx_loop_⊑ zero i xs ys = ⊑_refl
ht_rx_loop_⊑ (suc left) i xs ys =
    ⊑_bind (get_elem?_⊑ xs ys i) (λ m. ⊑_if (m == 0) ⊑_refl (ht_rx_loop_⊑ left (i + 1) xs ys))

pub ht_streams_⊑ :
    (xs ys : List ℕ) (tx : ℕ) → ht_streams_from_mcs xs tx ⊑ ht_streams_from_mcs (xs ++ ys) tx
unfolding ht_streams_from_mcs
ht_streams_⊑ xs ys tx =
    ⊑_bind (ht_rx_loop_⊑ 4 0 xs ys) (λ rx. ⊑_bind (get_elem?_⊑ xs ys 12) (λ b. ⊑_refl))

pub vht_streams_⊑ : (xs ys : List ℕ) → vht_streams_from_mcs xs ⊑ vht_streams_from_mcs (xs ++ ys)
unfolding vht_streams_from_mcs
vht_streams_⊑ xs ys = ⊑_bind (le16_⊑ xs ys 0) (λ rx. ⊑_bind (le16_⊑ xs ys 4) (λ tx. ⊑_refl))

-- Thirteen bytes suffice for the HT streams, and six for the VHT streams.
ht_rx_loop-Succeeds :
    (left i : ℕ) (mcs : List ℕ) → i + left ≤ length mcs → Succeeds (ht_rx_loop left i mcs)
unfolding ht_rx_loop
ht_rx_loop-Succeeds zero i mcs h = succeeds
ht_rx_loop-Succeeds (suc left) i mcs h =
    bind-Succeeds (get_elem?-Succeeds mcs i (omega arith)) λ m e.
      if-Succeeds (m == 0) (λ t. succeeds) (λ t. ht_rx_loop-Succeeds left (i + 1) mcs (omega arith))

pub ht_streams-Succeeds :
    (mcs : List ℕ) (tx : ℕ) → 13 ≤ length mcs → Succeeds (ht_streams_from_mcs mcs tx)
unfolding ht_streams_from_mcs
ht_streams-Succeeds mcs tx h =
    bind-Succeeds (ht_rx_loop-Succeeds 4 0 mcs (omega arith))
      λ rx e. bind-Succeeds (get_elem?-Succeeds mcs 12 (omega arith)) (λ b e'. succeeds)

pub vht_streams-Succeeds : (mcs : List ℕ) → 6 ≤ length mcs → Succeeds (vht_streams_from_mcs mcs)
unfolding vht_streams_from_mcs
vht_streams-Succeeds mcs h =
    bind-Succeeds (le16-Succeeds mcs 0 (omega arith))
      λ rx e. bind-Succeeds (le16-Succeeds mcs 4 (omega arith)) (λ tx e'. succeeds)
