-- ===== src/Raw/Radiotap/Signal.antt =====
-- The signal that uwifi_parse_radiotap of linux/raw_parser.c takes from the receive chains.
use Prim.{Unit, tt, ⊥}
use libuwifi.Base.{
  ℕ, ◌+◌, ◌≡◌, refl, sym, ◌∙◌, ap, subst, ℤ, pos, ◌≤ℤ◌, true, ◌&&◌, ◌||◌, Option, none, some, List,
  [], ◌∷◌, ◌==ℤ◌, ltb_ℤ, leb_ℤ, if◌then◌else◌, get_elem?, le16, arith, inl, inr, ◌⊎◌, Bool-cases,
  >>=-eq-some, if_cases,
}
use libuwifi.Store.{some_inj}
use libuwifi.Parser.Packet.{Packet}
use libuwifi.Raw.Radiotap.{
  RadiotapLib, Arg, Field, rt_tsft, rt_fhss, rt_lock_quality, rt_tx_attenuation,
  rt_db_tx_attenuation, rt_dbm_tx_power, rt_rx_flags, rt_rts_retries, rt_data_retries,
  rt_ampdu_status, rt_tx_flags, rt_dbm_antnoise, rt_antenna, rt_db_antsignal, rt_db_antnoise,
  rt_other, rt_flags, rt_rate, rt_channel, rt_dbm_antsignal, rt_mcs, int8, best_signal,
  get_radiotap_info, get_all,
}

-- The signal of a field with the given first byte, if it is one of a receive chain.
abbrev pub chain_signal : Field → Option ℕ → Option ℤ
chain_signal rt_dbm_antsignal (some b) = some (int8 b)
chain_signal f o = none

abbrev pub add_signal : Option ℤ → List ℤ → List ℤ
add_signal none rest = rest
add_signal (some c) rest = c ∷ rest

-- The signals of the receive chains.
abbrev pub signals : List ℕ → List Arg → List ℤ
signals buf [] = []
signals buf (arg ∷ args) =
    if arg.is_radiotap_ns
    then add_signal (chain_signal arg.index (get_elem? buf arg.this_arg)) (signals buf args)
    else signals buf args

-- The number is one of the list.
abbrev pub IsOneOf : ℤ → List ℤ → Type 0
IsOneOf r [] = ⊥
IsOneOf r (c ∷ cs) = (r ≡ c) ⊎ IsOneOf r cs

-- The number is negative and at least `c`, if `c` is negative.
abbrev pub Tops : ℤ → ℤ → Type 0
Tops c r = ltb_ℤ c (pos 0) ≡ true → (ltb_ℤ r (pos 0) ≡ true) × (c ≤ℤ r)

abbrev pub AllTopped : List ℤ → ℤ → Type 0
AllTopped [] r = Unit {0}
AllTopped (c ∷ cs) r = Tops c r × AllTopped cs r

-- From the value `old`, which is 0 or negative, `r` is the highest of the negative values among `old` and
-- `cs`, and `old` where there is none: it is `old` or a negative one of `cs`.
pub record IsBest (cs : List ℤ) (old r : ℤ) : Type 0 where
  pub topped : AllTopped cs r
  pub kept : Tops old r
  pub source : (r ≡ old) ⊎ ((ltb_ℤ r (pos 0) ≡ true) × IsOneOf r cs)

best_signal-Tops :
    (c old : ℤ)
    → leb_ℤ old (pos 0) ≡ true
    → Tops c (best_signal c old) × Tops old (best_signal c old)
best_signal-Tops c old low = (λ e. ground arith, λ e. ground arith)

best_signal_low : (c old : ℤ) → leb_ℤ old (pos 0) ≡ true → leb_ℤ (best_signal c old) (pos 0) ≡ true
best_signal_low c old low = ground arith

Tops-trans : (a b c : ℤ) → Tops a b → Tops b c → Tops a c
Tops-trans a b c p q e =
    let (neg, le) = p e in let (neg', le') = q neg in (neg', omega (arith, le, le'))

best_signal_source :
    (c old : ℤ) → (best_signal c old ≡ old) ⊎ ((ltb_ℤ c (pos 0) ≡ true) × (best_signal c old ≡ c))
best_signal_source c old = elim (Bool-cases (ltb_ℤ c (pos 0) && (old ==ℤ pos 0 || ltb_ℤ old c))) [
  | inl e ↦ inr (ground arith, rw e refl)
  | inr e ↦ inl (rw e refl)
]

step-IsBest :
    (c old : ℤ) (cs : List ℤ) (r : ℤ)
    → leb_ℤ old (pos 0) ≡ true
    → IsBest cs (best_signal c old) r
    → IsBest (c ∷ cs) old r
step-IsBest c old cs r low best =
    let (tops_c, tops_old) = best_signal-Tops c old low in
    record {
      topped = (Tops-trans c (best_signal c old) r tops_c best.kept, best.topped);
      kept = Tops-trans old (best_signal c old) r tops_old best.kept;
      source = elim best.source [
        | inl e ↦ elim (best_signal_source c old) [
          | inl e1 ↦ inl (e ∙ e1)
          | inr (neg, e1) ↦ inr (ap (λ x. ltb_ℤ x (pos 0)) (e ∙ e1) ∙ neg, inl (e ∙ e1))
        ]
        | inr (neg, m) ↦ inr (neg, inr m)
      ];
    }

-- What a field does to the signal.
abbrev after_signal : Option ℤ → ℤ → ℤ
after_signal none old = old
after_signal (some c) old = best_signal c old

after_signal_low :
    (o : Option ℤ) (old : ℤ) → leb_ℤ old (pos 0) ≡ true → leb_ℤ (after_signal o old) (pos 0) ≡ true
after_signal_low none old low = low
after_signal_low (some c) old low = best_signal_low c old low

after_signal-IsBest :
    (o : Option ℤ) (old : ℤ) (cs : List ℤ) (r : ℤ)
    → leb_ℤ old (pos 0) ≡ true
    → IsBest cs (after_signal o old) r
    → IsBest (add_signal o cs) old r
after_signal-IsBest none old cs r low best = best
after_signal-IsBest (some c) old cs r low best = step-IsBest c old cs r low best

module _ (lib : RadiotapLib) (buf : List ℕ) where
  get_radiotap_info-signal :
      (f : Field) (at : ℕ) (p q : Packet)
      → get_radiotap_info lib buf f at p ≡ some q
      → q.phy_signal ≡ after_signal (chain_signal f (get_elem? buf at)) p.phy_signal
  unfolding get_radiotap_info
  get_radiotap_info-signal rt_tsft at p q e = ap (λ x. x.phy_signal) (sym (some_inj e))
  get_radiotap_info-signal rt_fhss at p q e = ap (λ x. x.phy_signal) (sym (some_inj e))
  get_radiotap_info-signal rt_lock_quality at p q e = ap (λ x. x.phy_signal) (sym (some_inj e))
  get_radiotap_info-signal rt_tx_attenuation at p q e = ap (λ x. x.phy_signal) (sym (some_inj e))
  get_radiotap_info-signal rt_db_tx_attenuation at p q e = ap (λ x. x.phy_signal) (sym (some_inj e))
  get_radiotap_info-signal rt_dbm_tx_power at p q e = ap (λ x. x.phy_signal) (sym (some_inj e))
  get_radiotap_info-signal rt_rx_flags at p q e = ap (λ x. x.phy_signal) (sym (some_inj e))
  get_radiotap_info-signal rt_rts_retries at p q e = ap (λ x. x.phy_signal) (sym (some_inj e))
  get_radiotap_info-signal rt_data_retries at p q e = ap (λ x. x.phy_signal) (sym (some_inj e))
  get_radiotap_info-signal rt_ampdu_status at p q e = ap (λ x. x.phy_signal) (sym (some_inj e))
  get_radiotap_info-signal rt_tx_flags at p q e = ap (λ x. x.phy_signal) (sym (some_inj e))
  get_radiotap_info-signal rt_dbm_antnoise at p q e = ap (λ x. x.phy_signal) (sym (some_inj e))
  get_radiotap_info-signal rt_antenna at p q e = ap (λ x. x.phy_signal) (sym (some_inj e))
  get_radiotap_info-signal rt_db_antsignal at p q e = ap (λ x. x.phy_signal) (sym (some_inj e))
  get_radiotap_info-signal rt_db_antnoise at p q e = ap (λ x. x.phy_signal) (sym (some_inj e))
  get_radiotap_info-signal rt_other at p q e = ap (λ x. x.phy_signal) (sym (some_inj e))
  get_radiotap_info-signal rt_flags at p q e =
      let (b, at_b, e1) = >>=-eq-some (get_elem? buf at) _ e in
      ap (λ x. x.phy_signal) (sym (some_inj e1))
  get_radiotap_info-signal rt_rate at p q e =
      let (b, at_b, e1) = >>=-eq-some (get_elem? buf at) _ e in
      ap (λ x. x.phy_signal) (sym (some_inj e1))
  get_radiotap_info-signal rt_channel at p q e =
      let (b, at_b, e1) = >>=-eq-some (le16 buf at) _ e in
      let (c, at_c, e2) = >>=-eq-some (le16 buf (at + 2)) _ e1 in
      ap (λ x. x.phy_signal) (sym (some_inj e2))
  get_radiotap_info-signal rt_mcs at p q e =
      let (b, at_b, e1) = >>=-eq-some (get_elem? buf at) _ e in
      let (c, at_c, e2) = >>=-eq-some (get_elem? buf (at + 1)) _ e1 in
      let (d, at_d, e3) = >>=-eq-some (get_elem? buf (at + 2)) _ e2 in
      ap (λ x. x.phy_signal) (sym (some_inj e3))
  get_radiotap_info-signal rt_dbm_antsignal at p q e =
      let (b, at_b, e1) = >>=-eq-some (get_elem? buf at) _ e in
      ap (λ x. x.phy_signal) (sym (some_inj e1))
      ∙ ap (λ o. after_signal (chain_signal rt_dbm_antsignal o) p.phy_signal) (sym at_b)

  -- Where the loop over the radiotap fields meets no fault and starts with a signal of 0 or below,
  -- it ends with the highest of the negative values among the start and the signals of the receive
  -- chains, and with the start if there is none; a signal that is not negative is never taken.
  pub get_all-IsBest :
      (args : List Arg) (p q : Packet)
      → leb_ℤ p.phy_signal (pos 0) ≡ true
      → get_all lib buf args p ≡ some q
      → IsBest (signals buf args) p.phy_signal q.phy_signal
  unfolding get_all
  get_all-IsBest [] p q low e =
      subst (λ x. IsBest [] p.phy_signal x.phy_signal) (some_inj e)
        (record { topped = tt; kept = λ neg. (neg, omega arith); source = inl refl })
  get_all-IsBest (arg ∷ args) p q low e =
      let (q1, e1, e2) =
        >>=-eq-some
          (if arg.is_radiotap_ns
            then get_radiotap_info lib buf arg.index arg.this_arg p
            else some p)
          (λ x. get_all lib buf args x) e in
      elim (if_cases arg.is_radiotap_ns _ _ e1) [
        | inl (ns, e3) ↦
            let o = chain_signal arg.index (get_elem? buf arg.this_arg) in
            let at : q1.phy_signal ≡ after_signal o p.phy_signal =
              get_radiotap_info-signal arg.index arg.this_arg p q1 e3 in
            let low1 : leb_ℤ q1.phy_signal (pos 0) ≡ true =
              ap (λ x. leb_ℤ x (pos 0)) at ∙ after_signal_low o p.phy_signal low in
            let rest =
              subst (λ x. IsBest (signals buf args) x q.phy_signal) at
                (get_all-IsBest args q1 q low1 e2) in
            rw ns (after_signal-IsBest o p.phy_signal (signals buf args) q.phy_signal low rest)
        | inr (other, e3) ↦
            let same : p ≡ q1 = some_inj e3 in
            let low1 : leb_ℤ q1.phy_signal (pos 0) ≡ true =
              ap (λ x. leb_ℤ x.phy_signal (pos 0)) (sym same) ∙ low in
            let rest =
              subst (λ x. IsBest (signals buf args) x.phy_signal q.phy_signal) (sym same)
                (get_all-IsBest args q1 q low1 e2) in
            rw other rest
      ]
