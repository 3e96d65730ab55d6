-- ===== src/Raw/Radiotap/Result.antt =====
-- What uwifi_parse_radiotap of linux/raw_parser.c returns, and when it reads only its buffer.
use libuwifi.Base.{
  if◌then◌else◌, test_bit, pos, ℕ, ◌+◌, ◌<◌, ◌≤◌, ◌≡◌, refl, subst, ℤ, Option, none, some, List, [],
  ◌∷◌, ltb, minus_one, length, Succeeds, arith, inl, inr, ◌⊎◌, >>=-eq-some, if_cases, bind-Succeeds,
  if-Succeeds, succeeds, get_elem?-Succeeds, le16-Succeeds,
}
use libuwifi.Store.{some_inj}
use libuwifi.Parser.Packet.{Packet}
use libuwifi.Raw.Radiotap.{
  RadiotapLib, RadiotapLaws, Arg, Field, bytes_read, rt_flags, rt_rate, rt_channel,
  rt_dbm_antsignal, rt_mcs, rt_tsft, rt_fhss, rt_lock_quality, rt_tx_attenuation,
  rt_db_tx_attenuation, rt_dbm_tx_power, rt_rx_flags, rt_rts_retries, rt_data_retries,
  rt_ampdu_status, rt_tx_flags, rt_dbm_antnoise, rt_antenna, rt_db_antsignal, rt_db_antnoise,
  rt_other, AllWithin, get_radiotap_info, get_all, sanitize, after_init, parse_radiotap,
}

-- What holds of a result of the parser: an error and the packet as it was; or 0 if the header marks a bad
-- FCS and else the length that the header states, and a rate of up to 600 Mbit/s.
pub record IsRadiotap (lib : RadiotapLib) (buf : List ℕ) (p : Packet) (r : ℤ × Packet)
    : Type 0 where
  pub result :
      ((r.0 ≡ minus_one) × (r.1 ≡ p))
      ⊎ ((n : ℕ) × (lib.it_len buf ≡ some n)
          × (r.0 ≡ (if test_bit r.1.phy_flags 1 then pos 0 else pos n))
          × (0 < r.1.phy_rate)
          × (r.1.phy_rate ≤ 6000))

sanitize_bounds : (p : Packet) → (0 < (sanitize p).phy_rate) × ((sanitize p).phy_rate ≤ 6000)
sanitize_bounds p = ground arith

after_init-IsRadiotap :
    (lib : RadiotapLib) (buf : List ℕ) (n : ℕ) (p : Packet) (args : Option (List Arg))
    (r : ℤ × Packet)
    → lib.it_len buf ≡ some n
    → after_init lib buf n p args ≡ some r
    → IsRadiotap lib buf p r
after_init-IsRadiotap lib buf n p none r e runs =
    subst (IsRadiotap lib buf p) (some_inj runs) (record { result = inl (refl, refl) })
after_init-IsRadiotap lib buf n p (some args) r e runs =
    let (q, all, end) = >>=-eq-some (get_all lib buf args p) _ runs in
    let (low, high) = sanitize_bounds q in
    subst (IsRadiotap lib buf p) (some_inj end) (record { result = inr (n, e, refl, low, high) })

-- Where uwifi_parse_radiotap meets no fault, it returns -1 and leaves the packet as it was, or it
-- returns 0 for a packet marked as having a bad FCS and else the length that the header states,
-- with a rate between 1 and 6000 in units of 100 kbit/s.
pub parse_radiotap-IsRadiotap :
    (lib : RadiotapLib) (buf : List ℕ) (len : ℕ) (p : Packet) (r : ℤ × Packet)
    → parse_radiotap lib buf len p ≡ some r
    → IsRadiotap lib buf p r
unfolding parse_radiotap
parse_radiotap-IsRadiotap lib buf len p r e =
    let (n, at, e1) = >>=-eq-some (lib.it_len buf) _ e in
    elim (if_cases (ltb len lib.header_size) _ _ e1) [
      | inl (short, e2) ↦
          subst (IsRadiotap lib buf p) (some_inj e2) (record { result = inl (refl, refl) })
      | inr (long, e2) ↦
          let (args, at2, e3) = >>=-eq-some (lib.iterate buf n) _ e2 in
          after_init-IsRadiotap lib buf n p args r at e3
    ]

module _ (lib : RadiotapLib) (buf : List ℕ) where
  get_radiotap_info-Succeeds :
      (f : Field) (at : ℕ) (p : Packet)
      → at + bytes_read f ≤ length buf
      → Succeeds (get_radiotap_info lib buf f at p)
  unfolding get_radiotap_info
  get_radiotap_info-Succeeds rt_flags at p h =
      bind-Succeeds (get_elem?-Succeeds buf at (omega arith)) (λ b e. succeeds)
  get_radiotap_info-Succeeds rt_rate at p h =
      bind-Succeeds (get_elem?-Succeeds buf at (omega arith)) (λ b e. succeeds)
  get_radiotap_info-Succeeds rt_channel at p h =
      bind-Succeeds (le16-Succeeds buf at (omega arith))
        λ b e. bind-Succeeds (le16-Succeeds buf (at + 2) (omega arith)) (λ x e1. succeeds)
  get_radiotap_info-Succeeds rt_dbm_antsignal at p h =
      bind-Succeeds (get_elem?-Succeeds buf at (omega arith)) (λ b e. succeeds)
  get_radiotap_info-Succeeds rt_mcs at p h =
      bind-Succeeds (get_elem?-Succeeds buf at (omega arith)) λ b e.
        bind-Succeeds (get_elem?-Succeeds buf (at + 1) (omega arith))
          λ x e1. bind-Succeeds (get_elem?-Succeeds buf (at + 2) (omega arith)) (λ y e2. succeeds)
  get_radiotap_info-Succeeds rt_tsft at p h = succeeds
  get_radiotap_info-Succeeds rt_fhss at p h = succeeds
  get_radiotap_info-Succeeds rt_lock_quality at p h = succeeds
  get_radiotap_info-Succeeds rt_tx_attenuation at p h = succeeds
  get_radiotap_info-Succeeds rt_db_tx_attenuation at p h = succeeds
  get_radiotap_info-Succeeds rt_dbm_tx_power at p h = succeeds
  get_radiotap_info-Succeeds rt_rx_flags at p h = succeeds
  get_radiotap_info-Succeeds rt_rts_retries at p h = succeeds
  get_radiotap_info-Succeeds rt_data_retries at p h = succeeds
  get_radiotap_info-Succeeds rt_ampdu_status at p h = succeeds
  get_radiotap_info-Succeeds rt_tx_flags at p h = succeeds
  get_radiotap_info-Succeeds rt_dbm_antnoise at p h = succeeds
  get_radiotap_info-Succeeds rt_antenna at p h = succeeds
  get_radiotap_info-Succeeds rt_db_antsignal at p h = succeeds
  get_radiotap_info-Succeeds rt_db_antnoise at p h = succeeds
  get_radiotap_info-Succeeds rt_other at p h = succeeds

  get_all-Succeeds :
      (n : ℕ) (args : List Arg) (p : Packet)
      → AllWithin n args
      → n ≤ length buf
      → Succeeds (get_all lib buf args p)
  unfolding get_all
  get_all-Succeeds n [] p within h = succeeds
  get_all-Succeeds n (arg ∷ args) p within h =
      bind-Succeeds
        (if-Succeeds arg.is_radiotap_ns
          (λ e. get_radiotap_info-Succeeds arg.index arg.this_arg p (omega (arith, within.0)))
          (λ e. succeeds))
        (λ q e. get_all-Succeeds n args q within.1 h)

  -- The buffer is never read out of bounds where it holds the fixed part of the header and the length
  -- that the header states, whatever the length of the packet is.
  pub parse_radiotap-Succeeds :
      RadiotapLaws lib
      → (len : ℕ) (p : Packet) → lib.header_size ≤ length buf
      → ((n : ℕ) → lib.it_len buf ≡ some n → n ≤ length buf)
      → Succeeds (parse_radiotap lib buf len p)
  unfolding parse_radiotap
  parse_radiotap-Succeeds laws len p room inside = bind-Succeeds (laws.it_len_runs buf room) λ n e.
      if-Succeeds (ltb len lib.header_size) (λ t. succeeds)
        λ t. bind-Succeeds (laws.iterate_runs buf n (inside n e)) (λ args e1. fields n e args e1)
    where
      fields :
          (n : ℕ)
          → lib.it_len buf ≡ some n
          → (args : Option (List Arg)) → lib.iterate buf n ≡ some args
          → Succeeds (after_init lib buf n p args)
      fields n e none e1 = succeeds
      fields n e (some args) e1 =
          bind-Succeeds (get_all-Succeeds n args p (laws.iterate_within buf n args e1) (inside n e))
            (λ q e2. succeeds)
