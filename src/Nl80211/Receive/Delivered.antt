-- ===== src/Nl80211/Receive/Delivered.antt =====
-- What the loop of nl80211_send_recv of linux/netl80211.c delivers to the callback, and when it ends.
use libuwifi.Base.{
  ℕ, suc, zero, ◌≡◌, refl, ◌∙◌, ap, ◌⊎◌, inl, inr, ℤ, pos, ltb_ℤ, Bool, true, false, Option, some,
  List, [], ◌∷◌, ◌++◌, ◌>>=◌, >>=-eq-some, if◌then◌else◌, arith,
}
use libuwifi.Nl80211.Receive.{
  Libnl, Event, valid, ack, finish, error, minus, fold_cb, run_events, recv_loop,
}

-- The messages among the events.
abbrev pub payloads : {R : Type 0} → List (Event R) → List R
payloads [] = []
payloads (valid r ∷ es) = r ∷ payloads es
payloads (ack ∷ es) = payloads es
payloads (finish ∷ es) = payloads es
payloads (error e ∷ es) = payloads es

fold_cb-append :
    {R S : Type 0} (cb : R → S → Option S) (xs ys : List R) (s t : S)
    → fold_cb cb (xs ++ ys) s ≡ some t
    → (m : S) × (fold_cb cb xs s ≡ some m) × (fold_cb cb ys m ≡ some t)
fold_cb-append cb [] ys s t e = (s, refl, e)
fold_cb-append cb (x ∷ xs) ys s t e =
    let (s', one, rest) = >>=-eq-some (cb x s) (fold_cb cb (xs ++ ys)) e in
    let (m, front, back) = fold_cb-append cb xs ys s' t rest in (m, rw one front, back)

minus_low : (n : ℕ) → ltb_ℤ (pos 0) (minus n) ≡ false
minus_low zero = refl
minus_low (suc n) = ground arith

module _ {W R : Type 0} (nl : Libnl W R) where
  -- The last answer among the events: 0 for an acknowledgement or an end, or the negative code of an
  -- error; `err` if there is none.
  abbrev pub verdict : ℤ → List (Event R) → ℤ
  verdict err [] = err
  verdict err (valid r ∷ es) = verdict err es
  verdict err (ack ∷ es) = verdict (pos 0) es
  verdict err (finish ∷ es) = verdict (pos 0) es
  verdict err (error e ∷ es) = verdict (minus (nl.syserr2nlerr e)) es

  -- Whether the events leave the loop waiting.
  abbrev pub waits : List (Event R) → Bool
  waits es = ltb_ℤ (pos 0) (verdict (pos 1) es)

  -- An answer comes within `n` calls of nl_recvmsgs.
  abbrev pub Answers : ℕ → W → Type 0
  Answers zero w = ⊥
  Answers (suc n) w =
      (waits (nl.recvmsgs w).0 ≡ false)
      ⊎ ((waits (nl.recvmsgs w).0 ≡ true) × Answers n (nl.recvmsgs w).1)

  -- All messages up to the answer, the answer, and the world behind it.
  abbrev pub replies : ℕ → W → List R × ℤ × W
  replies zero w = ([], pos 1, w)
  replies (suc n) w =
      let (es, w') = nl.recvmsgs w in
      let (rs, err, w'') = replies n w' in
      if waits es then (payloads es ++ rs, err, w'') else (payloads es, verdict (pos 1) es, w')

  run_events_lem :
      {S : Type 0} (cb : R → S → Option S) (es : List (Event R)) (err : ℤ) (s t : S)
      → fold_cb cb (payloads es) s ≡ some t
      → run_events nl cb es err s ≡ some (verdict err es, t)
  run_events_lem cb [] err s t e = ap (λ o. o >>= λ x. some (err, x)) e
  run_events_lem cb (valid r ∷ es) err s t e =
      let (s', one, rest) = >>=-eq-some (cb r s) (fold_cb cb (payloads es)) e in
      ap (λ o. o >>= λ x. run_events nl cb es err x) one ∙ run_events_lem cb es err s' t rest
  run_events_lem cb (ack ∷ es) err s t e = run_events_lem cb es (pos 0) s t e
  run_events_lem cb (finish ∷ es) err s t e = run_events_lem cb es (pos 0) s t e
  run_events_lem cb (error n ∷ es) err s t e =
      run_events_lem cb es (minus (nl.syserr2nlerr n)) s t e

  -- Behind an answer there is always an answer.
  verdict_low :
      (err : ℤ) (es : List (Event R))
      → ltb_ℤ (pos 0) err ≡ false
      → ltb_ℤ (pos 0) (verdict err es) ≡ false
  verdict_low err [] h = h
  verdict_low err (valid r ∷ es) h = verdict_low err es h
  verdict_low err (ack ∷ es) h = verdict_low (pos 0) es refl
  verdict_low err (finish ∷ es) h = verdict_low (pos 0) es refl
  verdict_low err (error n ∷ es) h =
      verdict_low (minus (nl.syserr2nlerr n)) es (minus_low (nl.syserr2nlerr n))

  -- Events that leave the loop waiting have not changed `err`.
  verdict_kept :
      (err : ℤ) (es : List (Event R)) → ltb_ℤ (pos 0) (verdict err es) ≡ true → verdict err es ≡ err
  verdict_kept err [] h = refl
  verdict_kept err (valid r ∷ es) h = verdict_kept err es h
  verdict_kept err (ack ∷ es) h = let low = verdict_low (pos 0) es refl in absurd (cc)
  verdict_kept err (finish ∷ es) h = let low = verdict_low (pos 0) es refl in absurd (cc)
  verdict_kept err (error n ∷ es) h =
      let low = verdict_low (minus (nl.syserr2nlerr n)) es (minus_low (nl.syserr2nlerr n)) in
      absurd (cc)

  ended :
      {S : Type 0} (fuel : ℕ) (cb : R → S → Option S) (err : ℤ) (s : S) (w : W)
      → ltb_ℤ (pos 0) err ≡ false
      → recv_loop nl fuel cb err s w ≡ some (err, s, w)
  unfolding recv_loop
  ended zero cb err s w h = ground arith
  ended (suc fuel) cb err s w h = ground arith

  -- Where an answer comes within the calls of nl_recvmsgs that the fuel allows, and the callback
  -- meets no fault on the messages up to it, the loop of nl80211_send_recv ends: the callback has
  -- got these messages, in order, and the result is that of the last answer in its call.
  pub recv_loop-replies :
      {S : Type 0} (fuel : ℕ) (cb : R → S → Option S) (s t : S) (w : W)
      → Answers fuel w
      → fold_cb cb (replies fuel w).0 s ≡ some t
      → recv_loop nl fuel cb (pos 1) s w ≡ some ((replies fuel w).1, t, (replies fuel w).2)
  unfolding recv_loop
  recv_loop-replies zero cb s t w h e = absurd h
  recv_loop-replies (suc fuel) cb s t w (inl now) e =
      let (es, w') = nl.recvmsgs w in
      let all : fold_cb cb (payloads es) s ≡ some t = rw now at e in
      rw (now, run_events_lem cb es (pos 1) s t all) (ended fuel cb (verdict (pos 1) es) t w' now)
  recv_loop-replies (suc fuel) cb s t w (inr (later, h)) e =
      let (es, w') = nl.recvmsgs w in
      let all : fold_cb cb (payloads es ++ (replies fuel w').0) s ≡ some t = rw later at e in
      let (m, front, back) = fold_cb-append cb (payloads es) (replies fuel w').0 s t all in
      rw (later, run_events_lem cb es (pos 1) s m front, verdict_kept (pos 1) es later)
        (recv_loop-replies fuel cb m t w' h back)
