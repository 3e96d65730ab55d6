-- ===== src/Sys/Wpa/Request.antt =====
-- What wpa_ctrl_request of linux/wpa_ctrl.c makes of the messages that come before and with the reply.
use libuwifi.Base.{
  ◌==◌, ◌-◌, Bool-cases, inl, inr, Bool, ℕ, suc, zero, ◌<◌, ◌≤◌, ◌≡◌, refl, sym, ◌∙◌, ap, pos, true,
  false, none, some, List, [], ◌∷◌, ◌++◌, map, length, length-append, length-drop, length-set,
  get_elem?, get_elem?-set_self, take, drop, set, ltb, arith,
}
use mathlib.Core.List.{append-nil, append_assoc}
use libuwifi.Sys.Wpa.{
  returned, interrupted, readable, Sockets, Reply, put_zero, fill, cut, give, is_unsolicited,
  request_loop, wpa_ctrl_request,
}

module _ {ℓ} {A : Type ℓ} where
  take-set_self : (n : ℕ) (xs : List A) (v : A) → take n (set xs n v) ≡ take n xs
  take-set_self zero xs v = refl
  take-set_self (suc n) [] v = refl
  take-set_self (suc n) (x ∷ xs) v = ap (λ l. x ∷ l) (take-set_self n xs v)

  take-append_le : (n : ℕ) (xs ys : List A) → n ≤ length xs → take n (xs ++ ys) ≡ take n xs
  take-append_le zero xs ys h = refl
  take-append_le (suc n) [] ys h = absurd (omega arith)
  take-append_le (suc n) (x ∷ xs) ys h = ap (λ l. x ∷ l) (take-append_le n xs ys (omega arith))

  take-length : (xs : List A) → take (length xs) xs ≡ xs
  take-length [] = refl
  take-length (x ∷ xs) = ap (λ l. x ∷ l) (take-length xs)

take_ge : (n : ℕ) (xs : List ℕ) → length xs ≤ n → take n xs ≡ xs
take_ge zero [] h = refl
take_ge zero (x ∷ xs) h = absurd (omega arith)
take_ge (suc n) [] h = refl
take_ge (suc n) (x ∷ xs) h = ap (λ l. x ∷ l) (take_ge n xs (omega arith))

-- A datagram that fits leaves the length of the buffer.
length-fill :
    (msg : List ℕ) (r : Reply) → length msg ≤ length r.buf → length (fill msg r).buf ≡ length r.buf
length-fill msg r h =
    omega (arith, length-append msg (drop (length msg) r.buf), length-drop {0} (length msg) r.buf)

-- The part of a message that the callback gets: as many bytes as leave room for a zero in the buffer.
abbrev pub clip : ℕ → List ℕ → List ℕ
clip reply_len msg = take (reply_len - 1) msg

-- The bytes that are given are those that the code counts.
take-cut :
    (reply_len : ℕ) (m : List ℕ)
    → length m ≤ reply_len
    → take (cut reply_len (length m)) m ≡ clip reply_len m
take-cut reply_len m fits = elim (Bool-cases (length m == reply_len)) [
  | inl full ↦ rw full refl
  | inr less ↦ rw less (take-length m ∙ sym (take_ge (reply_len - 1) m (ground arith)))
]

-- A message that starts with '<' is no reply.
abbrev pub announces : List ℕ → Bool
announces [] = false
announces (c ∷ cs) = c == b'<'

is_unsolicited-announces : (m : List ℕ) → is_unsolicited m ≡ announces m
is_unsolicited-announces [] = refl
is_unsolicited-announces (c ∷ cs) = refl

module _ {W : Type 0} (sys : Sockets W) (reply_len : ℕ) where
  -- From a world on, the messages `ms` come, all of them unsolicited, and then the reply, which leads to
  -- another world. Waiting may be interrupted.
  pub data Comes : W → List (List ℕ) → List ℕ → W → Type 0 where
    interruption :
        {w w1 w' : W} {ms : List (List ℕ)} {reply : List ℕ}
        → sys.select w ≡ (interrupted, w1)
        → Comes w1 ms reply w'
        → Comes w ms reply w'
    message :
        {w w1 w2 w' : W} {ms : List (List ℕ)} {m reply : List ℕ}
        → sys.select w ≡ (readable, w1)
        → sys.recv reply_len w1 ≡ (some m, w2)
        → announces m ≡ true
        → length m ≤ reply_len
        → Comes w2 ms reply w'
        → Comes w (m ∷ ms) reply w'
    answer :
        {w w1 w' : W} {reply : List ℕ}
        → sys.select w ≡ (readable, w1)
        → sys.recv reply_len w1 ≡ (some reply, w')
        → announces reply ≡ false
        → length reply ≤ reply_len
        → Comes w [] reply w'

  -- The rounds of the loop.
  abbrev pub rounds : {w w' : W} {ms : List (List ℕ)} {reply : List ℕ} → Comes w ms reply w' → ℕ
  rounds (interruption e c) = suc (rounds c)
  rounds (message e f g h c) = suc (rounds c)
  rounds (answer e f g h) = 1

  -- The reply stands in the buffer with a zero behind it, and the messages have been given to the callback.
  pub record Answered (reply : List ℕ) (ms : List (List ℕ)) (r r' : Reply) : Type 0 where
    pub text : take (length reply) r'.buf ≡ reply
    pub end : get_elem? r'.buf (length reply) ≡ some 0
    pub size : length r'.buf ≡ length r.buf
    pub given : r'.given ≡ r.given ++ map (clip reply_len) ms

  -- An unsolicited message that fits is given to the callback.
  give_lem :
      (m : List ℕ) (r : Reply)
      → length r.buf ≡ reply_len
      → length m ≤ reply_len
      → 0 < length m
      → (r' : Reply) × (give true reply_len (length m) (fill m r) ≡ some r')
        × (length r'.buf ≡ reply_len)
        × (r'.given ≡ r.given ++ clip reply_len m ∷ [])
  give_lem m r size fits positive =
      let n = cut reply_len (length m) in
      let filled : length (fill m r).buf ≡ reply_len = length-fill m r (omega arith) ∙ size in
      let inside : ltb n (length (fill m r).buf) ≡ true = rw filled (ground arith) in
      let short : n ≤ length m = ground arith in
      let clipped : take n (set (fill m r).buf n 0) ≡ clip reply_len m =
        take-set_self n (fill m r).buf 0
        ∙ take-append_le n m (drop (length m) r.buf) short
        ∙ take-cut reply_len m fits in
      (
        record {
          buf = set (fill m r).buf n 0;
          given = r.given ++ take n (set (fill m r).buf n 0) ∷ [];
        },
        rw inside refl,
        length-set (fill m r).buf n 0 ∙ filled,
        ap (λ x. r.given ++ x ∷ []) clipped,
      )

  unsolicited_positive : (m : List ℕ) → is_unsolicited m ≡ true → 0 < length m
  unsolicited_positive [] e = absurd (cc)
  unsolicited_positive (c ∷ m) e = omega arith

  -- The buffer behind the reply.
  abbrev final : List ℕ → Reply → Reply
  final reply r = record { buf = set (fill reply r).buf (length reply) 0; given = r.given }

  put_zero_lem :
      (reply : List ℕ) (r : Reply)
      → length r.buf ≡ reply_len
      → length reply < reply_len
      → (put_zero (length reply) (fill reply r) ≡ some (final reply r))
        × Answered reply [] r (final reply r)
  put_zero_lem reply r size fits =
      let n = length reply in
      let filled : length (fill reply r).buf ≡ reply_len =
        length-fill reply r (omega arith) ∙ size in
      let inside : ltb n (length (fill reply r).buf) ≡ true = rw filled (ground arith) in
      (
        rw inside refl,
        record {
          text =
              take-set_self n (fill reply r).buf 0
              ∙ take-append_le n reply (drop n r.buf) (omega arith)
              ∙ take-length reply;
          end = get_elem?-set_self (fill reply r).buf n 0 (omega (arith, filled));
          size = length-set (fill reply r).buf n 0 ∙ filled ∙ sym size;
          given = sym (append-nil r.given);
        },
      )

  -- A reply that is shorter than the buffer.
  pub request_loop-Answered :
      {w w' : W} {ms : List (List ℕ)} {reply : List ℕ} (comes : Comes w ms reply w') (r : Reply)
      → length r.buf ≡ reply_len
      → length reply < reply_len
      → (r' : Reply) × (request_loop sys (rounds comes) true reply_len r w
          ≡ some (returned (pos (length reply)) r' w'))
        × Answered reply ms r r'
  unfolding request_loop
  request_loop-Answered (interruption e c) r size fits =
      let (r', runs, answered) = request_loop-Answered c r size fits in (r', rw e runs, answered)
  request_loop-Answered (message {ms} {m} e f g h c) r size fits =
      let (r1, given, kept, more) =
        give_lem m r size h (unsolicited_positive m (is_unsolicited-announces m ∙ g)) in
      let (r', runs, answered) = request_loop-Answered c r1 kept fits in
      (
        r',
        rw (e, f, is_unsolicited-announces m ∙ g, given) runs,
        record {
          text = answered.text;
          end = answered.end;
          size = answered.size ∙ kept ∙ sym size;
          given =
              answered.given
              ∙ ap (λ g. g ++ map (clip reply_len) ms) more
              ∙ append_assoc r.given (clip reply_len m ∷ []) (map (clip reply_len) ms);
        },
      )
  request_loop-Answered (answer {reply} e f g h) r size fits =
      let (put, answered) = put_zero_lem reply r size fits in
      (final reply r, rw (e, f, is_unsolicited-announces reply ∙ g, put) refl, answered)

  -- A reply that fills the buffer.
  pub request_loop-overrun :
      {w w' : W} {ms : List (List ℕ)} {reply : List ℕ} (comes : Comes w ms reply w') (r : Reply)
      → length r.buf ≡ reply_len
      → length reply ≡ reply_len
      → request_loop sys (rounds comes) true reply_len r w ≡ none
  unfolding request_loop
  request_loop-overrun (interruption e c) r size full = rw e (request_loop-overrun c r size full)
  request_loop-overrun (message {m} e f g h c) r size full =
      let (r1, given, kept, more) =
        give_lem m r size h (unsolicited_positive m (is_unsolicited-announces m ∙ g)) in
      rw (e, f, is_unsolicited-announces m ∙ g, given) (request_loop-overrun c r1 kept full)
  request_loop-overrun (answer {reply} e f g h) r size full =
      let filled : length (fill reply r).buf ≡ reply_len =
        length-fill reply r (omega arith) ∙ size in
      let outside : ltb (length reply) (length (fill reply r).buf) ≡ false =
        rw filled (ground arith) in
      rw (e, f, is_unsolicited-announces reply ∙ g, outside) refl

  -- Where the request is sent, any unsolicited messages come and then a reply that is shorter than
  -- the buffer, wpa_ctrl_request returns the length of the reply, leaves the reply with a zero
  -- behind it in the buffer, and has given the messages to the callback, in order, each without its
  -- last byte if it fills the buffer.
  pub wpa_ctrl_request-Answered :
      (cmd : List ℕ) (w0 : W) {w w' : W} {ms : List (List ℕ)} {reply : List ℕ}
      (comes : Comes w ms reply w') (r : Reply)
      → sys.send cmd w0 ≡ (true, w)
      → length r.buf ≡ reply_len
      → length reply < reply_len
      → (r' : Reply) × (wpa_ctrl_request sys (rounds comes) cmd true reply_len r w0
          ≡ some (returned (pos (length reply)) r' w'))
        × Answered reply ms r r'
  unfolding wpa_ctrl_request
  wpa_ctrl_request-Answered cmd w0 comes r sends size fits =
      let (r', runs, answered) = request_loop-Answered comes r size fits in
      (r', rw sends runs, answered)

  -- Where a request with a callback is sent, any unsolicited messages come and then a reply that
  -- fills the buffer, wpa_ctrl_request writes behind the end of the buffer.
  pub wpa_ctrl_request-overrun :
      (cmd : List ℕ) (w0 : W) {w w' : W} {ms : List (List ℕ)} {reply : List ℕ}
      (comes : Comes w ms reply w') (r : Reply)
      → sys.send cmd w0 ≡ (true, w)
      → length r.buf ≡ reply_len
      → length reply ≡ reply_len
      → wpa_ctrl_request sys (rounds comes) cmd true reply_len r w0 ≡ none
  unfolding wpa_ctrl_request
  wpa_ctrl_request-overrun cmd w0 comes r sends size full =
      rw sends (request_loop-overrun comes r size full)
