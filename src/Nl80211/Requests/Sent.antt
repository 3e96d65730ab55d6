-- ===== src/Nl80211/Requests/Sent.antt =====
-- What the requests of linux/ifctrl-nl80211.c send.
use libuwifi.Base.{
  ℕ, suc, zero, ◌≡◌, refl, subst, ◌∙◌, ap, ◌⊎◌, inl, inr, ℤ, pos, ltb_ℤ, leb_ℤ, Bool, true, false,
  not, Option, none, some, List, [], ◌∷◌, ◌++◌, if◌then◌else◌, Bool-cases, Option-cases,
}
use mathlib.Core.List.{append-nil}
use libuwifi.Base.Run.{Yields, Yields-bind}
use libuwifi.Nl80211.Receive.Delivered.{replies, recv_loop-replies}
use libuwifi.Nl80211.Netlink.Freed.{Reliable, Handles}
use libuwifi.Nl80211.Receive.{Command, Attr, Message, Libnl, run_events, recv_loop}
use libuwifi.Nl80211.Netlink.{Link, Msg, give_up, put_attrs, msg_prepare, send_recv, with_cb, sent}
use libuwifi.Nl80211.Requests.{set_dump, send_or_free, fill_and_send, query}
use libuwifi.Store.{contains}
use libuwifi.Sys.Process.{Name}
use libuwifi.Nl80211.Requests.Prepared.{
  Observed, Prepared, extend, index_attrs, message, put_attrs-Prepared, msg_prepare-Prepared,
}

module _ {W R : Type 0} (nl : Libnl W R) (seen : Observed nl) where
  -- The message behind its header and its flags.
  started-message :
      (dump : Bool) (cmd : Command) (interface : Option Name) (attrs : List Attr) (msg : Msg)
      → msg.content ≡ message nl seen cmd interface false []
      → extend nl seen (if dump then set_dump msg else msg).content attrs
        ≡ message nl seen cmd interface dump attrs
  started-message true cmd interface attrs msg same =
      ap (λ (x : Message). record x { dump = true; attrs = x.attrs ++ attrs }) same
      ∙ ap (λ y. record (message nl seen cmd interface true []) { attrs = y ++ attrs })
          (append-nil (index_attrs nl seen interface))
  started-message false cmd interface attrs msg same =
      ap (λ (x : Message). extend nl seen x attrs) same
      ∙ ap (λ y. record (message nl seen cmd interface false []) { attrs = y ++ attrs })
          (append-nil (index_attrs nl seen interface))

  -- The message is sent, and the result is that of the last answer in the world behind.
  abbrev pub IsAnswered : ℕ → List Message → Bool → Link W → Type 0
  IsAnswered fuel sent_now ok l =
      (w : W) × (seen.log w ≡ sent_now)
      × (seen.log l.world ≡ sent_now)
      × (ok ≡ not (ltb_ℤ (replies nl fuel w).1 (pos 0)))

  -- Nothing is sent, and the result is false; or the message is sent and answered.
  abbrev pub Sends : {S : Type 0} → ℕ → List Message → Message → Bool × S → Link W → Type 0
  Sends fuel old m r l =
      ((seen.log l.world ≡ old) × (r.0 ≡ false)) ⊎ IsAnswered fuel (old ++ m ∷ []) r.0 l

  abbrev LoopKeeps : {S : Type 0} → List Message → Option (ℤ × S × W) → Type 0
  LoopKeeps old none = Unit {0}
  LoopKeeps old (some (err, s, w)) = seen.log w ≡ old

  recv_loop-LoopKeeps :
      {S : Type 0} (cb : R → S → Option S) (fuel : ℕ) (err : ℤ) (s : S) (w : W) (old : List Message)
      → seen.log w ≡ old
      → LoopKeeps old (recv_loop nl fuel cb err s w)
  unfolding recv_loop
  recv_loop-LoopKeeps cb zero err s w old e = elim (Bool-cases (ltb_ℤ (pos 0) err)) [
    | inl waits ↦ rw waits tt
    | inr ended ↦ rw ended e
  ]
  recv_loop-LoopKeeps cb (suc fuel) err s w old e = elim (Bool-cases (ltb_ℤ (pos 0) err)) [
    | inr ended ↦ rw ended e
    | inl waits ↦ elim (Option-cases (run_events nl cb (nl.recvmsgs w).0 err s)) [
      | inl fault ↦ rw (waits, fault) tt
      | inr (r, runs) ↦
          rw (waits, runs)
            (recv_loop-LoopKeeps cb fuel r.0 r.1 (nl.recvmsgs w).1 old (seen.recvmsgs_log w ∙ e))
    ]
  ]

  module _ {fuel : ℕ} (reliable : Reliable nl fuel) {S : Type 0} (cb : R → S → Option S) (s : S)
      (handles : Handles nl fuel cb s) where
    sent-Sends :
        (old : List Message) (m : Message) (err : ℤ) (l : Link W)
        → (leb_ℤ err (pos 0) ≡ true → seen.log l.world ≡ old)
        → (leb_ℤ err (pos 0) ≡ false → seen.log l.world ≡ old ++ m ∷ [])
        → Yields (Sends fuel old m) (sent nl fuel cb s err l)
    sent-Sends old m err l failed done = elim (Bool-cases (leb_ℤ err (pos 0))) [
      | inl no_more ↦ rw no_more (inl (failed no_more, refl))
      | inr more ↦
          let (t, all) = handles l.world in
          let ends = recv_loop-replies nl fuel cb s t l.world (reliable.answers l.world) all in
          let kept = recv_loop-LoopKeeps cb fuel (pos 1) s l.world (old ++ m ∷ []) (done more) in
          rw (more, ends)
            (inr (l.world, done more, subst (LoopKeeps (old ++ m ∷ [])) ends kept, refl))
    ]

    with_cb-Sends :
        (m : Msg) (ok : Bool) (l : Link W) (old : List Message)
        → seen.log l.world ≡ old
        → Yields (Sends fuel old m.content) (with_cb nl fuel cb s m ok l)
    with_cb-Sends m false l old e = inl (e, refl)
    with_cb-Sends m true l old e = elim (Bool-cases (contains m.ptr l.msgs)) [
      | inr gone ↦ rw gone tt
      | inl there ↦
          let (err, w) = nl.send_auto_complete m.content l.world in
          rw (there, there)
            (sent-Sends old m.content err _
              (λ failed. seen.send_failed m.content l.world failed ∙ e)
              (λ done. seen.send_done m.content l.world done ∙ ap (λ x. x ++ m.content ∷ []) e))
    ]

    send_recv-Sends :
        (m : Msg) (l : Link W) (old : List Message)
        → seen.log l.world ≡ old
        → Yields (Sends fuel old m.content) (send_recv nl fuel cb s m l)
    unfolding send_recv
    send_recv-Sends m l old e =
        with_cb-Sends m (nl.cb_alloc l.world).0 (record l { world = (nl.cb_alloc l.world).1 }) old
          (seen.cb_alloc_log l.world ∙ e)

    give_up-Sends :
        (ptr : ℕ) (l : Link W) (old : List Message) (m : Message)
        → seen.log l.world ≡ old
        → Yields (Sends fuel old m) (give_up nl ptr (false, s) l)
    give_up-Sends ptr l old m e = elim (Bool-cases (contains ptr l.msgs)) [
      | inl there ↦ rw there (inl (e, refl))
      | inr gone ↦ rw gone tt
    ]

    send_or_free-Sends :
        (ptr : ℕ) (o : Option Msg) (l : Link W) (old : List Message) (m : Message)
        → Prepared nl seen old m o l
        → Yields (Sends fuel old m) (send_or_free nl fuel cb s ptr o l)
    send_or_free-Sends ptr none l old m e = give_up-Sends ptr l old m e
    send_or_free-Sends ptr (some msg) l old m (e, same) =
        subst (λ x. Yields (Sends fuel old x) (send_recv nl fuel cb s msg l)) same
          (send_recv-Sends msg l old e)

    fill_and_send-Sends :
        (dump : Bool) (cmd : Command) (interface : Option Name) (attrs : List Attr) (o : Option Msg)
        (l : Link W) (old : List Message)
        → Prepared nl seen old (message nl seen cmd interface false []) o l
        → Yields
            (Sends fuel old (message nl seen cmd interface dump attrs))
            (fill_and_send nl fuel cb s dump attrs o l)
    fill_and_send-Sends dump cmd interface attrs none l old e = inl (e, refl)
    fill_and_send-Sends dump cmd interface attrs (some msg) l old (e, same) =
        let start = if dump then set_dump msg else msg in
        let content : extend nl seen start.content attrs
            ≡ message nl seen cmd interface dump attrs =
          started-message dump cmd interface attrs msg same in
        Yields-bind (Prepared nl seen old (extend nl seen start.content attrs))
          (Sends fuel old (message nl seen cmd interface dump attrs)) (put_attrs nl attrs start l)
          (send_or_free nl fuel cb s msg.ptr) (put_attrs-Prepared nl seen attrs start l old e)
          (λ o l' p.
            subst (λ x. Yields (Sends fuel old x) (send_or_free nl fuel cb s msg.ptr o l')) content
              (send_or_free-Sends msg.ptr o l' old (extend nl seen start.content attrs) p))

    -- A request with a callback.
    pub query-Sends :
        (cmd : Command) (interface : Option Name) (dump : Bool) (attrs : List Attr) (l : Link W)
        → Yields
            (Sends fuel (seen.log l.world) (message nl seen cmd interface dump attrs))
            (query nl fuel cmd interface dump attrs cb s l)
    query-Sends cmd interface dump attrs l =
        let old = seen.log l.world in
        Yields-bind (Prepared nl seen old (message nl seen cmd interface false []))
          (Sends fuel old (message nl seen cmd interface dump attrs))
          (msg_prepare nl cmd interface l) (fill_and_send nl fuel cb s dump attrs)
          (msg_prepare-Prepared nl seen cmd interface l)
          (λ o l' p. fill_and_send-Sends dump cmd interface attrs o l' old p)
