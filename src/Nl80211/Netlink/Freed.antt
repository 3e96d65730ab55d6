-- ===== src/Nl80211/Netlink/Freed.antt =====
-- Messages that the functions of linux/netl80211.c allocate and free.
use libuwifi.Base.{
  ℕ, suc, ◌≡◌, refl, sym, subst, ◌∙◌, ap, ℤ, pos, leb_ℤ, Bool, true, false, Option, none, some,
  List, [], ◌∷◌, ◌==◌, Bool-cases, inl, inr,
}
use libuwifi.Base.Run.{pure, proceed, ◌>>=◌, Returns, returns, Returns-bind, Returns-if}
use libuwifi.Nl80211.Receive.{Command, Attr, ifindex, Libnl, fold_cb}
use libuwifi.Nl80211.Receive.Delivered.{Answers, replies, recv_loop-replies}
use libuwifi.Nl80211.Netlink.{
  Link, Msg, give_up, put_attrs, add_attr, new_message, with_attrs, with_index, with_header,
  with_message, msg_prepare, send_recv, sent, allocated,
}
use libuwifi.Sys.Process.{Name}
use libuwifi.Sys.Process.Rules.{same_eq}

-- The message that a function returns is the only one that is allocated besides the old ones.
abbrev pub Holds : {W : Type 0} → List ℕ → Option Msg → Link W → Type 0
Holds old none l = l.msgs ≡ old
Holds old (some m) l = l.msgs ≡ m.ptr ∷ old

-- The message, if any, is at this pointer, and the allocated messages are these.
abbrev pub Stays : {W : Type 0} → List ℕ → ℕ → Option Msg → Link W → Type 0
Stays msgs ptr none l = l.msgs ≡ msgs
Stays msgs ptr (some m) l = (m.ptr ≡ ptr) × (l.msgs ≡ msgs)

module _ {W R : Type 0} (nl : Libnl W R) where
  pub give_up-Returns :
      {A : Type 0} {P : A → Link W → Type 0} (m : ℕ) (a : A) (l : Link W) (old : List ℕ)
      → l.msgs ≡ m ∷ old
      → P a (record l { msgs = old })
      → Returns P (give_up nl m a l)
  give_up-Returns m a l old e p = rw (e, same_eq m) (returns p)

  pub put_attrs-Stays :
      (attrs : List Attr) (m : Msg) (l : Link W)
      → Returns (Stays l.msgs m.ptr) (put_attrs nl attrs m l)
  put_attrs-Stays [] m l = returns (refl, refl)
  put_attrs-Stays (a ∷ rest) m l =
      let (ok, w) = nl.nla_put m.content.attrs a l.world in
      Returns-if ok (put_attrs nl rest (add_attr nl m a)) (pure none)
        (λ e. put_attrs-Stays rest (add_attr nl m a) (record l { world = w })) (λ e. returns refl)

  with_attrs-Holds :
      (ptr : ℕ) (o : Option Msg) (l : Link W) (old : List ℕ)
      → Stays (ptr ∷ old) ptr o l
      → Returns (Holds old) (with_attrs nl ptr o l)
  with_attrs-Holds ptr none l old e = give_up-Returns ptr none l old e refl
  with_attrs-Holds ptr (some m) l old (same, e) = returns (e ∙ ap (λ p. p ∷ old) (sym same))

  with_index-Holds :
      (m : Msg) (index : ℕ) (l : Link W) (old : List ℕ)
      → l.msgs ≡ m.ptr ∷ old
      → Returns (Holds old) (with_index nl m index l)
  with_index-Holds m index l old e =
      Returns-if (index == 0) (give_up nl m.ptr none)
        (put_attrs nl (ifindex index ∷ []) m >>= with_attrs nl m.ptr)
        (λ zero. give_up-Returns m.ptr none l old e refl)
        (λ there. Returns-bind (put_attrs-Stays (ifindex index ∷ []) m l) (λ o l' stays.
          with_attrs-Holds m.ptr o l' old (subst (λ msgs. Stays msgs m.ptr o l') e stays)))

  with_header-Holds :
      (m : Msg) (interface : Option Name) (ok : Bool) (l : Link W) (old : List ℕ)
      → l.msgs ≡ m.ptr ∷ old
      → Returns (Holds old) (with_header nl m interface ok l)
  with_header-Holds m interface false l old e = give_up-Returns m.ptr none l old e refl
  with_header-Holds m none true l old e = returns e
  with_header-Holds m (some name) true l old e =
      let (index, w) = nl.nametoindex name l.world in
      with_index-Holds m index (record l { world = w }) old e

  allocated-Holds :
      (cmd : Command) (interface : Option Name) (ok : Bool) (l : Link W)
      → Returns (Holds l.msgs) (proceed (allocated nl ok l) (with_message nl cmd interface))
  allocated-Holds cmd interface false l = returns refl
  allocated-Holds cmd interface true l =
      let filled = record l { msgs = l.next ∷ l.msgs; next = suc l.next } in
      let (ok, w) = nl.genlmsg_put cmd l.world in
      with_header-Holds (new_message nl cmd l.next) interface ok (record filled { world = w })
        l.msgs refl

  -- nl80211_msg_prepare
  pub msg_prepare-Holds :
      (cmd : Command) (interface : Option Name) (l : Link W)
      → Returns (Holds l.msgs) (msg_prepare nl cmd interface l)
  unfolding msg_prepare
  msg_prepare-Holds cmd interface l =
      let (ok, w) = nl.msg_alloc l.world in
      allocated-Holds cmd interface ok (record l { world = w })

  -- What the functions rely on: a callback structure can be allocated, and an answer comes within the fuel.
  pub record Reliable (fuel : ℕ) : Type 0 where
    pub allocates : (w : W) → (nl.cb_alloc w).0 ≡ true
    pub answers : (w : W) → Answers nl fuel w

  -- The callback meets no fault on the messages that come.
  abbrev pub Handles : {S : Type 0} → ℕ → (R → S → Option S) → S → Type 0
  Handles fuel cb s = (w : W) → (t : _) × (fold_cb cb (replies nl fuel w).0 s ≡ some t)

  module _ {fuel : ℕ} (reliable : Reliable fuel) {S : Type 0} (cb : R → S → Option S) (s : S)
      (handles : Handles fuel cb s) where
    sent-Keeps :
        (err : ℤ) (l : Link W) → Returns (λ _ l'. l'.msgs ≡ l.msgs) (sent nl fuel cb s err l)
    sent-Keeps err l = elim (Bool-cases (leb_ℤ err (pos 0))) [
      | inl failed ↦ rw failed (returns refl)
      | inr waiting ↦
          let (t, e) = handles l.world in
          rw (waiting, recv_loop-replies nl fuel cb s t l.world (reliable.answers l.world) e)
            (returns refl)
    ]

    -- nl80211_send_recv frees its message.
    pub send_recv-Frees :
        (m : Msg) (l : Link W) (old : List ℕ)
        → l.msgs ≡ m.ptr ∷ old
        → Returns (λ _ l'. l'.msgs ≡ old) (send_recv nl fuel cb s m l)
    unfolding send_recv
    send_recv-Frees m l old e =
        let w = (nl.cb_alloc l.world).1 in
        let (err, v) = nl.send_auto_complete m.content w in
        rw (reliable.allocates l.world, e, same_eq m.ptr, same_eq m.ptr)
          (sent-Keeps err (record { world = v; msgs = old; next = l.next; cbs = suc l.cbs }))
