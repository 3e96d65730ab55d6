-- ===== src/Nl80211/Requests/Prepared.antt =====
-- The messages that nl80211_msg_prepare and NLA_PUT make for the requests of linux/ifctrl-nl80211.c.
use libuwifi.Base.{
  ℕ, suc, ◌≡◌, refl, sym, subst, ◌∙◌, ap, inl, inr, pos, leb_ℤ, Bool, true, false, Option, none,
  some, List, [], ◌∷◌, ◌++◌, ◌==◌, Bool-cases,
}
use mathlib.Core.List.{append_assoc, append-nil}
use libuwifi.Base.Run.{pure, proceed, ◌>>=◌, Yields, Yields-bind, Yields-if}
use libuwifi.Nl80211.Receive.{Command, Attr, ifindex, Message, Libnl}
use libuwifi.Nl80211.Netlink.{
  Link, Msg, allocated, give_up, put_attrs, add_attr, new_message, with_attrs, with_index,
  with_header, with_message, msg_prepare,
}
use libuwifi.Store.{contains}
use libuwifi.Sys.Process.{Name}

-- What can be seen of the messages that have been sent, and of the indexes of interfaces.
pub record Observed {W R : Type 0} (nl : Libnl W R) : Type 0 where
  pub log : W → List Message
  pub index : Name → ℕ
  pub msg_alloc_log : (w : W) → log (nl.msg_alloc w).1 ≡ log w
  pub genlmsg_put_log : (cmd : Command) (w : W) → log (nl.genlmsg_put cmd w).1 ≡ log w
  pub nametoindex_log : (name : Name) (w : W) → log (nl.nametoindex name w).1 ≡ log w
  pub nametoindex_index : (name : Name) (w : W) → (nl.nametoindex name w).0 ≡ index name
  pub nla_put_log : (attrs : List Attr) (a : Attr) (w : W) → log (nl.nla_put attrs a w).1 ≡ log w
  pub cb_alloc_log : (w : W) → log (nl.cb_alloc w).1 ≡ log w
  pub recvmsgs_log : (w : W) → log (nl.recvmsgs w).1 ≡ log w
  pub send_failed :
      (m : Message) (w : W)
      → leb_ℤ (nl.send_auto_complete m w).0 (pos 0) ≡ true
      → log (nl.send_auto_complete m w).1 ≡ log w
  pub send_done :
      (m : Message) (w : W)
      → leb_ℤ (nl.send_auto_complete m w).0 (pos 0) ≡ false
      → log (nl.send_auto_complete m w).1 ≡ log w ++ m ∷ []

module _ {W R : Type 0} (nl : Libnl W R) (seen : Observed nl) where
  -- The message has this content, if there is one, and nothing was sent.
  abbrev pub Prepared : List Message → Message → Option Msg → Link W → Type 0
  Prepared old m none l = seen.log l.world ≡ old
  Prepared old m (some msg) l = (seen.log l.world ≡ old) × (msg.content ≡ m)

  abbrev pub extend : Message → List Attr → Message
  extend m attrs = record m { attrs = m.attrs ++ attrs }

  give_up-Prepared :
      (old : List Message) (m : Message) (ptr : ℕ) (l : Link W)
      → seen.log l.world ≡ old
      → Yields (Prepared old m) (give_up nl ptr none l)
  give_up-Prepared old m ptr l e = elim (Bool-cases (contains ptr l.msgs)) [
    | inl there ↦ rw there e
    | inr gone ↦ rw gone tt
  ]

  pub put_attrs-Prepared :
      (attrs : List Attr) (m : Msg) (l : Link W) (old : List Message)
      → seen.log l.world ≡ old
      → Yields (Prepared old (extend m.content attrs)) (put_attrs nl attrs m l)
  put_attrs-Prepared [] m l old e =
      (e, ap (λ x. record (m.content) { attrs = x }) (sym (append-nil m.content.attrs)))
  put_attrs-Prepared (a ∷ rest) m l old e =
      let (ok, w) = nl.nla_put m.content.attrs a l.world in
      let same : seen.log w ≡ old = seen.nla_put_log m.content.attrs a l.world ∙ e in
      let more = put_attrs nl rest (add_attr nl m a) in
      let goal = λ (x : List Attr). Prepared old (record (m.content) { attrs = x }) in
      Yields-if (goal (m.content.attrs ++ a ∷ rest)) ok more (pure none) (record l { world = w })
        (λ fits.
          subst (λ x. Yields (goal x) (more (record l { world = w })))
            (append_assoc m.content.attrs (a ∷ []) rest)
            (put_attrs-Prepared rest (add_attr nl m a) (record l { world = w }) old same))
        (λ full. same)

  -- A message whose attributes are in, or that is given up.
  with_attrs-Prepared :
      (old : List Message) (m : Message) (ptr : ℕ) (o : Option Msg) (l : Link W)
      → Prepared old m o l
      → Yields (Prepared old m) (with_attrs nl ptr o l)
  with_attrs-Prepared old m ptr none l e = give_up-Prepared old m ptr l e
  with_attrs-Prepared old m ptr (some msg) l e = e

  -- The attribute for the interface, if one is named.
  abbrev pub index_attrs : Option Name → List Attr
  index_attrs none = []
  index_attrs (some name) = ifindex (seen.index name) ∷ []

  abbrev pub message : Command → Option Name → Bool → List Attr → Message
  message cmd interface dump attrs = record {
    cmd = cmd;
    dump = dump;
    attrs = index_attrs interface ++ attrs;
  }

  with_index-Prepared :
      (old : List Message) (cmd : Command) (ptr : ℕ) (name : Name) (index : ℕ) (l : Link W)
      → seen.log l.world ≡ old
      → index ≡ seen.index name
      → Yields
          (Prepared old (message cmd (some name) false []))
          (with_index nl (new_message nl cmd ptr) index l)
  with_index-Prepared old cmd ptr name index l e at =
      let m = new_message nl cmd ptr in
      let goal = λ (i : ℕ). Prepared old (record (m.content) { attrs = ifindex i ∷ [] }) in
      subst (λ i. Yields (goal i) (with_index nl m index l)) at
        (Yields-if (goal index) (index == 0) (give_up nl ptr none)
          (put_attrs nl (ifindex index ∷ []) m >>= with_attrs nl ptr) l
          (λ unknown.
            give_up-Prepared old (record (m.content) { attrs = ifindex index ∷ [] }) ptr l e)
          (λ known.
            Yields-bind (goal index) (goal index) (put_attrs nl (ifindex index ∷ []) m l)
              (with_attrs nl ptr) (put_attrs-Prepared (ifindex index ∷ []) m l old e)
              (λ o l' p. with_attrs-Prepared old _ ptr o l' p)))

  with_header-Prepared :
      (old : List Message) (cmd : Command) (ptr : ℕ) (interface : Option Name) (ok : Bool)
      (l : Link W)
      → seen.log l.world ≡ old
      → Yields
          (Prepared old (message cmd interface false []))
          (with_header nl (new_message nl cmd ptr) interface ok l)
  with_header-Prepared old cmd ptr interface false l e = give_up-Prepared old _ ptr l e
  with_header-Prepared old cmd ptr none true l e = (e, refl)
  with_header-Prepared old cmd ptr (some name) true l e =
      with_index-Prepared old cmd ptr name (nl.nametoindex name l.world).0
        (record l { world = (nl.nametoindex name l.world).1 })
        (seen.nametoindex_log name l.world ∙ e) (seen.nametoindex_index name l.world)

  allocated-Prepared :
      (old : List Message) (cmd : Command) (interface : Option Name) (ok : Bool) (l : Link W)
      → seen.log l.world ≡ old
      → Yields
          (Prepared old (message cmd interface false []))
          (proceed (allocated nl ok l) (with_message nl cmd interface))
  allocated-Prepared old cmd interface false l e = e
  allocated-Prepared old cmd interface true l e =
      with_header-Prepared old cmd l.next interface (nl.genlmsg_put cmd l.world).0
        (record l {
          world = (nl.genlmsg_put cmd l.world).1;
          msgs = l.next ∷ l.msgs;
          next = suc l.next;
        })
        (seen.genlmsg_put_log cmd l.world ∙ e)

  pub msg_prepare-Prepared :
      (cmd : Command) (interface : Option Name) (l : Link W)
      → Yields
          (Prepared (seen.log l.world) (message cmd interface false []))
          (msg_prepare nl cmd interface l)
  unfolding msg_prepare
  msg_prepare-Prepared cmd interface l =
      allocated-Prepared (seen.log l.world) cmd interface (nl.msg_alloc l.world).0
        (record l { world = (nl.msg_alloc l.world).1 }) (seen.msg_alloc_log l.world)
