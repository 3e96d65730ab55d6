-- ===== src/Nl80211/Netlink.antt =====
-- linux/netl80211.c: netlink messages, which libnl allocates, fills and sends, and their answers.
pub mod Freed
use libuwifi.Base.{
  ℕ, suc, zero, ℤ, pos, negsuc, ltb_ℤ, leb_ℤ, Bool, true, false, not, Option, none, some, List, [],
  ◌∷◌, ◌++◌, ◌==◌, ◌-◌, if◌then◌else◌,
}
use libuwifi.Base.Run.{Run, pure, ◌>>=◌, ◌>>◌}
use libuwifi.Nl80211.Settings.{NlWidth}
use libuwifi.Nl80211.Receive.{Command, Attr, ifindex, Message, Libnl, recv_loop}
use libuwifi.Store.{contains, remove}
use libuwifi.Sys.Process.{Name}

-- The world, the messages that are allocated, the next one, and the number of callback structures.
pub record Link (W : Type 0) : Type 0 where
  pub world : W
  pub msgs : List ℕ
  pub next : ℕ
  pub cbs : ℕ

-- A pointer to a message with what stands in it.
pub record Msg : Type 0 where
  pub ptr : ℕ
  pub content : Message

module _ {W R : Type 0} (nl : Libnl W R) where
  abbrev pub ask_nl : {A : Type 0} → (W → A × W) → Run (Link W) A
  ask_nl answer l = let (a, w) = answer l.world in some (a, record l { world = w })

  -- nlmsg_alloc
  abbrev pub allocated : Bool → Run (Link W) (Option ℕ)
  allocated ok l =
      if ok
      then some (some l.next, record l { msgs = l.next ∷ l.msgs; next = suc l.next })
      else some (none, l)

  -- nlmsg_free. A message that is not allocated is a fault.
  abbrev pub msg_free : ℕ → Run (Link W) (Unit {0})
  msg_free m l = if contains m l.msgs then some (tt, record l { msgs = remove m l.msgs }) else none

  -- The label nla_put_failure: the message is freed.
  abbrev pub give_up : {A : Type 0} → ℕ → A → Run (Link W) A
  give_up m a = msg_free m >> pure a

  abbrev pub add_attr : Msg → Attr → Msg
  add_attr m a = record m { content = record (m.content) { attrs = m.content.attrs ++ a ∷ [] } }

  -- NLA_PUT, for one attribute behind the other: the message, or `none` where one has no room.
  abbrev pub put_attrs : List Attr → Msg → Run (Link W) (Option Msg)
  put_attrs [] m = pure (some m)
  put_attrs (a ∷ rest) m = ask_nl (nl.nla_put m.content.attrs a) >>= λ ok.
      if ok then put_attrs rest (add_attr m a) else pure none

  abbrev pub new_message : Command → ℕ → Msg
  new_message cmd m = record { ptr = m; content = record { cmd = cmd; dump = false; attrs = [] } }

  -- The message behind the index of its interface, or behind nla_put_failure.
  abbrev pub with_attrs : ℕ → Option Msg → Run (Link W) (Option Msg)
  with_attrs m none = give_up m none
  with_attrs m (some filled) = pure (some filled)

  abbrev pub with_index : Msg → ℕ → Run (Link W) (Option Msg)
  with_index m index =
      if index == 0
      then give_up m.ptr none
      else (put_attrs (ifindex index ∷ []) m >>= with_attrs m.ptr)

  abbrev pub with_header : Msg → Option Name → Bool → Run (Link W) (Option Msg)
  with_header m interface false = give_up m.ptr none
  with_header m none true = pure (some m)
  with_header m (some name) true = ask_nl (nl.nametoindex name) >>= with_index m

  abbrev pub with_message : Command → Option Name → Option ℕ → Run (Link W) (Option Msg)
  with_message cmd interface none = pure none
  with_message cmd interface (some m) =
      ask_nl (nl.genlmsg_put cmd) >>= with_header (new_message cmd m) interface

  -- nl80211_msg_prepare: the message, or `none` for false.
  unfoldable pub msg_prepare : Command → Option Name → Run (Link W) (Option Msg)
  msg_prepare cmd interface = ask_nl nl.msg_alloc >>= allocated >>= with_message cmd interface

  -- The end of nl80211_send_recv: nl_cb_put, and the result.
  abbrev pub received : {S : Type 0} → Option (ℤ × S × W) → Run (Link W) (Bool × S)
  received none l = none
  received (some (err, s, w)) l =
      some ((not (ltb_ℤ err (pos 0)), s), record l { world = w; cbs = l.cbs - 1 })

  -- nl80211_send_recv from the sending of the message on.
  abbrev pub sent : {S : Type 0} → ℕ → (R → S → Option S) → S → ℤ → Run (Link W) (Bool × S)
  sent fuel cb s err l =
      if leb_ℤ err (pos 0)
      then some ((false, s), l)
      else received (recv_loop nl fuel cb (pos 1) s l.world) l

  -- A freed message cannot be sent.
  abbrev pub send_msg : Msg → Run (Link W) ℤ
  send_msg m l = if contains m.ptr l.msgs then ask_nl (nl.send_auto_complete m.content) l else none

  abbrev pub with_cb :
      {S : Type 0} → ℕ → (R → S → Option S) → S → Msg → Bool → Run (Link W) (Bool × S)
  with_cb fuel cb s m false l = some ((false, s), l)
  with_cb fuel cb s m true l =
      (send_msg m >>= λ err. msg_free m.ptr >> sent fuel cb s err) (record l { cbs = suc l.cbs })

  -- nl80211_send_recv: the result, and the argument of the callback behind it.
  unfoldable pub send_recv :
      {S : Type 0} → ℕ → (R → S → Option S) → S → Msg → Run (Link W) (Bool × S)
  send_recv fuel cb s m = ask_nl nl.cb_alloc >>= with_cb fuel cb s m

  -- nl80211_send, whose callback ignores the messages.
  abbrev pub send : ℕ → Msg → Run (Link W) Bool
  send fuel m = send_recv fuel (λ r s. some s) tt m >>= λ r. pure r.0
