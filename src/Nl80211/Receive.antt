-- ===== src/Nl80211/Receive.antt =====
-- linux/netl80211.c: the messages that come, and the loop of nl80211_send_recv that waits for an answer.
pub mod Delivered
use libuwifi.Base.{
  ℕ, suc, zero, ℤ, pos, negsuc, ltb_ℤ, Bool, true, false, Option, none, some, List, [], ◌∷◌, ◌>>=◌,
  if◌then◌else◌,
}
use libuwifi.Nl80211.Settings.{NlWidth}
use libuwifi.Sys.Process.{Name}

-- The commands NL80211_CMD_* that are sent, and CTRL_CMD_GETFAMILY.
pub data Command : Type 0 where
  new_interface del_interface set_interface get_interface connect disconnect : Command
  set_channel get_station get_survey get_wiphy get_family : Command

-- The attributes NL80211_ATTR_* that are sent, and CTRL_ATTR_FAMILY_NAME.
pub data Attr : Type 0 where
  ifindex : ℕ → Attr
  wiphy : ℕ → Attr
  ifname : Name → Attr
  iftype : ℕ → Attr
  ssid : List ℕ → Attr
  wiphy_freq : ℕ → Attr
  channel_width : NlWidth → Attr
  center_freq1 : ℕ → Attr
  mac : List ℕ → Attr
  family_name : Name → Attr

-- A message: its command, whether NLM_F_DUMP is set, and its attributes.
pub record Message : Type 0 where
  pub cmd : Command
  pub dump : Bool
  pub attrs : List Attr

-- What the callbacks of one call of nl_recvmsgs are called for: a valid message, which the library has
-- received, an acknowledgement, the end of a dump, or an error with its code.
pub data Event (R : Type 0) : Type 0 where
  valid : R → Event R
  ack : Event R
  finish : Event R
  error : ℤ → Event R

-- libnl and if_nametoindex. A Boolean is true for success; `syserr2nlerr` is nl_syserr2nlerr, whose codes are
-- not negative; `ctrl_resolve` is genl_ctrl_resolve.
pub record Libnl (W R : Type 0) : Type 0 where
  pub msg_alloc : W → Bool × W
  pub genlmsg_put : Command → W → Bool × W
  pub nametoindex : Name → W → ℕ × W
  pub nla_put : List Attr → Attr → W → Bool × W
  pub cb_alloc : W → Bool × W
  pub ctrl_resolve : Name → W → ℤ × W
  pub send_auto_complete : Message → W → ℤ × W
  pub recvmsgs : W → List (Event R) × W
  pub syserr2nlerr : ℤ → ℕ

-- -n
abbrev pub minus : ℕ → ℤ
minus zero = pos 0
minus (suc n) = negsuc n

abbrev pub fold_cb : {R S : Type 0} → (R → S → Option S) → List R → S → Option S
fold_cb cb [] s = some s
fold_cb cb (r ∷ rs) s = cb r s >>= λ s'. fold_cb cb rs s'

module _ {W R : Type 0} (nl : Libnl W R) where
  -- The callbacks of one call of nl_recvmsgs: `err` and the argument of the callback behind them.
  abbrev pub run_events :
      {S : Type 0} → (R → S → Option S) → List (Event R) → ℤ → S → Option (ℤ × S)
  run_events cb [] err s = some (err, s)
  run_events cb (valid r ∷ es) err s = (cb r s >>= λ s'. run_events cb es err s')
  run_events cb (ack ∷ es) err s = run_events cb es (pos 0) s
  run_events cb (finish ∷ es) err s = run_events cb es (pos 0) s
  run_events cb (error e ∷ es) err s = run_events cb es (minus (nl.syserr2nlerr e)) s

  -- The loop of nl80211_send_recv while err > 0, on fuel: `none` also means that the fuel is gone.
  unfoldable pub recv_loop : {S : Type 0} → ℕ → (R → S → Option S) → ℤ → S → W → Option (ℤ × S × W)
  recv_loop zero cb err s w = if ltb_ℤ (pos 0) err then none else some (err, s, w)
  recv_loop (suc fuel) cb err s w =
      let (events, w') = nl.recvmsgs w in
      let rest = run_events cb events err s >>= λ r. recv_loop fuel cb r.0 r.1 w' in
      if ltb_ℤ (pos 0) err then rest else some (err, s, w)
