-- ===== src/Nl80211/Listener.antt =====
-- ifctrl_iw_event_init_socket and ifctrl_iw_event_receive of linux/ifctrl-nl80211.c: the socket for events.
use libuwifi.Base.{
  ℕ, suc, ℤ, pos, minus_one, ltb_ℤ, ◌==ℤ◌, Bool, true, false, Option, none, some, List, [], ◌∷◌,
  if◌then◌else◌,
}
use libuwifi.Base.Faults.{◌>>=◌ as bind}
use libuwifi.Base.Run.{Run, pure, ◌>>=◌}
use libuwifi.Nl80211.Events.{EventMsg, Report, event_cb}
use libuwifi.Nl80211.Groups.{GroupAttrs, get_multicast_id}
use libuwifi.Nl80211.Netlink.{Link, ask_nl}
use libuwifi.Nl80211.Receive.{Libnl}
use libuwifi.Nl80211.Socket.{SocketLib, Module}
use libuwifi.Sys.Process.{Name}

-- nl_socket_add_membership, which is 0 for success, the three calls that set up the socket, nl_socket_get_fd,
-- and the messages for which nl_recvmsgs_default calls the callback.
pub record ListenLib (V : Type 0) : Type 0 where
  pub add_membership : ℕ → ℤ → V → ℤ × V
  pub set_up : ℕ → V → Unit {0} × V
  pub get_fd : ℕ → V → ℤ × V
  pub events : ℕ → V → List EventMsg × V

-- NL80211_GENL_NAME
abbrev pub genl_name : Name
genl_name = b'n' ∷ b'l' ∷ b'8' ∷ b'0' ∷ b'2' ∷ b'1' ∷ b'1' ∷ []

abbrev pub grp_names : List Name
grp_names =
    (b'c' ∷ b'o' ∷ b'n' ∷ b'f' ∷ b'i' ∷ b'g' ∷ [])
    ∷ (b's' ∷ b'c' ∷ b'a' ∷ b'n' ∷ [])
    ∷ (b'r' ∷ b'e' ∷ b'g' ∷ b'u' ∷ b'l' ∷ b'a' ∷ b't' ∷ b'o' ∷ b'r' ∷ b'y' ∷ [])
    ∷ (b'm' ∷ b'l' ∷ b'm' ∷ b'e' ∷ [])
    ∷ []

-- The arguments of the calls of the user's callback, one for each message.
abbrev pub reports : List EventMsg → Option (List Report)
reports [] = some []
reports (e ∷ es) = bind (event_cb e) (λ r. bind (reports es) (λ rs. some (r ∷ rs)))

-- The world of libnl is the module with its sockets.
module _ {V R : Type 0} (lib : SocketLib V) (listen : ListenLib V) (nl : Libnl (Module V) R)
    (fuel : ℕ) (groups : R → Option (List GroupAttrs)) where
  abbrev pub on_world : {A : Type 0} → (V → A × V) → Run (Link (Module V)) A
  on_world answer = ask_nl nl (λ m. let (a, w) = answer m.world in (a, record m { world = w }))

  -- `nl_event = nl_socket_alloc()`
  abbrev pub event_socket : Module V → Option ℕ × Module V
  event_socket m =
      let (ok, w) = lib.socket_alloc m.world in
      if ok
      then (
        some m.next,
        record m { world = w; socks = m.next ∷ m.socks; next = suc m.next; nl_event = some m.next },
      )
      else (none, record m { world = w; nl_event = none })

  -- The loop over the groups, of which those that are not found are left out: whether it ends.
  abbrev pub join_groups : ℕ → List Name → Run (Link (Module V)) Bool
  join_groups s [] = pure true
  join_groups s (group ∷ rest) =
      let others = join_groups s rest in
      get_multicast_id nl fuel groups genl_name group >>= λ mcid.
      if ltb_ℤ mcid (pos 0)
      then others
      else (on_world (listen.add_membership s mcid) >>= λ ret.
          if ret ==ℤ pos 0 then others else pure false)

  abbrev pub listening : ℕ → Bool → Run (Link (Module V)) ℤ
  listening s false = pure minus_one
  listening s true = on_world (listen.set_up s) >>= λ done. on_world (listen.get_fd s)

  abbrev pub event_connected : ℕ → ℤ → Run (Link (Module V)) ℤ
  event_connected s ret =
      if ret ==ℤ pos 0 then (join_groups s grp_names >>= listening s) else pure minus_one

  abbrev pub event_connect : Option ℕ → Run (Link (Module V)) ℤ
  event_connect none = pure minus_one
  event_connect (some s) = on_world (lib.genl_connect s) >>= event_connected s

  -- ifctrl_iw_event_init_socket
  unfoldable pub event_init_socket : Run (Link (Module V)) ℤ
  event_init_socket = ask_nl nl event_socket >>= event_connect

  -- What ifctrl_iw_event_receive reports, for the variable `nl_event`.
  abbrev pub receive_from : Option ℕ → Run (Link (Module V)) (List Report)
  receive_from none = pure []
  receive_from (some s) =
      on_world (listen.events s) >>= λ es l. bind (reports es) (λ rs. some (rs, l))

  -- ifctrl_iw_event_receive
  unfoldable pub event_receive : Run (Link (Module V)) (List Report)
  event_receive l = receive_from l.world.nl_event l
