-- ===== src/Sys/Interface/Owned.antt =====
-- The resources that uwifi_init of linux/interface.c takes.
use libuwifi.Base.{
  ℕ, suc, zero, ◌<◌, ◌≡◌, refl, ◌∙◌, ℤ, pos, Bool, true, false, Option, none, some, List, ◌∷◌, ◌==◌,
  ltb_ℤ, arith,
}
use libuwifi.Base.Run.{proceed, ◌>>=◌, Returns, returns, Returns-bind, Returns-if}
use libuwifi.Channel.Change.Init.{Known, got, channel_init-Succeeds}
use libuwifi.Nl80211.Settings.{IfInfo}
use libuwifi.Sys.Process.{Process, Name, ask, take_fd}
use libuwifi.Sys.Process.Rules.{with_fd-Returns, contains_head}
use libuwifi.Sys.Netdev.Released.{get_hwinfo-Releases, set_up_promisc-Releases}
use libuwifi.Sys.Packet.{PacketSockets, Exit, exit, goes_on, packet_socket_open, bind_socket, bound}
use libuwifi.Sys.Interface.{
  Device, Services, uwifi_init, socket_opened, brought_up, check_type, informed, init_channels,
  failed, started, if_info, with_info, is_monitor_type,
}

-- A socket that is not descriptor 0, open in front of the others.
abbrev pub IsSocket : ℤ → List ℕ → List ℕ → Type 0
IsSocket sock fds old = (k : ℕ) × (sock ≡ pos (suc k)) × (fds ≡ suc k ∷ old)

abbrev Bound : {W : Type 0} → List ℕ → Exit ℤ → Process W → Type 0
Bound old exit q = Unit {0}
Bound old (goes_on sock) q = IsSocket sock q.fds old

module _ {W : Type 0} (sockets : PacketSockets W) (name : Name)
    (exists : (w : W) → 0 < (sockets.nametoindex name w).0)
    (not_zero : (w : W) (fd : ℕ) → (sockets.socket w).0 ≡ some fd → 0 < fd) where
  bound-Bound :
      (k : ℕ) (ok : Bool) (q : Process W) (old : List ℕ)
      → q.fds ≡ suc k ∷ old
      → Returns (Bound old) (bound sockets (suc k) ok q)
  bound-Bound k true q old e = returns (k, refl, e)
  bound-Bound k false q old e = returns tt

  bind_socket-Bound :
      (fd : ℕ) (w : W) (old : List ℕ)
      → 0 < fd
      → Returns
          (Bound old)
          (bind_socket sockets name (some fd) (record { world = w; fds = fd ∷ old }))
  bind_socket-Bound zero w old h = absurd (omega arith)
  bind_socket-Bound (suc k) w old h =
      let (i, v) = sockets.nametoindex name w in
      let there : (i == 0) ≡ false = ground (arith, exists w) in
      rw there (
        with_fd-Returns (suc k) (sockets.bind i) (bound sockets (suc k))
          (record { world = v; fds = suc k ∷ old }) (contains_head (suc k) old)
          (bound-Bound k (sockets.bind i v).0 _ old refl))

  open_socket :
      (fd : Option ℕ) (w : W) (old : List ℕ)
      → ((n : ℕ) → fd ≡ some n → 0 < n)
      → Returns (Bound old) (proceed (some (take_fd fd w old)) (bind_socket sockets name))
  open_socket none w old h = returns tt
  open_socket (some fd) w old h = bind_socket-Bound fd w old (h fd refl)

  packet_socket_open-Bound :
      (p : Process W) → Returns (Bound p.fds) (packet_socket_open sockets name p)
  unfolding packet_socket_open
  packet_socket_open-Bound p =
      open_socket (sockets.socket p.world).0 (sockets.socket p.world).1 p.fds (not_zero p.world)

-- An interface that can be given back: its list of nodes is initialised and its socket is open.
pub record Owns (name : Name) (old : List ℕ) (d : Device) (fds : List ℕ) : Type 0 where
  pub has_list : d.has_list ≡ true
  pub sock : IsSocket d.sock fds old
  pub ifname : d.ifname ≡ name

abbrev pub InitResult : {W : Type 0} → Name → List ℕ → Exit (Bool × Device) → Process W → Type 0
InitResult name old exit q = Unit {0}
InitResult name old (goes_on (ok, d)) q = Owns name old d q.fds

-- What the initialisation relies on: the name is that of an interface, descriptor 0 is taken, and the current
-- channel is one of those that the device lists.
pub record Ready {W : Type 0} (services : Services W) (d : Device) : Type 0 where
  pub exists : (w : W) → 0 < (services.sockets.nametoindex d.ifname w).0
  pub not_zero : (w : W) (fd : ℕ) → (services.sockets.socket w).0 ≡ some fd → 0 < fd
  pub known :
      (now : ℕ) (v w : W)
      → Known (
          got services.platform
            (with_info
              (started d now)
              (services.iwget_interface_info d.ifname (if_info d) v).0.1).intf
            w)

module _ {W : Type 0} (services : Services W) (d : Device) (ready : Ready services d) where
  init_channels-Owns :
      (d' : Device) (q : Process W) (old : List ℕ)
      → Owns d.ifname old d' q.fds
      → Known (got services.platform d'.intf q.world)
      → Returns (InitResult d.ifname old) (init_channels services d' q)
  init_channels-Owns d' q old owns known =
      let done = channel_init-Succeeds services.platform d'.intf q.world known in
      rw (done.runs)
        (returns (record { has_list = owns.has_list; sock = owns.sock; ifname = owns.ifname }))

  -- The interface behind the first assignments, with its socket and its type.
  abbrev opened : ℕ → ℤ → ℤ → Device
  opened now sock t = record (started d now) { sock = sock; arphdr = t }

  informed-Owns :
      (now : ℕ) (sock t : ℤ) (ok : Bool) (info : IfInfo) (q : Process W) (old : List ℕ)
      → IsSocket sock q.fds old
      → Known (got services.platform (with_info (started d now) info).intf q.world)
      → Returns (InitResult d.ifname old) (informed services (opened now sock t) (ok, info) q)
  informed-Owns now sock t true info q old is_sock known =
      init_channels-Owns (with_info (opened now sock t) info) q old
        (record { has_list = refl; sock = is_sock; ifname = refl }) known
  informed-Owns now sock t false info q old is_sock known =
      returns (record { has_list = refl; sock = is_sock; ifname = refl })

  check_type-Owns :
      (now : ℕ) (sock t : ℤ) (q : Process W) (old : List ℕ)
      → IsSocket sock q.fds old
      → Returns
          (InitResult d.ifname old)
          (check_type services (record (started d now) { sock = sock }) t q)
  check_type-Owns now sock t q old is_sock =
      let (r, w) = services.iwget_interface_info d.ifname (if_info d) q.world in
      let d' = record (started d now) { sock = sock } in
      Returns-if (is_monitor_type t)
        (ask (services.iwget_interface_info d.ifname (if_info d))
          >>= informed services (opened now sock t))
        (failed services (opened now sock t))
        (λ e.
          informed-Owns now sock t r.0 r.1 (record q { world = w }) old is_sock
            (ready.known now q.world w))
        (λ e. returns (record { has_list = refl; sock = is_sock; ifname = refl }))

  -- Calls that leave the descriptors as they are keep the socket.
  same-IsSocket :
      (sock : ℤ) (fds fds' old : List ℕ)
      → IsSocket sock fds old
      → fds' ≡ fds
      → IsSocket sock fds' old
  same-IsSocket sock fds fds' old (k, e, f) same = (k, e, same ∙ f)

  brought_up-Owns :
      (now : ℕ) (sock : ℤ) (up : Bool) (q : Process W) (old : List ℕ)
      → IsSocket sock q.fds old
      → Returns
          (InitResult d.ifname old)
          (brought_up services (record (started d now) { sock = sock }) up q)
  brought_up-Owns now sock true q old is_sock =
      Returns-bind (get_hwinfo-Releases services.devices d.ifname q)
        (λ t r same. check_type-Owns now sock t r old (same-IsSocket sock _ _ old is_sock same))
  brought_up-Owns now sock false q old is_sock =
      returns (record { has_list = refl; sock = is_sock; ifname = refl })

  socket_opened-Owns :
      (now : ℕ) (e : Exit ℤ) (q : Process W) (old : List ℕ)
      → Bound old e q
      → Returns (InitResult d.ifname old) (socket_opened services (started d now) e q)
  socket_opened-Owns now exit q old h = returns tt
  socket_opened-Owns now (goes_on sock) q old (k, e, f) =
      let above : ltb_ℤ sock (pos 0) ≡ false = rw e (ground arith) in
      rw above (
        Returns-bind (set_up_promisc-Releases services.devices d.ifname true true q) (λ up r same.
          brought_up-Owns now sock up r old (same-IsSocket sock _ _ old (k, e, f) same)))

  -- The initialisation of an interface, whatever its result is.
  pub uwifi_init-Owns :
      (p : Process W) → Returns (InitResult d.ifname p.fds) (uwifi_init services d p)
  unfolding uwifi_init
  uwifi_init-Owns p =
      let (now, w) = services.platform.time_usec p.world in
      Returns-bind
        (packet_socket_open-Bound services.sockets d.ifname ready.exists ready.not_zero
          (record p { world = w }))
        (λ e q bound. socket_opened-Owns now e q p.fds bound)
