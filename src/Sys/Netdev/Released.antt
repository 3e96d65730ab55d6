-- ===== src/Sys/Netdev/Released.antt =====
-- Descriptors that the calls of linux/netdev.c open and close.
use libuwifi.Base.{ℕ, ◌≡◌, refl, Bool, false, Option, none, some, List, ◌∷◌}
use libuwifi.Base.Run.{Run, Returns, returns, ◌>>=◌}
use libuwifi.Sys.Process.{Process, Name, with_fd}
use libuwifi.Sys.Process.Rules.{
  Releases, open_fd-Returns, with_fd-Returns, close-Returns, contains_head,
}
use libuwifi.Sys.Netdev.{
  Devices, socket_cases, on_socket, close_with, hwinfo_of, mac_of, ip_of, store_flags, get_hwinfo,
  get_mac_address, get_ip_address, set_ip_address, set_up_promisc,
}

module _ {W : Type 0} (dev : Devices W) where
  -- What stands behind the opening of the socket closes it.
  abbrev Closes : {A : Type 0} → (ℕ → Run (Process W) A) → Type 0
  Closes body =
      (fd : ℕ) (fds : List ℕ) (w : W)
      → Returns (λ _ q. q.fds ≡ fds) (body fd (record { world = w; fds = fd ∷ fds }))

  on_socket-Releases :
      {A : Type 0} (failed : A) (body : ℕ → Run (Process W) A) (p : Process W)
      → Closes body
      → Releases (on_socket dev failed body) p
  on_socket-Releases failed body p closes =
      open_fd-Returns dev.socket (socket_cases dev failed body) p (returns refl)
        (λ fd. closes fd p.fds (dev.socket p.world).1)

  close_with-Closes : {A : Type 0} (a : A) → Closes (λ fd. close_with dev fd a)
  close_with-Closes a fd fds w = close-Returns fd _ fds w (returns refl)

  -- One request, and then what closes the socket for each answer.
  asks-Closes :
      {A B : Type 0} (answer : W → B × W) (rest : ℕ → B → Run (Process W) A)
      → ((b : B) → Closes (λ fd. rest fd b))
      → Closes (λ fd. with_fd fd answer >>= rest fd)
  asks-Closes answer rest closes fd fds w =
      with_fd-Returns fd answer (rest fd) (record { world = w; fds = fd ∷ fds })
        (contains_head fd fds) (closes (answer w).0 fd fds (answer w).1)

  hwinfo_of-Closes : (o : Option (ℕ × List ℕ)) → Closes (λ fd. hwinfo_of dev fd o)
  hwinfo_of-Closes none = close_with-Closes _
  hwinfo_of-Closes (some (family, addr)) = close_with-Closes _

  mac_of-Closes : (mac : List ℕ) (o : Option (ℕ × List ℕ)) → Closes (λ fd. mac_of dev fd mac o)
  mac_of-Closes mac none = close_with-Closes _
  mac_of-Closes mac (some (family, addr)) = close_with-Closes _

  ip_of-Closes : (ip : ℕ) (o : Option ℕ) → Closes (λ fd. ip_of dev fd ip o)
  ip_of-Closes ip none = close_with-Closes _
  ip_of-Closes ip (some addr) = close_with-Closes _

  store_flags-Closes :
      (ifname : Name) (up promisc : Bool) (o : Option ℕ)
      → Closes (λ fd. store_flags dev ifname fd up promisc o)
  store_flags-Closes ifname up promisc none = close_with-Closes false
  store_flags-Closes ifname up promisc (some flags) =
      asks-Closes _ (λ fd ok. close_with dev fd ok) (λ ok. close_with-Closes ok)

  pub get_hwinfo-Releases : (ifname : Name) (p : Process W) → Releases (get_hwinfo dev ifname) p
  unfolding get_hwinfo
  get_hwinfo-Releases ifname p =
      on_socket-Releases _ _ p (asks-Closes _ (hwinfo_of dev) hwinfo_of-Closes)

  pub set_up_promisc-Releases :
      (ifname : Name) (up promisc : Bool) (p : Process W)
      → Releases (set_up_promisc dev ifname up promisc) p
  unfolding set_up_promisc
  set_up_promisc-Releases ifname up promisc p = on_socket-Releases _ _ p (
      asks-Closes _ (λ fd o. store_flags dev ifname fd up promisc o)
        (store_flags-Closes ifname up promisc))

  -- Every call.
  pub netdev-Releases :
      (ifname : Name) (mac : List ℕ) (ip : ℕ) (up promisc : Bool) (p : Process W)
      → Releases (get_hwinfo dev ifname) p
        × Releases (get_mac_address dev ifname mac) p
        × Releases (get_ip_address dev ifname ip) p
        × Releases (set_ip_address dev ifname ip) p
        × Releases (set_up_promisc dev ifname up promisc) p
  unfolding get_mac_address get_ip_address set_ip_address
  netdev-Releases ifname mac ip up promisc p = (
    get_hwinfo-Releases ifname p,
    on_socket-Releases _ _ p (asks-Closes _ (λ fd o. mac_of dev fd mac o) (mac_of-Closes mac)),
    on_socket-Releases _ _ p (asks-Closes _ (λ fd o. ip_of dev fd ip o) (ip_of-Closes ip)),
    on_socket-Releases _ _ p
        (asks-Closes _ (λ fd ok. close_with dev fd ok) (λ ok. close_with-Closes ok)),
    set_up_promisc-Releases ifname up promisc p,
  )
