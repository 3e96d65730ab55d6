-- ===== src/Sys/Netdev.antt =====
-- linux/netdev.c: flags and addresses of a network device, through a socket of its own for each call.
pub mod Released
pub mod Flags
use libuwifi.Base.{
  ℕ, ◌+◌, ◌*◌, ◌/◌, ◌%◌, ◌^◌, ℤ, pos, minus_one, Bool, true, false, Option, none, some, List, take,
  if◌then◌else◌,
}
use libuwifi.Base.Run.{Run, pure, ◌>>=◌, ◌>>◌}
use libuwifi.Sys.Process.{Process, Name, open_fd, with_fd, close}

-- `socket(AF_INET, SOCK_DGRAM, 0)` and the requests of ioctl: SIOCGIFHWADDR with the type and the bytes of the
-- address, SIOCGIFADDR, SIOCSIFADDR, SIOCGIFFLAGS and SIOCSIFFLAGS. A failure is `none` or false.
pub record Devices (W : Type 0) : Type 0 where
  pub socket : W → Option ℕ × W
  pub get_hwaddr : Name → W → Option (ℕ × List ℕ) × W
  pub get_addr : Name → W → Option ℕ × W
  pub set_addr : Name → ℕ → W → Bool × W
  pub get_flags : Name → W → Option ℕ × W
  pub set_flags : Name → ℕ → W → Bool × W

-- The name that strncpy leaves in `ifr_name`, which is cleared first: IF_NAMESIZE - 1 bytes at most.
abbrev pub ifr_name : Name → Name
ifr_name ifname = take 15 ifname

-- `flags |= 1 << k` or `flags &= ~(1 << k)`
abbrev pub put_bit : ℕ → Bool → ℕ → ℕ
put_bit k on flags = flags / 2 ^ (k + 1) * 2 ^ (k + 1) + (if on then 2 ^ k else 0) + flags % 2 ^ k

-- IFF_UP is 1 << 0, and IFF_PROMISC is 1 << 8.
abbrev pub up_bit : ℕ
up_bit = 0

abbrev pub promisc_bit : ℕ
promisc_bit = 8

abbrev pub new_flags : Bool → Bool → ℕ → ℕ
new_flags up promisc flags = put_bit promisc_bit promisc (put_bit up_bit up flags)

module _ {W : Type 0} (dev : Devices W) where
  abbrev pub socket_cases :
      {A : Type 0} → A → (ℕ → Run (Process W) A) → Option ℕ → Run (Process W) A
  socket_cases failed body none = pure failed
  socket_cases failed body (some fd) = body fd

  -- A socket for one request, and what follows if there is none.
  abbrev pub on_socket : {A : Type 0} → A → (ℕ → Run (Process W) A) → Run (Process W) A
  on_socket failed body = open_fd dev.socket >>= socket_cases failed body

  abbrev pub close_with : {A : Type 0} → ℕ → A → Run (Process W) A
  close_with fd a = close fd >> pure a

  abbrev pub hwinfo_of : ℕ → Option (ℕ × List ℕ) → Run (Process W) ℤ
  hwinfo_of fd none = close_with fd minus_one
  hwinfo_of fd (some (family, addr)) = close_with fd (pos family)

  -- netdev_get_hwinfo. Without a socket it returns `false`, which is 0.
  unfoldable pub get_hwinfo : Name → Run (Process W) ℤ
  get_hwinfo ifname =
      on_socket (pos 0) λ fd. with_fd fd (dev.get_hwaddr (ifr_name ifname)) >>= hwinfo_of fd

  abbrev pub mac_of : ℕ → List ℕ → Option (ℕ × List ℕ) → Run (Process W) (Bool × List ℕ)
  mac_of fd mac none = close_with fd (false, mac)
  mac_of fd mac (some (family, addr)) = close_with fd (true, take 6 addr)

  -- netdev_get_mac_address: the result and `*mac`.
  unfoldable pub get_mac_address : Name → List ℕ → Run (Process W) (Bool × List ℕ)
  get_mac_address ifname mac =
      on_socket (false, mac) λ fd. with_fd fd (dev.get_hwaddr (ifr_name ifname)) >>= mac_of fd mac

  abbrev pub ip_of : ℕ → ℕ → Option ℕ → Run (Process W) (Bool × ℕ)
  ip_of fd ip none = close_with fd (false, ip)
  ip_of fd ip (some addr) = close_with fd (true, addr)

  -- netdev_get_ip_address: the result and `*ip`.
  unfoldable pub get_ip_address : Name → ℕ → Run (Process W) (Bool × ℕ)
  get_ip_address ifname ip =
      on_socket (false, ip) λ fd. with_fd fd (dev.get_addr (ifr_name ifname)) >>= ip_of fd ip

  -- netdev_set_ip_address
  unfoldable pub set_ip_address : Name → ℕ → Run (Process W) Bool
  set_ip_address ifname ip =
      on_socket false λ fd. with_fd fd (dev.set_addr (ifr_name ifname) ip) >>= close_with fd

  abbrev pub store_flags : Name → ℕ → Bool → Bool → Option ℕ → Run (Process W) Bool
  store_flags ifname fd up promisc none = close_with fd false
  store_flags ifname fd up promisc (some flags) =
      with_fd fd (dev.set_flags (ifr_name ifname) (new_flags up promisc flags)) >>= close_with fd

  -- netdev_set_up_promisc
  unfoldable pub set_up_promisc : Name → Bool → Bool → Run (Process W) Bool
  set_up_promisc ifname up promisc =
      on_socket false
        λ fd. with_fd fd (dev.get_flags (ifr_name ifname)) >>= store_flags ifname fd up promisc
