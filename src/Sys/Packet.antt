-- ===== src/Sys/Packet.antt =====
-- packet_socket_open and packet_socket_recv of linux/packet_sock.c.
use libuwifi.Base.{ℕ, ℤ, pos, minus_one, Bool, true, false, Option, none, some, ◌==◌, if◌then◌else◌}
use libuwifi.Base.Run.{Run, pure, ◌>>=◌}
use libuwifi.Sys.Process.{Process, Name, open_fd, with_fd, ask}

-- `socket(PF_PACKET, SOCK_RAW, ...)`, `if_nametoindex`, which is 0 for an unknown name, and `bind` to the
-- interface with an index, which is true where it succeeds.
pub record PacketSockets (W : Type 0) : Type 0 where
  pub socket : W → Option ℕ × W
  pub nametoindex : Name → W → ℕ × W
  pub bind : ℕ → W → Bool × W

-- `exit` ends the process.
pub data Exit (A : Type 0) : Type 0 where
  exit : Exit A
  goes_on : A → Exit A

module _ {W : Type 0} (sockets : PacketSockets W) where
  abbrev pub bound : ℕ → Bool → Run (Process W) (Exit ℤ)
  bound fd true = pure (goes_on (pos fd))
  bound fd false = pure exit

  -- What follows the socket, for the index of the interface.
  abbrev pub bind_index : ℕ → ℕ → Run (Process W) (Exit ℤ)
  bind_index fd ifindex =
      if ifindex == 0
      then pure (goes_on minus_one)
      else (with_fd fd (sockets.bind ifindex) >>= bound fd)

  abbrev pub bind_socket : Name → Option ℕ → Run (Process W) (Exit ℤ)
  bind_socket devname none = pure exit
  bind_socket devname (some fd) = ask (sockets.nametoindex devname) >>= bind_index fd

  -- packet_socket_open
  unfoldable pub packet_socket_open : Name → Run (Process W) (Exit ℤ)
  packet_socket_open devname = open_fd sockets.socket >>= bind_socket devname
