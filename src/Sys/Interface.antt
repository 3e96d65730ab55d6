-- ===== src/Sys/Interface.antt =====
-- uwifi_init and uwifi_fini of linux/interface.c: the packet socket, the device, the interface control and the
-- channels together.
pub mod Owned
pub mod Session
use libuwifi.Base.{
  ℕ, zero, suc, ℤ, pos, negsuc, minus_one, ltb_ℤ, ◌==ℤ◌, Bool, true, false, not, ◌||◌, Option, none,
  some, List, [], if◌then◌else◌,
}
use libuwifi.Base.Run.{Run, pure, ◌>>=◌, ◌>>◌}
use libuwifi.Channel.Types.{Interface}
use libuwifi.Channel.Change.{Platform, channel_init}
use libuwifi.Nl80211.Settings.{IfInfo}
use libuwifi.Node.Table.{Table, nodes_free}
use libuwifi.Store.{Lists}
use libuwifi.Sys.Process.{Process, Name, ask, close}
use libuwifi.Sys.Netdev.{Devices, set_up_promisc, get_hwinfo}
use libuwifi.Sys.Packet.{PacketSockets, Exit, exit, goes_on, packet_socket_open}

-- `struct uwifi_interface`: the fields of the channels, and those that are not. `has_list` tells whether
-- `wlan_nodes` has been initialised.
pub record Device : Type 0 where
  pub ifname : Name
  pub sock : ℤ
  pub has_list : Bool
  pub wlan_nodes : Table
  pub intf : Interface
  pub if_type : ℕ
  pub if_phy : ℕ
  pub arphdr : ℤ

-- What the initialisation uses: packet sockets, requests to devices, the clock and the change of channels, and
-- ifctrl_iwget_interface_info, which may change three fields.
pub record Services (W : Type 0) : Type 0 where
  pub sockets : PacketSockets W
  pub devices : Devices W
  pub platform : Platform W
  pub iwget_interface_info : Name → IfInfo → W → (Bool × IfInfo) × W

-- ARPHRD_IEEE80211_RADIOTAP and ARPHRD_IEEE80211_PRISM
abbrev pub is_monitor_type : ℤ → Bool
is_monitor_type t = t ==ℤ pos 803 || t ==ℤ pos 802

abbrev pub if_info : Device → IfInfo
if_info d = record { channel = d.intf.channel; if_type = d.if_type; if_phy = d.if_phy }

abbrev pub with_info : Device → IfInfo → Device
with_info d i = record d {
  intf = record (d.intf) { channel = i.channel };
  if_type = i.if_type;
  if_phy = i.if_phy;
}

-- cc_list_head_init, and the first assignments of uwifi_init.
abbrev pub started : Device → ℕ → Device
started d now = record d {
  has_list = true;
  wlan_nodes = record (d.wlan_nodes) { nodes = [] };
  intf = record (d.intf) { channel_idx = minus_one; last_channelchange = now };
}

module _ {W : Type 0} (services : Services W) where
  abbrev pub failed : Device → Run (Process W) (Exit (Bool × Device))
  failed d = pure (goes_on (false, d))

  abbrev pub init_done :
      Device → Process W → Option (Bool × Interface × W) → Option (Exit (Bool × Device) × Process W)
  init_done d p none = none
  init_done d p (some (ok, intf, w)) =
      some (goes_on (ok, record d { intf = intf }), record p { world = w })

  abbrev pub init_channels : Device → Run (Process W) (Exit (Bool × Device))
  init_channels d p = init_done d p (channel_init services.platform d.intf p.world)

  abbrev pub informed : Device → Bool × IfInfo → Run (Process W) (Exit (Bool × Device))
  informed d (ok, info) = if ok then init_channels (with_info d info) else failed (with_info d info)

  abbrev pub check_type : Device → ℤ → Run (Process W) (Exit (Bool × Device))
  check_type d t =
      if is_monitor_type t
      then (ask (services.iwget_interface_info d.ifname (if_info d))
          >>= informed (record d { arphdr = t }))
      else failed (record d { arphdr = t })

  abbrev pub brought_up : Device → Bool → Run (Process W) (Exit (Bool × Device))
  brought_up d up = if up then (get_hwinfo services.devices d.ifname >>= check_type d) else failed d

  abbrev pub socket_opened : Device → Exit ℤ → Run (Process W) (Exit (Bool × Device))
  socket_opened d exit = pure exit
  socket_opened d (goes_on sock) =
      if ltb_ℤ sock (pos 0)
      then failed (record d { sock = sock })
      else (set_up_promisc services.devices d.ifname true true
          >>= brought_up (record d { sock = sock }))

  abbrev pub init_from : Device → ℕ → Run (Process W) (Exit (Bool × Device))
  init_from d now = packet_socket_open services.sockets d.ifname >>= socket_opened (started d now)

  -- uwifi_init: the result and the interface, if the process goes on.
  unfoldable pub uwifi_init : Device → Run (Process W) (Exit (Bool × Device))
  uwifi_init d = ask services.platform.time_usec >>= init_from d

  abbrev pub close_sock : Device → ℤ → Run (Process W) Device
  close_sock d (negsuc n) = pure d
  close_sock d (pos zero) = pure d
  close_sock d (pos (suc n)) = close (suc n) >> pure (record d { sock = minus_one })

  abbrev pub nodes_freed : Device → Option Table → Process W → Option (Device × Process W)
  nodes_freed d none p = none
  nodes_freed d (some t) p = some (record d { wlan_nodes = t }, p)

  -- uwifi_fini
  unfoldable pub uwifi_fini : Lists → Device → Run (Process W) Device
  uwifi_fini lists d = close_sock d d.sock >>= λ closed.
      set_up_promisc services.devices d.ifname true false >>= λ _.
      λ p. nodes_freed closed (nodes_free lists closed.has_list closed.wlan_nodes) p
