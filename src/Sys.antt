-- ===== src/Sys.antt =====
-- What runs on the operating system: linux/netdev.c, linux/packet_sock.c, linux/interface.c, linux/wpa_ctrl.c
-- and linux/ifctrl-wext.c.
pub mod Process
pub mod Netdev
pub mod Packet
pub mod Interface
pub mod Wpa
pub mod Wext
pub mod Clock
pub mod Capture
