-- ===== src/Nl80211.antt =====
-- What linux/ifctrl-nl80211.c makes of the attributes of netlink messages, which libnl parses.
pub mod Freqlist
pub mod Settings
pub mod Stations
pub mod Survey
pub mod Receive
pub mod Netlink
pub mod Requests
pub mod Groups
pub mod Events
pub mod Socket
pub mod Listener
