-- ===== src/Wlan.antt =====
-- 802.11 definitions and helpers: include/uwifi/wlan80211.h and core/wlan_util.c.
pub mod Types
pub mod Frame
pub mod Freq
pub mod Rates
pub mod Streams
pub mod Standard
pub mod Names
