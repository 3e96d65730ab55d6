-- ===== src/Parser.antt =====
-- The 802.11 frame parser: core/wlan_parser.c and include/uwifi/wlan_parser.h. A buffer is the list of
-- the bytes from a pointer to the end of its memory; the length that the caller states is a number of
-- its own. A read behind the end of the memory gives `none`.
pub mod Packet
pub mod Elements
pub mod Header
pub mod Peek
