-- ===== src/Raw.antt =====
-- Packets as the raw socket gives them, with a prism or radiotap header: linux/raw_parser.c.
pub mod Prism
pub mod Radiotap
pub mod Packets
pub mod Esp
