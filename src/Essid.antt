-- ===== src/Essid.antt =====
-- The network names and the nodes that announce them: core/essid.c.
pub mod Strings
pub mod Networks
