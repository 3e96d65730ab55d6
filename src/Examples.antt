-- ===== src/Examples.antt =====
-- Tests of the definitions, and the theorems applied to concrete inputs.
pub mod Util
pub mod Frames
pub mod Tables
pub mod Hopping
pub mod Averages
pub mod Nodes
pub mod Calls
pub mod Raw
pub mod Nl80211
pub mod System
pub mod Netlink
