-- ===== src/Util.antt =====
-- The helpers of util/: logarithms and moving averages.
pub mod Log
pub mod Average
