-- ===== src/Channel.antt =====
-- Channels: core/channel.c and the data of include/uwifi/channel.h.
pub mod Types
pub mod Table
pub mod Width
pub mod Change
pub mod Display
