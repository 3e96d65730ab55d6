-- ===== src/Node.antt =====
-- The nodes seen on the air: core/node.c.
pub mod Mac
pub mod Info
pub mod Copy
pub mod Table
pub mod Ap
pub mod Timeout
pub mod Reach
