-- ===== src/Store.antt =====
-- Nodes that stand in linked lists and point back to the list's owner: the lists, and the relation
-- between the lists and the back pointers.
pub mod Pointers
pub mod Members
pub use Pointers.*
pub use Members.*
