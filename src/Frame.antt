-- ===== src/Frame.antt =====
-- What operations leave alone.
pub mod Nodes
pub mod Rows
pub mod Leaves
pub mod Placement
pub mod Writes
pub mod Keys
pub mod Added
pub mod Selected
