-- ===== src/Protocol.antt =====
-- The messages of src/protocol/protocol_v8.*: a module for each family, its two directions, and
-- the theorems on them in its children.
pub mod Begin
pub mod Session
pub mod Variables
pub mod Ownership
pub mod Pose
