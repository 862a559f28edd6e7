-- ===== src/Core.antt =====
-- The managers of src/core: network variables, RPC, shared objects and the device-id table.
pub mod Link
pub mod Json
pub mod Variables
pub mod Rpc
pub mod Mapping
pub mod Objects
pub mod Client
