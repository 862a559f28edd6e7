-- ===== src/Core/Variables.antt =====
-- NetworkVariableManager of src/core/network_variable_manager.*.
pub mod Lane
pub mod Manager
pub mod Sync
pub mod Incoming
pub mod Invariant
pub mod Intent
pub mod Snapshots
pub mod Globals
pub mod Names
