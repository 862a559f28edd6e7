-- ===== src/Core/Rpc.antt =====
-- RpcManager of src/core/rpc_manager.*. Times are whole milliseconds.
pub mod Manager
pub mod RateLimit
pub mod Queue
pub mod Delivery
