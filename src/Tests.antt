-- ===== src/Tests.antt =====
-- Concrete runs of the theorems, a module per part of the program.
mod Protocol
mod Variables
mod Rpc
mod Mapping
mod Transport
mod Json
mod Fixed
mod Pose
mod Objects
mod Client
mod Discovery
mod Signed
mod Endpoint
