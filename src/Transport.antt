-- ===== src/Transport.antt =====
-- ZmqTransport of src/transport/zmq_transport.*: topics, the outgoing queues, and their flush.
pub mod Topics
pub mod Outbox
pub mod Bounds
pub mod Control
pub mod Latest
pub mod Receive
pub mod Discovery
pub mod Endpoint
