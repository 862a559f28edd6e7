-- ===== src/Protocol/Pose.antt =====
-- The pose and object messages of src/protocol/protocol_v8.*, and src/protocol/pose_codec.*, which
-- quantises them.
pub mod Double
pub mod Codec
pub mod Yaw
pub mod SmallestThree
pub mod Flags
pub mod Bounds
pub mod Body
pub mod BodyRoundTrip
pub mod Messages
pub mod Objects
pub mod MessagesRoundTrip
