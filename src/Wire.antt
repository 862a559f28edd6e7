-- ===== src/Wire.antt =====
-- The byte level of the protocol: src/protocol/binary_reader.* and src/protocol/binary_writer.*.
pub mod Utf8
pub mod Writer
pub mod Reader
pub mod Decode
