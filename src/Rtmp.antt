-- ===== src/Rtmp.antt =====
-- protocol/rtmp: the chunk stream between `Message` values and the bytes of a connection.
pub mod Chunk
pub mod Message
pub mod Unpacker
pub mod Packer
pub mod Written
pub mod Control
pub mod Commands
pub mod Status
pub mod Outcome
pub mod Handshake
pub mod Server
pub mod Client
pub mod Transfer
mod Examples
