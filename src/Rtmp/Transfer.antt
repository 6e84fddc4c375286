-- ===== src/Rtmp/Transfer.antt =====
-- Messages that one side writes and the other side reads: packer and unpacker together.
pub mod Wire
pub mod Chunks
pub mod Continue
pub mod First
pub mod Send
pub mod Whole
pub mod Formats
pub mod Known
pub mod Synced
pub mod Arrival
pub mod Deliver
pub mod Fresh
