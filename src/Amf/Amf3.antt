-- ===== src/Amf/Amf3.antt =====
-- utils/amf/amf3.go: the values of AMF3.
pub mod U29
pub mod Read
pub mod Write
mod Pieces
pub mod RoundTrip
pub mod Total
mod Examples
