-- ===== src/ByteIo.antt =====
-- utils/byteio/reader.go and writer.go: fixed-width integers in byte slices and streams.
-- A byte slice is a list of numbers below 256; an index out of its range is a Go panic.
pub mod Get
pub mod Put
pub mod Stream
pub mod RoundTrip
pub mod VarWidth
pub mod Segments
mod Examples
