-- ===== src/Peerlink.antt =====
-- internal/agency/peerlink: the frames that peers exchange.
pub mod Hex
pub mod Digests
pub mod Frames
pub mod Streams
pub mod Builds
mod Accepts
mod Valid
mod Writes
mod Shapes
mod Roundtrip
mod Reads
mod Canonical
mod Samples
mod Examples
