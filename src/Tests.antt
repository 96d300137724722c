-- ===== src/Tests.antt =====
-- Runs of the modelled code at fixed inputs, and each general theorem at one of them.
mod Numbers
mod Buffers
mod Formats
mod Connections
mod Hub
pub mod Sockets
mod Files
mod Protobuf
mod Links
mod Stats
