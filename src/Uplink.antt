-- ===== src/Uplink.antt =====
-- The uplink: frames between the terminal and its server.
pub mod Frame
pub mod Answer
pub mod Recv
pub mod Send
pub mod KeepAlive
