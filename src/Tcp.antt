-- ===== src/Tcp.antt =====
-- src/tcp: the messages, the server and the remote over TCP.
pub mod Messages
pub mod Hooks
pub mod Server
pub mod Remote
pub mod Sync
pub mod Wire
pub mod Loopback
