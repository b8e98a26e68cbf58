-- ===== src/Mtproto.antt =====
-- internal/mtproto: the server of the MTProto transport.
pub mod Keys
pub mod Registry
pub mod Sending
pub mod Handling
pub mod Serving
pub mod Buffered
pub mod Middleware
pub mod Coherence
pub mod Answers
pub mod Closing
pub mod Greeting
mod Tests
