-- ===== src/Stub.antt =====
-- ServerStub and ClientStub: one message at a time over a socket.
pub mod Server
pub mod Client
pub mod Exchanges
pub mod Reading
pub mod Healthy
pub mod Answers
pub mod Halves
pub mod Identification
pub mod Receives
