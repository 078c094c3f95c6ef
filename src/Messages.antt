-- ===== src/Messages.antt =====
-- Messages.h and Messages.cpp: the five messages and their bytes on the wire.
pub mod Fields
pub mod Order
pub mod Info
pub mod Record
pub mod Request
pub mod RoundTrip
pub mod Transport
