-- ===== src/Proto.antt =====
-- src/ntb-proto.c and src/ntb-proto.h: the wire format.
pub mod Types
pub mod Read
pub mod Write
pub mod Objects
pub mod Integers
pub mod Bounds
pub mod Memory
pub mod Messages
pub mod Frame
pub mod Overread
mod Tests
pub mod Pubkeys
pub mod RoundTrip
