-- ===== src/Urdp.antt =====
-- src/rdp/urdp_flow.cpp: one flow of the reliable datagram protocol.
pub mod Types
pub mod Format
pub mod Flow
pub mod Init
pub mod Rto
pub mod Queue
pub mod Output
pub mod Reassembly
pub mod Timer
pub mod Lifecycle
pub mod Receive
pub mod Ack
pub mod Process
pub mod Clock
pub mod Api
pub mod Machine
pub mod Tests
