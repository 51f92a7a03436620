-- ===== src/Trdp.antt =====
-- src/rdp/trdp_flow.cpp: a flow over a TCP connection, with the interface of a reliable datagram
-- flow.
pub mod Types
pub mod Flow
pub mod Rtt
pub mod Send
pub mod Receive
pub mod Connect
pub mod Machine
pub mod Tests
