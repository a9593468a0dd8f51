-- ===== src/Pdu.antt =====
-- src/peer_cache_pdu.h, src/peer_pdu.h and src/peer_pdu.cpp: the messages of the binary protocol.
pub mod Request
pub mod Decode
pub mod Layout
pub mod Response
pub mod Room
