-- ===== src/Session.antt =====
-- src/peer_cache.h and src/peer_cache.cpp: Peer_Cache, the session of one connection of the binary
-- protocol: its definitions from Peer to Network, and the theorems on them from Replies on.
pub mod Peer
pub mod Requests
pub mod Updates
pub mod Watching
pub mod Process
pub mod Loop
pub mod Network
pub mod Replies
pub mod Keyed
pub mod Framing
pub mod Ends
pub mod Turns
pub mod Progress
pub mod Halting
pub mod Outcome
