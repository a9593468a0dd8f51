-- ===== src/Http.antt =====
-- src/peer_http.cpp and src/peer_http.h: the HTTP session of a client.
pub mod Text
pub mod State
pub mod Replies
pub mod Args
pub mod Fields
pub mod Gzip
pub mod Files
pub mod Gets
pub mod Commands
pub mod Watching
pub mod Dispatch
pub mod Post
pub mod Header
pub mod Loop
pub mod Network
pub mod Decoding
pub mod Splitting
pub mod Paths
pub mod Answering
pub mod CommandReplies
pub mod Lookups
pub mod Encodings
pub mod GetReplies
pub mod WatchReplies
pub mod ArgsKept
pub mod Dispatched
pub mod PostReplies
pub mod HeadRead
pub mod HeadTaken
pub mod Ending
pub mod Sizes
