-- ===== src/CacheMgr.antt =====
-- src/cache.h and src/cache.cpp: Cache_Mgr. The state and the operations stand in the modules below,
-- each with its proofs beside it.
pub mod State
pub mod Classes
pub mod Expirations
pub mod Items
pub mod Entries
pub mod View
pub mod Effects
pub mod Store
pub mod Linking
pub mod Storing
pub mod Removing
pub mod Access
pub mod Changing
pub mod Allocating
pub mod Delta
pub mod Updating
pub mod Getting
pub mod Sweep
pub mod Deadlines
pub mod Watches
pub mod Extend
pub mod Files
