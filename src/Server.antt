-- ===== src/Server.antt =====
-- The server's side of a sync: src/leap/soledad/server/state.py and src/leap/soledad/server/sync.py.
pub mod SyncState
pub mod Seen
pub mod Exchange
pub mod Resume
pub mod Staging
