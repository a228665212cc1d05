-- ===== src/Sync.antt =====
-- src/leap/soledad/common/l2db/sync.py: the synchronisation of two databases.
pub mod Exchange
pub mod Synchronizer
pub mod Returned
pub mod Keeps
pub mod Agreement
pub mod Soundness
