-- ===== src/Store.antt =====
-- `InMemoryDatabase` of src/leap/soledad/common/l2db/backends/inmemory.py with what it inherits
-- from `CommonBackend` in src/leap/soledad/common/l2db/backends/__init__.py.
pub mod State
pub mod Revs
pub mod Read
pub mod Write
pub mod Conflicts
pub mod Indexes
pub mod Changes
pub mod Incoming
pub mod Soundness
pub mod Reach
