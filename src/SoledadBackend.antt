-- ===== src/SoledadBackend.antt =====
-- `SoledadBackend` of src/leap/soledad/common/backend.py: the database of the server, over another
-- database that stores (CouchDB, in the program), with a cache and batches.
pub mod ServerDocument
pub mod Database
pub mod Cache
pub mod Handed
pub mod Write
pub mod Incoming
pub mod Target
pub mod Session
