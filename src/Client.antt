-- ===== src/Client.antt =====
-- The client's side of a sync of blobs.
pub mod Retry
pub mod BlobsSync
pub mod BlobsFetch
