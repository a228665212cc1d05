-- ===== src/Client/BlobsFetch.antt =====
-- `__fetch` of `BlobManager` (src/leap/soledad/client/_db/blobs/__init__.py): the download of one
-- blob, over the methods that it calls. What it returns, the local file of the blob, is not used by
-- the synchronizer and left out.
pub mod Pending
use leap_soledad.Prelude.{ℕ, ◌+◌, Bool, true, false, Option, none, some, Text, leb, if◌then◌else◌}
use leap_soledad.Prelude.Result.{
  Error, Result, ok, err, or_raise, type_error, invalid_blob, maximum_retries_error,
  retriable_transfer_error,
}
use leap_soledad.Prelude.Action.{Action, pure, raise, lift, ◌>>=◌, ◌>>◌}
use leap_soledad.Client.BlobsSync.{SyncStatus, synced, failed_download}

-- The download with its decryption, which gives None, or a blob (or None) and its size; and the
-- methods of the local database.
pub record Manager (S : Type 0) : Type 0 where
  pub max_decrypt_retries : ℕ
  pub download_and_decrypt : Text → Action S (Option (Option Text × ℕ))
  pub get_sync_status : Text → Action S (Option (SyncStatus × ℕ))
  pub increment_retries : Text → Action S (Unit {0})
  pub update_sync_status : Text → SyncStatus → Action S (Unit {0})
  pub put : Text → Text → ℕ → Action S (Unit {0})
  pub get : Text → Action S (Option Text)

-- `isinstance(e, InvalidBlob)`
abbrev pub is_invalid_blob : Error → Bool
is_invalid_blob invalid_blob = true
is_invalid_blob _ = false

module _ {S : Type 0} (M : Manager S) where
  -- What follows a blob that can not be decrypted.
  unfoldable pub corrupted : Text → ℕ → Action S (Unit {0})
  corrupted blob_id retries = do
    M.increment_retries blob_id
    if leb M.max_decrypt_retries (retries + 1) then give_up else raise retriable_transfer_error
    where
      give_up : Action S (Unit {0})
      give_up = do M.update_sync_status blob_id failed_download; raise maximum_retries_error

  -- The `except` clause.
  unfoldable pub failed : Text → Error → Action S (Unit {0})
  unfolding corrupted
  failed blob_id e = do
    found ← M.get_sync_status blob_id
    (status, retries) ← lift (or_raise found type_error)
    if is_invalid_blob e then corrupted blob_id retries else raise retriable_transfer_error

  -- What follows a download that returned.
  unfoldable pub received : Text → Option (Option Text × ℕ) → Action S (Unit {0})
  received blob_id none = pure tt
  received blob_id (some (none, size)) = pure tt
  received blob_id (some (some blob, size)) = do
    M.put blob_id blob size
    M.update_sync_status blob_id synced
    local_blob ← M.get blob_id
    pure tt

  abbrev pub tried : Text → Result (Option (Option Text × ℕ)) × S → Result (Unit {0}) × S
  tried blob_id (ok result, s) = received blob_id result s
  tried blob_id (err e, s) = failed blob_id e s

  -- `__fetch`
  unfoldable pub fetch : Text → Action S (Unit {0})
  unfolding received failed
  fetch blob_id s = tried blob_id (M.download_and_decrypt blob_id s)
