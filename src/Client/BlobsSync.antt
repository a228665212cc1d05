-- ===== src/Client/BlobsSync.antt =====
-- `BlobsSynchronizer` of src/leap/soledad/client/_db/blobs/sync.py, over the methods of the blob manager
-- that it calls. The locks and the semaphore leave one transfer of each kind at a time.
pub mod Missing
use leap_soledad.Prelude.{
  ℕ, zero, suc, Bool, true, false, Option, none, some, List, [], ◌∷◌, Text, text_eq, if◌then◌else◌,
}
use leap_soledad.Prelude.Result.{Result, ok, err, out_of_fuel}
use leap_soledad.Prelude.Action.{Action, pure, raise, and_then, ◌>>=◌, ◌>>◌}
use leap_soledad.Client.Retry.{Retried, with_retry}

-- `SyncStatus` of src/leap/soledad/client/_db/blobs/sql.py
pub data SyncStatus : Type 0 where
  synced pending_upload pending_download failed_upload failed_download pending_delete local_only :
      SyncStatus

-- What the synchronizer calls: the lists of blobs at the server and here, the statuses, and the
-- transfer of one blob. The namespace is the same in all calls of a sync but that of
-- `batch_delete`, which has the default.
pub record Blobs (S : Type 0) : Type 0 where
  pub remote_list : Bool → Action S (List Text)
  pub local_list : Action S (List Text)
  pub local_list_status : SyncStatus → Action S (List Text)
  pub update_batch_sync_status : List Text → SyncStatus → Action S (Unit {0})
  pub batch_delete : List Text → Action S (Unit {0})
  pub send : Text → Action S (Unit {0})
  pub fetch : Text → Action S (Unit {0})

abbrev pub is_in : Text → List Text → Bool
is_in b [] = false
is_in b (c ∷ blobs) = if text_eq c b then true else is_in b blobs

-- `set(blobs) - set(others)`, and `[x for x in pending if x not in scheduled]`
unfoldable pub without : List Text → List Text → List Text
without others [] = []
without others (b ∷ blobs) =
    let rest = without others blobs in if is_in b others then rest else b ∷ rest

abbrev pub first_of : List Text → Option Text
first_of [] = none
first_of (b ∷ blobs) = some b

-- `with_retry` as an action: its waits are time that passes.
abbrev pub retried : {S : Type 0} → Retried S → Result (Unit {0}) × S
retried (r, waits, s) = (r, s)

module _ {S : Type 0} (fuel : ℕ) (B : Blobs S) where
  unfoldable pub refresh_sync_status_from_server : Action S (Unit {0})
  unfolding without
  refresh_sync_status_from_server = do
    remote ← B.remote_list false
    local ← B.local_list
    B.update_batch_sync_status (without local remote) pending_download
    B.update_batch_sync_status (without remote local) pending_upload

  unfoldable pub apply_deletions_from_server : Action S (Unit {0})
  apply_deletions_from_server = do
    remote_deletions ← B.remote_list true
    B.batch_delete remote_deletions
    B.update_batch_sync_status remote_deletions synced

  -- `_send_next` and `_fetch_next`: the transfer of the first blob of that status, where there is
  -- one.
  unfoldable pub transfer_first : (Text → Action S (Unit {0})) → Option Text → Action S Bool
  unfolding with_retry
  transfer_first transfer none = pure false
  transfer_first transfer (some blob_id) = do
    (λ s. retried (with_retry fuel (transfer blob_id) s))
    pure true

  unfoldable pub transfer_next :
      SyncStatus → (Text → Action S (Unit {0})) → List Text → Action S Bool
  unfolding transfer_first without
  transfer_next status transfer scheduled = do
    pending ← B.local_list_status status
    transfer_first transfer (first_of (without scheduled pending))

  abbrev pub go_on : Action S (Unit {0}) → Bool → Action S (Unit {0})
  go_on again true = again
  go_on again false = pure tt

  -- The loops of `_send_missing` and `_fetch_missing`; nothing is ever added to `scheduled`.
  unfoldable pub transfer_missing :
      ℕ → SyncStatus → (Text → Action S (Unit {0})) → Action S (Unit {0})
  unfolding transfer_next
  transfer_missing zero status transfer = raise out_of_fuel
  transfer_missing (suc turns) status transfer = do
    success ← transfer_next status transfer []
    go_on (transfer_missing turns status transfer) success

  -- `sync`, with bounds for the turns of its loops
  unfoldable pub sync_blobs : ℕ → Action S (Unit {0})
  unfolding apply_deletions_from_server refresh_sync_status_from_server transfer_missing
  sync_blobs turns = do
    apply_deletions_from_server
    refresh_sync_status_from_server
    transfer_missing turns pending_download B.fetch
    transfer_missing turns pending_upload B.send
