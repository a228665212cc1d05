-- ===== src/Examples/Transfers.antt =====
-- The theorems on the transfer of blobs, for two blobs and a network that fails twice.
use leap_soledad.Prelude.{ℕ, zero, suc, Option, none, some, List, [], ◌∷◌, Text, text}
use leap_soledad.Prelude.Result.{Result, ok, err, connect_error}
use leap_soledad.Client.BlobsSync.{SyncStatus, Blobs, pending_download, synced, failed_download}
use leap_soledad.Client.BlobsFetch.{Manager, fetch}

-- The blobs that are pending, and the failures to come.
abbrev Network : Type 0
Network = List Text × ℕ

abbrev tail_of : List Text → List Text
tail_of [] = []
tail_of (b ∷ blobs) = blobs

abbrev marked : SyncStatus → List Text → List Text
marked synced blobs = tail_of blobs
marked failed_download blobs = tail_of blobs
marked _ blobs = blobs

abbrev download : Network → Result (Option (Option Text × ℕ)) × Network
download (blobs, zero) = (ok (some (some (text "x"), 1)), (blobs, zero))
download (blobs, suc n) = (err connect_error, (blobs, n))

-- The manager of blobs, over a server that sends them; and one whose server sends nothing.
abbrev manager : Manager Network
manager = record {
  max_decrypt_retries = 3;
  download_and_decrypt = λ blob_id s. download s;
  get_sync_status = λ blob_id s. (ok (some (pending_download, 0)), s);
  increment_retries = λ blob_id s. (ok tt, s);
  update_sync_status = λ blob_id status s. (ok tt, (marked status s.0, s.1));
  put = λ blob_id blob size s. (ok tt, s);
  get = λ blob_id s. (ok (some (text "x")), s);
}

abbrev silent : Manager Network
silent = record manager { download_and_decrypt = λ blob_id s. (ok none, s) }

abbrev blobs : Blobs Network
blobs = record {
  remote_list = λ deleted s. (ok [], s);
  local_list = λ s. (ok [], s);
  local_list_status = λ status s. (ok s.0, s);
  update_batch_sync_status = λ ids status s. (ok tt, s);
  batch_delete = λ ids s. (ok tt, s);
  send = λ blob_id s. (ok tt, s);
  fetch = fetch manager;
}

abbrev network : Network
network = (text "a" ∷ text "b" ∷ [], 2)
