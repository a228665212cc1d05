-- ===== src/Client/BlobsFetch/Pending.antt =====
-- The loop of `_fetch_missing` with the program's `__fetch`: when it ends, and when it does not.
use leap_soledad.Prelude.{ℕ, ◌≤◌, ◌<◌, ◌≡◌, Bool, true, false, Option, none, some, List, ◌∷◌, Text}
use leap_soledad.Prelude.Result.{Result, ok, err}
use leap_soledad.Prelude.Action.{Action}
use leap_soledad.Client.BlobsSync.{SyncStatus, Blobs, synced, pending_download}
use leap_soledad.Client.BlobsFetch.{Manager, is_invalid_blob}

-- Whether a download gave a blob.
abbrev pub has_blob : Option (Option Text × ℕ) → Bool
has_blob none = false
has_blob (some (none, size)) = false
has_blob (some (some blob, size)) = true

module _ {S : Type 0} (pending : S → List Text) (patience : S → ℕ) where
  -- A call that returns, with the blobs pending that are given.
  abbrev pub Leaves : {A : Type 0} → S → List Text → Result A × S → Type 0
  Leaves s blobs (ok a, s') = (pending s' ≡ blobs) × (patience s' ≤ patience s)
  Leaves s blobs (err e, s') = true ≡ false

  -- A download that gives a blob; or fails, though not for the blob's content, with fewer failures
  -- to come. What is pending stays.
  abbrev pub Downloads : S → Result (Option (Option Text × ℕ)) × S → Type 0
  Downloads s (ok result, s') =
      (has_blob result ≡ true) × (pending s' ≡ pending s) × (patience s' ≤ patience s)
  Downloads s (err e, s') =
      (is_invalid_blob e ≡ false) × (pending s' ≡ pending s) × (patience s' < patience s)

  -- A local database that does not fail and that has a status for each blob, of which `pending` are
  -- those to download; and a server whose downloads fail `patience` times at most.
  pub record Delivers (B : Blobs S) (M : Manager S) : Type 0 where
    pub lists : (s : S) → B.local_list_status pending_download s ≡ (ok (pending s), s)
    pub downloads :
        (s : S) (blob_id : Text) (rest : List Text)
        → pending s ≡ blob_id ∷ rest
        → Downloads s (M.download_and_decrypt blob_id s)
    pub status_of : S → Text → SyncStatus × ℕ
    pub statuses :
        (s : S) (blob_id : Text)
        → M.get_sync_status blob_id s ≡ (ok (some (status_of s blob_id)), s)
    pub puts :
        (s : S) (blob_id blob : Text) (size : ℕ) → Leaves s (pending s) (M.put blob_id blob size s)
    pub gets : (s : S) (blob_id : Text) → Leaves s (pending s) (M.get blob_id s)
    pub marks :
        (s : S) (blob_id : Text) (rest : List Text)
        → pending s ≡ blob_id ∷ rest
        → Leaves s rest (M.update_sync_status blob_id synced s)

module _ {S : Type 0} (pending : S → List Text) (patience : S → ℕ) (B : Blobs S)
    (M : Manager S) where
  -- A download that returns without a blob, and leaves pending what was.
  abbrev pub IsVain : S → Result (Option (Option Text × ℕ)) × S → Type 0
  IsVain s (ok result, s') = (has_blob result ≡ false) × (pending s' ≡ pending s)
  IsVain s (err e, s') = true ≡ false
