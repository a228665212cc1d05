-- ===== src/Client/BlobsSync/Missing.antt =====
-- The loops of the synchronizer come to an end with nothing left to transfer.
use leap_soledad.Prelude.{
  ℕ, zero, suc, ◌≤◌, ◌<◌, ◌≡◌, refl, sym, ap, subst, ◌∙◌, true, List, [], ◌∷◌, Text, length, arith,
}
use leap_soledad.Prelude.Result.{Result, ok, err}
use leap_soledad.Prelude.Action.{Action}
use leap_soledad.Client.Retry.{
  is_retriable, next_wait, Retried, try_again, after_call, retry_loop, with_retry,
}
use leap_soledad.Client.BlobsSync.{
  SyncStatus, Blobs, without, transfer_first, transfer_next, transfer_missing,
}

-- A transfer of the first pending blob: it leaves the others pending; or it fails in a way that it is
-- tried again after, with fewer failures to come.
abbrev pub Transferred :
    {S : Type 0} → (S → List Text) → (S → ℕ) → S → List Text → Result (Unit {0}) × S → Type 0
Transferred pending patience s rest (ok u, s') = (pending s' ≡ rest) × (patience s' ≤ patience s)
Transferred pending patience s rest (err e, s') =
    (is_retriable e ≡ true) × (pending s' ≡ pending s) × (patience s' < patience s)

-- Transfers of blobs of one status, of which `pending` is the list, and which fail `patience` times
-- at most.
pub record Lively {S : Type 0} (B : Blobs S) (status : SyncStatus)
    (transfer : Text → Action S (Unit {0})) (pending : S → List Text) (patience : S → ℕ)
    : Type 0 where
  pub lists : (s : S) → B.local_list_status status s ≡ (ok (pending s), s)
  pub transfers :
      (s : S) (blob_id : Text) (rest : List Text)
      → pending s ≡ blob_id ∷ rest
      → Transferred pending patience s rest (transfer blob_id s)

-- The loop has returned, and nothing is left.
pub record IsDone {S : Type 0} (pending : S → List Text) (r : Result (Unit {0}) × S) : Type 0 where
  pub returned : r.0 ≡ ok tt
  pub none_left : pending r.1 ≡ []

pub without-nil : (blobs : List Text) → without [] blobs ≡ blobs
unfolding without
without-nil [] = refl
without-nil (b ∷ blobs) = ap (◌∷◌ b) (without-nil blobs)

module _ {S : Type 0} (B : Blobs S) (status : SyncStatus) (transfer : Text → Action S (Unit {0}))
    (pending : S → List Text) (patience : S → ℕ)
    (lively : Lively B status transfer pending patience) where
  -- What is left to do when the first transfer has been made.
  abbrev Made : S → List Text → Retried S → Type 0
  Made s rest (r, waits, s') = (r ≡ ok tt) × (pending s' ≡ rest) × (patience s' ≤ patience s)

  retry_loop-Made :
      (fuel retry_wait : ℕ) (s : S) (blob_id : Text) (rest : List Text)
      → pending s ≡ blob_id ∷ rest
      → patience s < fuel
      → Made s rest (retry_loop fuel retry_wait (transfer blob_id) s)
  unfolding retry_loop
  retry_loop-Made zero retry_wait s blob_id rest h lt = absurd (omega arith)
  retry_loop-Made (suc fuel) retry_wait s blob_id rest h lt =
      go (transfer blob_id s) (lively.transfers s blob_id rest h)
        (λ s'. retry_loop-Made fuel (next_wait retry_wait) s' blob_id rest)
    where
      go :
          (r : Result (Unit {0}) × S)
          → Transferred pending patience s rest r
          → ((s' : S)
              → pending s' ≡ blob_id ∷ rest
              → patience s' < fuel
              → Made s' rest (retry_loop fuel (next_wait retry_wait) (transfer blob_id) s'))
          → Made s rest
              (after_call retry_wait (retry_loop fuel (next_wait retry_wait) (transfer blob_id)) r)
      go (ok u, s') (left, le) ih = (refl, left, le)
      go (err e, s') (again, same, fewer) ih =
          let (r, left, le) = ih s' (same ∙ h) (omega arith) in
          subst
            (λ b. Made s rest (
              try_again b e retry_wait (retry_loop fuel (next_wait retry_wait) (transfer blob_id))
                s'))
            (sym again) (r, left, omega arith)

  -- The loop over the blobs that are missing ends without an exception and leaves none of them, if
  -- a transfer fails only in ways that it is tried again after, and that a bounded number of times.
  -- The bounds of the model's loops are above those numbers.
  pub transfer_missing-IsDone :
      (fuel turns : ℕ) (s : S)
      → length (pending s) < turns
      → patience s < fuel
      → IsDone pending (transfer_missing fuel B turns status transfer s)
  unfolding transfer_missing transfer_next transfer_first with_retry
  transfer_missing-IsDone fuel zero s lt lt' = absurd (omega arith)
  transfer_missing-IsDone fuel (suc turns) s lt lt' =
      go (pending s) refl (transfer_missing-IsDone fuel turns)
    where
      go :
          (blobs : List Text)
          → pending s ≡ blobs
          → ((s' : S)
              → length (pending s') < turns
              → patience s' < fuel
              → IsDone pending (transfer_missing fuel B turns status transfer s'))
          → IsDone pending (transfer_missing fuel B (suc turns) status transfer s)
      go [] e ih =
          rw (lively.lists s, without-nil (pending s), e)
            (record { returned = refl; none_left = e })
      go (b ∷ rest) e ih =
          let (r, left, le) = retry_loop-Made fuel 1 s b rest e lt' in
          rw (lively.lists s, without-nil (pending s), e, r)
            (ih (with_retry fuel (transfer b) s).2
              (omega (
                arith,
                lt,
                ap (λ (l : List Text). length l) left,
                ap (λ (l : List Text). length l) e,
              ))
              (omega (arith, le, lt')))
