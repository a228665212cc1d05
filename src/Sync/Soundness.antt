-- ===== src/Sync/Soundness.antt =====
-- A sync leaves both databases sound, whether it returns or raises.
use leap_soledad.Prelude.{
  ℕ, Bool, true, false, some, List, [], ◌∷◌, Text, text_eq, Bool-cases, inl, inr, ◌==◌, ltb, ◌&&◌,
  if◌then◌else◌, ◌+◌,
}
use leap_soledad.Prelude.Result.{Result, ok, err, invalid_replica_uid}
use leap_soledad.Json.{Python}
use leap_soledad.Store.State.{Db}
use leap_soledad.Store.Read.{
  validate_gen_and_trans_id, get_generation_info, get_replica_gen_and_trans_id,
}
use leap_soledad.Store.Changes.{Change, whats_changed}
use leap_soledad.Store.Soundness.{IsSound}
use leap_soledad.Store.Soundness.Methods.{replica_gen-IsSound}
use leap_soledad.Store.Reach.{rebase}
use leap_soledad.Sync.Keeps.{insert_docs-Keeps, receive_docs-Keeps, IsSound-PutKeeps}
use leap_soledad.Sync.Exchange.{
  Parcel, Exchange, get_sync_info, parcels, insert_docs, find_changes_to_return, record_sync_info,
}
use leap_soledad.Sync.Synchronizer.{
  Receiver, Pair, record_sync_info_with_the_target, finish_sync, return_and_finish, exchange,
  sync_changes, sync,
}

module _ (py : Python) (fresh : Text → Text) (source_log target_log : List (Text × Text)) where
  -- Both databases are sound, and their logs extend those of before the sync.
  abbrev pub AreSound : Pair → Type 0
  AreSound d = IsSound source_log d.source × IsSound target_log d.target

  abbrev LeavesSound : Result ℕ × Pair → Type 0
  LeavesSound r = AreSound r.1

  record_sync_info-IsSound :
      (start : ℕ) (x : Receiver) (target : Db)
      → IsSound target_log target
      → IsSound target_log (record_sync_info_with_the_target py start x target)
  unfolding record_sync_info_with_the_target
  record_sync_info-IsSound start x target s =
      go ((get_generation_info x.source).0 == start + x.num_inserted && ltb 0 x.num_inserted)
    where
      go :
          (b : Bool)
          → IsSound target_log (
              if b
              then record_sync_info x.source.replica_uid
                  (get_generation_info x.source).0
                  (get_generation_info x.source).1
                  target
              else target)
      go true =
          unfold record_sync_info in
          replica_gen-IsSound target_log py x.source.replica_uid _ _ target s
      go false = s

  finish_sync-AreSound :
      (uid : Text) (my_gen new_gen : ℕ) (new_trans_id : Text) (target : Db)
      (r : Result (Unit {0}) × Receiver)
      → IsSound source_log r.1.source
      → IsSound target_log target
      → AreSound (finish_sync py uid my_gen new_gen new_trans_id target r).1
  unfolding finish_sync
  finish_sync-AreSound uid my_gen new_gen new_trans_id target (err e, x) s t = (s, t)
  finish_sync-AreSound uid my_gen new_gen new_trans_id target (ok u, x) s t = (
    replica_gen-IsSound source_log py uid new_gen new_trans_id x.source s,
    record_sync_info-IsSound my_gen _ target t,
  )

  return_and_finish-AreSound :
      (uid : Text) (my_gen last_known : ℕ) (source : Db) (r : Result (Unit {0}) × Exchange)
      → IsSound source_log source
      → IsSound target_log r.1.db
      → AreSound (return_and_finish py fresh uid my_gen last_known source r).1
  unfolding return_and_finish
  return_and_finish-AreSound uid my_gen last_known source (err e, x) s t = (s, t)
  return_and_finish-AreSound uid my_gen last_known source (ok u, x) s t =
      let found = find_changes_to_return last_known x in
      let ps = parcels py fresh found.2 x.db in
      finish_sync-AreSound uid my_gen found.0 found.1 x.db _
        (receive_docs-Keeps py (IsSound source_log) (IsSound-PutKeeps py source_log) uid ps.0 ps.1 _
          s)
        t

  exchange-AreSound :
      (uid : Text) (my_gen : ℕ) (changes : List Change) (last_known : ℕ × Text) (d : Pair)
      → AreSound d
      → AreSound (exchange py fresh uid my_gen changes last_known d).1
  unfolding exchange
  exchange-AreSound uid my_gen changes last_known d s =
      go ps.1 (validate_gen_and_trans_id last_known.0 last_known.1 d.target)
    where
      ps : List Parcel × Result (Unit {0})
      ps = parcels py fresh changes d.source

      go :
          (end_ r : Result (Unit {0}))
          → LeavesSound (elim end_ [
            | err e ↦ (err e, d)
            | ok u ↦ elim r [
              | err e ↦ (err e, d)
              | ok u ↦ return_and_finish py fresh uid my_gen last_known.0 d.source (
                  insert_docs py d.source.replica_uid ps.0
                    (ok tt)
                    (record { db = d.target; seen_ids = [] }))
            ]
          ])
      go (err e) r = s
      go (ok u) (err e) = s
      go (ok u) (ok v) = return_and_finish-AreSound uid my_gen last_known.0 d.source _ s.0 (
          insert_docs-Keeps py (IsSound target_log) (IsSound-PutKeeps py target_log)
            d.source.replica_uid ps.0 (ok tt) _ s.1)

  sync_changes-AreSound :
      (uid : Text) (my_gen : ℕ) (changes : List Change) (target_info last_known : ℕ × Text)
      (d : Pair)
      → AreSound d
      → AreSound (sync_changes py fresh uid my_gen changes target_info last_known d).1
  unfolding sync_changes
  sync_changes-AreSound uid my_gen [] target_info last_known d s =
      elim (Bool-cases (last_known.0 == target_info.0)) [
        | inl same ↦ elim (Bool-cases (text_eq target_info.1 last_known.1)) [
          | inl same' ↦ rw same (rw same' s)
          | inr other ↦ rw same (rw other s)
        ]
        | inr other ↦ rw other (exchange-AreSound uid my_gen [] last_known d s)
      ]
  sync_changes-AreSound uid my_gen (c ∷ changes) target_info last_known d s =
      exchange-AreSound uid my_gen (c ∷ changes) last_known d s

  go_on-AreSound :
      (b : Bool) (r : Result (Unit {0})) (d : Pair) (go : Result ℕ × Pair)
      → AreSound d
      → LeavesSound go
      → LeavesSound
          (if b then (err invalid_replica_uid, d) else elim r [ err e ↦ (err e, d) | ok u ↦ go ])
  go_on-AreSound true r d go s s' = s
  go_on-AreSound false (err e) d go s s' = s
  go_on-AreSound false (ok u) d go s s' = s'

-- A sync of two sound databases, whether it returns or raises half-way, leaves both sound, and
-- nothing of the log that either had before it is lost or changed.
pub sync-AreSound :
    (py : Python) (fresh : Text → Text) (d : Pair)
    → IsSound [] d.source
    → IsSound [] d.target
    → AreSound py fresh d.source.transaction_log d.target.transaction_log (sync py fresh d).1
unfolding sync
sync-AreSound py fresh d s t =
    let sound : AreSound py fresh d.source.transaction_log d.target.transaction_log d =
      (rebase [] d.source s, rebase [] d.target t) in
    let (target_replica_uid, target_info, (target_my_gen, target_my_trans_id)) =
      get_sync_info d.source.replica_uid d.target in
    let (my_gen, my_trans_id, changes) = whats_changed target_my_gen d.source in
    let known = get_replica_gen_and_trans_id (some target_replica_uid) d.source in
    go_on-AreSound py fresh d.source.transaction_log d.target.transaction_log
      (text_eq target_replica_uid d.source.replica_uid)
      (validate_gen_and_trans_id target_my_gen target_my_trans_id d.source) d
      (sync_changes py fresh target_replica_uid my_gen changes target_info known d) sound
      (sync_changes-AreSound py fresh d.source.transaction_log d.target.transaction_log
        target_replica_uid my_gen changes target_info known d sound)
