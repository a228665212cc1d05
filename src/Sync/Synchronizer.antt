-- ===== src/Sync/Synchronizer.antt =====
-- `Synchronizer.sync` of src/leap/soledad/common/l2db/sync.py with a target that is a database in
-- memory. Such a target exists, so that the branch which creates it is left out. The returned
-- documents reach the source after the target has found them all: the two databases are apart.
use leap_soledad.Prelude.{
  ℕ, ◌+◌, true, ◌&&◌, some, List, [], ◌∷◌, Text, text_eq, ltb, ◌==◌, if◌then◌else◌,
}
use leap_soledad.Prelude.Result.{Result, ok, err, invalid_replica_uid, invalid_transaction_id}
use leap_soledad.Json.{Python}
use leap_soledad.Store.State.{Db}
use leap_soledad.Store.Read.{
  validate_gen_and_trans_id, get_generation_info, get_replica_gen_and_trans_id,
}
use leap_soledad.Store.Incoming.{
  Outcome, inserted, converged, superseded, conflicted, put_doc_if_newer,
  set_replica_gen_and_trans_id,
}
use leap_soledad.Store.Changes.{Change, whats_changed}
use leap_soledad.Sync.Exchange.{
  Parcel, Exchange, find_changes_to_return, parcels, insert_docs, get_sync_info, record_sync_info,
}

-- Whether `_insert_doc_from_target` counts the document as inserted.
abbrev pub count_of : Outcome → ℕ
count_of inserted = 1
count_of converged = 0
count_of superseded = 0
count_of conflicted = 1

-- The source with `num_inserted`.
pub record Receiver : Type 0 where
  pub source : Db
  pub num_inserted : ℕ

-- The two databases.
pub record Pair : Type 0 where
  pub source : Db
  pub target : Db

module _ (py : Python) where
  -- `_insert_doc_from_target`
  unfoldable pub insert_doc_from_target : Text → Parcel → Receiver → Result (Unit {0}) × Receiver
  insert_doc_from_target target_replica_uid p x =
      let (r, db) =
        put_doc_if_newer py p.new_trans_id p.doc_id p.doc true (some target_replica_uid) p.gen
          p.trans_id x.source in
      elim r [
        | err e ↦ (err e, record { source = db; num_inserted = x.num_inserted })
        | ok (state, at_gen, doc) ↦
            (ok tt, record { source = db; num_inserted = x.num_inserted + count_of state })
      ]

  abbrev pub and_receive :
      Result (Unit {0}) × Receiver
      → (Receiver → Result (Unit {0}) × Receiver)
      → Result (Unit {0}) × Receiver
  and_receive (ok _, x) more = more x
  and_receive (err e, x) more = (err e, x)

  -- The calls of the callback that `return_docs` makes, up to an exception.
  unfoldable pub receive_docs :
      Text → List Parcel → Result (Unit {0}) → Receiver → Result (Unit {0}) × Receiver
  receive_docs target_replica_uid [] end_ x = (end_, x)
  receive_docs target_replica_uid (p ∷ ps) end_ x =
      and_receive (insert_doc_from_target target_replica_uid p x)
        (receive_docs target_replica_uid ps end_)

  -- `_record_sync_info_with_the_target(start_generation)`
  unfoldable pub record_sync_info_with_the_target : ℕ → Receiver → Db → Db
  unfolding record_sync_info
  record_sync_info_with_the_target start_generation x target =
      let (cur_gen, trans_id) = get_generation_info x.source in
      if cur_gen == start_generation + x.num_inserted && ltb 0 x.num_inserted
      then record_sync_info x.source.replica_uid cur_gen trans_id target
      else target

  -- The end of `sync`, once the documents that the target returns have reached the source.
  unfoldable pub finish_sync :
      Text → ℕ → ℕ → Text → Db → Result (Unit {0}) × Receiver → Result ℕ × Pair
  finish_sync target_replica_uid my_gen new_gen new_trans_id target (err e, x) =
      (err e, record { source = x.source; target = target })
  finish_sync target_replica_uid my_gen new_gen new_trans_id target (ok _, x) =
      let source = set_replica_gen_and_trans_id target_replica_uid new_gen new_trans_id x.source in
      (
        ok my_gen,
        record {
          source = source;
          target =
              record_sync_info_with_the_target my_gen
                (record { source = source; num_inserted = x.num_inserted }) target;
        },
      )

  -- The second and the third step of the exchange, and what `sync` does after it.
  unfoldable pub return_and_finish :
      (Text → Text) → Text → ℕ → ℕ → Db → Result (Unit {0}) × Exchange → Result ℕ × Pair
  unfolding finish_sync find_changes_to_return
  return_and_finish fresh target_replica_uid my_gen last_known_gen source (err e, x) =
      (err e, record { source = source; target = x.db })
  return_and_finish fresh target_replica_uid my_gen last_known_gen source (ok _, x) =
      let (new_gen, new_trans_id, changes) = find_changes_to_return last_known_gen x in
      let (ps, end_) = parcels py fresh changes x.db in
      finish_sync target_replica_uid my_gen new_gen new_trans_id x.db
        (receive_docs target_replica_uid ps end_ (record { source = source; num_inserted = 0 }))

  -- `sync_exchange` of the target, and the rest of `sync`. The documents to send are all read before
  -- the target is asked: the `zip` in `sync` takes their generator to its end.
  unfoldable pub exchange :
      (Text → Text) → Text → ℕ → List Change → ℕ × Text → Pair → Result ℕ × Pair
  unfolding return_and_finish
  exchange fresh target_replica_uid my_gen changes (last_known_gen, last_known_trans_id) d =
      let (ps, end_) = parcels py fresh changes d.source in
      elim end_ [
        | err e ↦ (err e, d)
        | ok _ ↦ elim (validate_gen_and_trans_id last_known_gen last_known_trans_id d.target) [
          | err e ↦ (err e, d)
          | ok _ ↦ return_and_finish fresh target_replica_uid my_gen last_known_gen d.source (
              insert_docs py d.source.replica_uid ps (ok tt)
                (record { db = d.target; seen_ids = [] }))
        ]
      ]

  -- The choice between an exchange and an early return, where there is nothing to send and
  -- nothing new at the target.
  unfoldable pub sync_changes :
      (Text → Text) → Text → ℕ → List Change → ℕ × Text → ℕ × Text → Pair → Result ℕ × Pair
  sync_changes fresh target_replica_uid my_gen [] target_info last_known d =
      let go = exchange fresh target_replica_uid my_gen [] last_known d in
      if last_known.0 == target_info.0
      then if text_eq target_info.1 last_known.1
        then (ok my_gen, d)
        else (err invalid_transaction_id, d)
      else go
  sync_changes fresh target_replica_uid my_gen (c ∷ changes) target_info last_known d =
      exchange fresh target_replica_uid my_gen (c ∷ changes) last_known d

  -- `sync()`: the generation of the source from before, and the two databases after it
  unfoldable pub sync : (Text → Text) → Pair → Result ℕ × Pair
  unfolding get_sync_info
  sync fresh d =
      let (target_replica_uid, target_info, (target_my_gen, target_my_trans_id)) =
        get_sync_info d.source.replica_uid d.target in
      let (my_gen, _, changes) = whats_changed target_my_gen d.source in
      let go =
        sync_changes fresh target_replica_uid my_gen changes target_info
          (get_replica_gen_and_trans_id (some target_replica_uid) d.source) d in
      if text_eq target_replica_uid d.source.replica_uid
      then (err invalid_replica_uid, d)
      else elim (validate_gen_and_trans_id target_my_gen target_my_trans_id d.source) [
        | err e ↦ (err e, d)
        | ok _ ↦ go
      ]
