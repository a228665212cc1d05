-- ===== src/SoledadBackend/Target.antt =====
-- `SoledadSyncTarget` of src/leap/soledad/common/backend.py: what a source asks the server for when
-- a sync starts, and what it records when it ends.
use leap_soledad.Prelude.{ℕ, Text}
use leap_soledad.Prelude.Action.{Action, pure, lift, ◌>>=◌}
use leap_soledad.SoledadBackend.Database.{Database, Cached, Soledad, on_database}
use leap_soledad.SoledadBackend.Cache.{
  pair_of, get_replica_uid, get_replica_gen_and_trans_id, set_replica_gen_and_trans_id,
}

-- What `get_sync_info` returns.
pub record SyncInfo : Type 0 where
  pub replica_uid : Cached
  pub gen : ℕ
  pub trans_id : Text
  pub source_gen : ℕ
  pub source_trans_id : Text

module _ {S : Type 0} (D : Database S) where
  unfoldable pub get_sync_info : Text → Action (Soledad S) SyncInfo
  unfolding get_replica_uid get_replica_gen_and_trans_id
  get_sync_info source_replica_uid = do
    value ← get_replica_gen_and_trans_id D source_replica_uid
    (source_gen, source_trans_id) ← lift (pair_of value)
    (my_gen, my_trans_id) ← on_database D.read_generation_info
    replica_uid ← get_replica_uid D
    pure (record {
      replica_uid = replica_uid;
      gen = my_gen;
      trans_id = my_trans_id;
      source_gen = source_gen;
      source_trans_id = source_trans_id;
    })

  -- `record_sync_info`, which has no trace hook outside the tests
  unfoldable pub record_sync_info : Text → ℕ → Text → Action (Soledad S) (Unit {0})
  unfolding set_replica_gen_and_trans_id
  record_sync_info source_replica_uid source_replica_generation source_replica_transaction_id =
      set_replica_gen_and_trans_id D source_replica_uid source_replica_generation
        source_replica_transaction_id
