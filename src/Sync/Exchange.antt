-- ===== src/Sync/Exchange.antt =====
-- `SyncExchange` and `LocalSyncTarget` of src/leap/soledad/common/l2db/sync.py over the database in
-- memory: the target's side of a sync. The traces that the source keeps for its tests are left out.
use leap_soledad.Prelude.{ℕ, Bool, true, false, none, some, List, [], ◌∷◌, Text, ltb, if◌then◌else◌}
use leap_soledad.Prelude.Dict.{Dict, get, put}
use leap_soledad.Prelude.Result.{Result, ok, err, attribute_error}
use leap_soledad.Json.{Python}
use leap_soledad.Document.{Document}
use leap_soledad.Store.State.{Db}
use leap_soledad.Store.Read.{find_doc, get_generation_info, get_replica_gen_and_trans_id}
use leap_soledad.Store.Incoming.{
  Outcome, inserted, converged, superseded, conflicted, put_doc_if_newer,
  set_replica_gen_and_trans_id,
}
use leap_soledad.Store.Changes.{Change, whats_changed}

-- A document on its way, with the generation and transaction id of its last change at the
-- sender, and the transaction id that the receiver allocates should it write.
pub record Parcel : Type 0 where
  pub doc_id : Text
  pub doc : Document
  pub gen : ℕ
  pub trans_id : Text
  pub new_trans_id : Text

pub record Exchange : Type 0 where
  pub db : Db
  pub seen_ids : Dict ℕ

-- `self.seen_ids[doc.doc_id] = at_gen` where the document was inserted or had converged
unfoldable pub note_seen : Text → Outcome → ℕ → Dict ℕ → Dict ℕ
note_seen doc_id inserted at_gen seen_ids = put doc_id at_gen seen_ids
note_seen doc_id converged at_gen seen_ids = put doc_id at_gen seen_ids
note_seen doc_id superseded at_gen seen_ids = seen_ids
note_seen doc_id conflicted at_gen seen_ids = seen_ids

-- `doc_id not in seen_ids or seen_ids.get(doc_id) < gen`
unfoldable pub is_unseen : Dict ℕ → Change → Bool
is_unseen seen_ids c = elim (get c.0 seen_ids) [ none ↦ true | some at_gen ↦ ltb at_gen c.1 ]

unfoldable pub unseen : Dict ℕ → List Change → List Change
unfolding is_unseen
unseen seen_ids [] = []
unseen seen_ids (c ∷ changes) =
    let rest = unseen seen_ids changes in if is_unseen seen_ids c then c ∷ rest else rest

-- `find_changes_to_return`: the new generation, its transaction id, and the changes.
unfoldable pub find_changes_to_return : ℕ → Exchange → ℕ × Text × List Change
find_changes_to_return last_known_generation x =
    let (gen, trans_id, changes) = whats_changed last_known_generation x.db in
    (gen, trans_id, unseen x.seen_ids changes)

module _ (py : Python) where
  -- The documents of the changes with their generations, as `get_docs` yields them one by one; and
  -- the exception that ends them early, if one does. `fresh` gives the transaction ids that the
  -- receiver allocates.
  unfoldable pub parcels : (Text → Text) → List Change → Db → List Parcel × Result (Unit {0})
  parcels fresh [] db = ([], ok tt)
  parcels fresh ((doc_id, gen, trans_id) ∷ changes) db =
      let (rest, end_) = parcels fresh changes db in
      elim (find_doc py doc_id false db) [
        | err e ↦ ([], err e)
        | ok none ↦ ([], err attribute_error)
        | ok (some doc) ↦ (
          record {
            doc_id = doc_id;
            doc = doc;
            gen = gen;
            trans_id = trans_id;
            new_trans_id = fresh trans_id;
          }
              ∷ rest,
          end_,
        )
      ]

  -- `insert_doc_from_source`
  unfoldable pub insert_doc_from_source : Text → Parcel → Exchange → Result (Unit {0}) × Exchange
  insert_doc_from_source source_replica_uid p x =
      let (r, db) =
        put_doc_if_newer py p.new_trans_id p.doc_id p.doc false (some source_replica_uid) p.gen
          p.trans_id x.db in
      elim r [
        | err e ↦ (err e, record { db = db; seen_ids = x.seen_ids })
        | ok (state, at_gen, doc) ↦
            (ok tt, record { db = db; seen_ids = note_seen p.doc_id state at_gen x.seen_ids })
      ]

  -- The first step of an exchange: the incoming documents one by one, up to an exception.
  abbrev pub and_insert :
      Result (Unit {0}) × Exchange
      → (Exchange → Result (Unit {0}) × Exchange)
      → Result (Unit {0}) × Exchange
  and_insert (ok _, x) more = more x
  and_insert (err e, x) more = (err e, x)

  unfoldable pub insert_docs :
      Text → List Parcel → Result (Unit {0}) → Exchange → Result (Unit {0}) × Exchange
  insert_docs source_replica_uid [] end_ x = (end_, x)
  insert_docs source_replica_uid (p ∷ ps) end_ x =
      and_insert (insert_doc_from_source source_replica_uid p x)
        (insert_docs source_replica_uid ps end_)

-- `InMemorySyncTarget.get_sync_info`
unfoldable pub get_sync_info : Text → Db → Text × (ℕ × Text) × (ℕ × Text)
get_sync_info source_replica_uid db = (
  db.replica_uid,
  get_generation_info db,
  get_replica_gen_and_trans_id (some source_replica_uid) db,
)

-- `InMemorySyncTarget.record_sync_info`
unfoldable pub record_sync_info : Text → ℕ → Text → Db → Db
unfolding set_replica_gen_and_trans_id
record_sync_info source_replica_uid source_replica_generation source_transaction_id db =
    set_replica_gen_and_trans_id source_replica_uid source_replica_generation source_transaction_id
      db
