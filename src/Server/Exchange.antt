-- ===== src/Server/Exchange.antt =====
-- `SyncExchange` of src/leap/soledad/server/sync.py over any backend: the server's database is the
-- couch backend, of which only the operations that the exchange calls are named here.
use leap_soledad.Prelude.{ℕ, Option, none, some, List, [], ◌∷◌, Text, length, map}
use leap_soledad.Prelude.Result.{Result, ok, err, attribute_error}
use leap_soledad.Document.{Document}
use leap_soledad.Store.Incoming.{Outcome, inserted, converged, superseded, conflicted}
use leap_soledad.Store.Changes.{Change}
use leap_soledad.Sync.Exchange.{unseen}
use leap_soledad.Server.SyncState.{
  SyncState, put_seen_id, seen_ids, put_changes_to_return, sync_info,
}

-- A document of a batch: `(doc, gen, trans_id, number_of_docs, doc_idx)`, and the id of the
-- document.
pub record Entry : Type 0 where
  pub doc_id : Text
  pub doc : Document
  pub gen : ℕ
  pub trans_id : Text
  pub number_of_docs : ℕ
  pub doc_idx : ℕ

-- The operations of a backend with state `S` that an exchange calls.
pub record Backend (S : Type 0) : Type 0 where
  pub whats_changed : ℕ → S → ℕ × Text × List Change
  -- `_put_doc_if_newer` for a source, conflicts not saved: the state and the generation
  pub put_doc_if_newer : Text → Entry → S → Result (Outcome × ℕ) × S
  -- `get_docs` of the ids, deleted documents among them
  pub get_docs : List Text → S → Result (List Document)
  pub batch_start : S → S
  pub batch_end : S → S

-- `changes_to_return` is `none` until the attribute is set.
pub record Exchange (S : Type 0) : Type 0 where
  pub db : S
  pub source_replica_uid : Text
  pub source_last_known_generation : ℕ
  pub state : SyncState
  pub new_info : Option (ℕ × Text)
  pub changes_to_return : Option (List Change)

-- `SyncExchange(db, source_replica_uid, last_known_generation, sync_id)`, with the state of the
-- session that `sync_id` names
abbrev pub new_exchange : {S : Type 0} → S → Text → ℕ → SyncState → Exchange S
new_exchange db source_replica_uid last_known_generation state = record {
  db = db;
  source_replica_uid = source_replica_uid;
  source_last_known_generation = last_known_generation;
  state = state;
  new_info = none;
  changes_to_return = none;
}

-- The state of a session after a document: noted if it was inserted or had converged.
unfoldable pub note_outcome : Text → Outcome → ℕ → SyncState → SyncState
unfolding put_seen_id
note_outcome doc_id inserted at_gen s = put_seen_id doc_id at_gen s
note_outcome doc_id converged at_gen s = put_seen_id doc_id at_gen s
note_outcome doc_id superseded at_gen s = s
note_outcome doc_id conflicted at_gen s = s

module _ {S : Type 0} (b : Backend S) where
  -- What `find_changes_to_return` does with the answer of `sync_info`: the generation, the number
  -- of changes, and the exchange.
  unfoldable pub find_with : Option (ℕ × Text × ℕ) → Exchange S → (ℕ × ℕ) × Exchange S
  find_with (some (new_gen, new_trans_id, number_of_changes)) x =
      ((new_gen, number_of_changes), record x { new_info = some (new_gen, new_trans_id) })
  find_with none x =
      let (new_gen, new_trans_id, changes) = b.whats_changed x.source_last_known_generation x.db in
      let to_return = unseen (seen_ids x.state) changes in
      (
        (new_gen, length to_return),
        record x {
          state = put_changes_to_return new_gen new_trans_id to_return x.state;
          new_info = some (new_gen, new_trans_id);
          changes_to_return = some to_return;
        },
      )

  unfoldable pub find_changes_to_return : Exchange S → Result (ℕ × ℕ) × Exchange S
  unfolding find_with
  find_changes_to_return x = elim (sync_info x.state) [
    | err e ↦ (err e, x)
    | ok info ↦ let (found, x') = find_with info x in (ok found, x')
  ]

  -- The documents with the generations and transaction ids of their changes: `izip`.
  unfoldable pub zip_changes : List Document → List Change → List (Document × ℕ × Text)
  zip_changes [] changes = []
  zip_changes (doc ∷ docs) [] = []
  zip_changes (doc ∷ docs) ((doc_id, gen, trans_id) ∷ changes) =
      (doc, gen, trans_id) ∷ zip_changes docs changes

  -- The calls of the callback that `return_docs` makes.
  unfoldable pub return_docs : Exchange S → Result (List (Document × ℕ × Text))
  unfolding zip_changes
  return_docs x = elim x.changes_to_return [
    | none ↦ err attribute_error
    | some changes ↦ elim (b.get_docs (map (λ c. c.0) changes) x.db) [
      | err e ↦ err e
      | ok docs ↦ ok (zip_changes docs changes)
    ]
  ]

  unfoldable pub insert_doc_from_source : Entry → Exchange S → Result (Unit {0}) × Exchange S
  unfolding note_outcome
  insert_doc_from_source e x =
      let (r, db) = b.put_doc_if_newer x.source_replica_uid e x.db in
      elim r [
        | err error ↦ (err error, record x { db = db })
        | ok (state, at_gen) ↦
            (ok tt, record x { db = db; state = note_outcome e.doc_id state at_gen x.state })
      ]

  abbrev and_insert :
      Result (Unit {0}) × Exchange S
      → (Exchange S → Result (Unit {0}) × Exchange S)
      → Result (Unit {0}) × Exchange S
  and_insert (ok u, x) more = more x
  and_insert (err e, x) more = (err e, x)

  -- The loop of `batched_insert_from_source` and the end of the batch.
  unfoldable pub insert_entries : List Entry → Exchange S → Result (Unit {0}) × Exchange S
  unfolding insert_doc_from_source
  insert_entries [] x = (ok tt, record x { db = b.batch_end x.db })
  insert_entries (e ∷ entries) x = and_insert (insert_doc_from_source e x) (insert_entries entries)

  unfoldable pub batched_insert_from_source :
      List Entry → Exchange S → Result (Unit {0}) × Exchange S
  unfolding insert_entries
  batched_insert_from_source [] x = (ok tt, x)
  batched_insert_from_source (e ∷ entries) x =
      insert_entries (e ∷ entries) (record x { db = b.batch_start x.db })
