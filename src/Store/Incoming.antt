-- ===== src/Store/Incoming.antt =====
-- `_put_doc_if_newer` of `CommonBackend` and `_force_doc_sync_conflict`: a document that another
-- replica sends. Its generation is a number (no caller of the program passes None).
pub mod Branches
use leap_soledad.Prelude.{
  ℕ, Bool, true, false, Option, none, some, List, [], ◌∷◌, ◌++◌, Text, text_eq, if◌then◌else◌,
}
use leap_soledad.Prelude.Dict.{Dict, get, put}
use leap_soledad.Prelude.Result.{Result, ok, err, attribute_error, or_raise}
use leap_soledad.VectorClock.{Clock, is_newer, increment, maximize}
use leap_soledad.VectorClock.Rev.{expand, as_str}
use leap_soledad.Json.{Python}
use leap_soledad.Document.{Document, get_json, same_content_as}
use leap_soledad.Store.State.{
  Db, Version, Action, pure, raise, lift, gets, reads, modify, ◌>>=◌, ◌>>◌,
}
use leap_soledad.Store.Read.{find_doc, get_generation, validate_source}
use leap_soledad.Store.Write.{put_and_update_indexes, rev_of, opt_eq}
use leap_soledad.Store.Conflicts.{prune_conflicts}

-- The states that `_put_doc_if_newer` returns.
pub data Outcome : Type 0 where
  inserted converged superseded conflicted : Outcome

-- `self._conflicts.setdefault(doc_id, []).append(version)`
unfoldable pub add_conflict : Text → Version → Db → Db
add_conflict doc_id version db = elim (get doc_id db.conflicts) [
  | none ↦ record db { conflicts = put doc_id (version ∷ []) db.conflicts }
  | some versions ↦ record db { conflicts = put doc_id (versions ++ (version ∷ [])) db.conflicts }
]

-- `_set_replica_gen_and_trans_id`
unfoldable pub set_replica_gen_and_trans_id : Text → ℕ → Text → Db → Db
set_replica_gen_and_trans_id other_replica_uid other_generation other_transaction_id db =
    record db {
      other_generations =
          put other_replica_uid (other_generation, other_transaction_id) db.other_generations;
    }

-- `if replica_uid is not None: self._do_set_replica_gen_and_trans_id(…)`
unfoldable pub record_source : Option Text → ℕ → Text → Db → Db
unfolding set_replica_gen_and_trans_id
record_source none replica_gen replica_trans_id db = db
record_source (some replica_uid) replica_gen replica_trans_id db =
    set_replica_gen_and_trans_id replica_uid replica_gen replica_trans_id db

module _ (py : Python) where
  -- `_force_doc_sync_conflict(doc)`: the current version joins the conflicts and the incoming
  -- one takes its place. A document that is not stored raises before the list of its conflicts is
  -- made; `_put_doc_if_newer` calls this with a stored one.
  unfoldable pub force_doc_sync_conflict : Text → Text → Document → Action Document
  force_doc_sync_conflict trans_id doc_id doc = do
    found ← reads (find_doc py doc_id false)
    doc_vcr ← lift (expand doc.rev)
    doc' ← prune_conflicts py doc_id doc doc_vcr
    my_doc ← lift (or_raise found attribute_error)
    modify (add_conflict doc_id (my_doc.rev, get_json py my_doc))
    put_and_update_indexes py trans_id doc_id (some my_doc) (record doc' { has_conflicts = true })
    pure (record doc' { has_conflicts = true })

  -- The branch for a document that is newer than the current one.
  unfoldable pub insert_newer :
      Text → Text → Option Document → Document → Clock → Action (Outcome × Document)
  insert_newer trans_id doc_id cur_doc doc doc_vcr = do
    doc' ← prune_conflicts py doc_id doc doc_vcr
    put_and_update_indexes py trans_id doc_id cur_doc doc'
    pure (if opt_eq doc'.rev doc.rev then inserted else superseded, doc')

  -- The branch where both ends have the same content under revisions that neither supersedes.
  unfoldable pub merge_same :
      Text → Text → Document → Document → Clock → Clock → Action (Outcome × Document)
  merge_same trans_id doc_id cur_doc doc doc_vcr cur_vcr = do
    replica_uid ← gets (λ db. db.replica_uid)
    let rev = as_str (increment replica_uid (maximize doc_vcr cur_vcr))
    put_and_update_indexes py trans_id doc_id (some cur_doc) (record doc { rev = some rev })
    pure (superseded, record doc { rev = some rev })

  -- The last branch.
  unfoldable pub save_conflicted : Text → Text → Bool → Document → Action (Outcome × Document)
  save_conflicted trans_id doc_id false doc = pure (conflicted, doc)
  save_conflicted trans_id doc_id true doc = do
    doc' ← force_doc_sync_conflict trans_id doc_id doc
    pure (conflicted, doc')

  -- The branches for a document that is not newer than the current one.
  unfoldable pub put_not_newer :
      Text → Text → Bool → Document → Document → Clock → Clock → Action (Outcome × Document)
  put_not_newer trans_id doc_id save_conflict cur_doc doc doc_vcr cur_vcr =
      if opt_eq doc.rev cur_doc.rev
      then pure (converged, doc)
      else if is_newer cur_vcr doc_vcr
      then pure (superseded, doc)
      else do
        same ← lift (same_content_as py cur_doc doc)
        if same
            then merge_same trans_id doc_id cur_doc doc doc_vcr cur_vcr
            else save_conflicted trans_id doc_id save_conflict doc

  -- The chain of branches: `none` for the current document is None, which has no `rev`.
  unfoldable pub put_by_revs :
      Text → Text → Bool → Option Document → Document → Clock → Clock → Action (Outcome × Document)
  put_by_revs trans_id doc_id save_conflict cur_doc doc doc_vcr cur_vcr =
      if is_newer doc_vcr cur_vcr
      then insert_newer trans_id doc_id cur_doc doc doc_vcr
      else elim cur_doc [
        | none ↦ raise attribute_error
        | some cur ↦ put_not_newer trans_id doc_id save_conflict cur doc doc_vcr cur_vcr
      ]

  -- `_put_doc_if_newer(doc, save_conflict, replica_uid, replica_gen, replica_trans_id)`: the
  -- state, the generation, and the document as it is left. `doc_id` is the document's id.
  unfoldable pub put_doc_if_newer :
      Text → Text → Document → Bool → Option Text → ℕ → Text → Action (Outcome × ℕ × Document)
  unfolding record_source get_generation
  put_doc_if_newer trans_id doc_id doc save_conflict replica_uid replica_gen replica_trans_id = do
    cur_doc ← reads (find_doc py doc_id false)
    doc_vcr ← lift (expand doc.rev)
    cur_vcr ← lift (expand (rev_of cur_doc))
    reads (validate_source replica_uid replica_gen replica_trans_id)
    (state, doc') ← put_by_revs trans_id doc_id save_conflict cur_doc doc doc_vcr cur_vcr
    modify (record_source replica_uid replica_gen replica_trans_id)
    at_gen ← gets get_generation
    pure (state, at_gen, doc')
