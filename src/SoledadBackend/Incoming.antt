-- ===== src/SoledadBackend/Incoming.antt =====
-- `_put_doc_if_newer` of `SoledadBackend`: that of `CommonBackend`
-- (src/leap/soledad/common/l2db/backends/__init__.py) with the backend's own pruning, conflicts and
-- recording of the source. The source's uid and generation are there: the server's callers pass both.
use leap_soledad.Prelude.{
  ℕ, Bool, true, false, Option, none, some, List, [], ◌∷◌, ◌++◌, Text, if◌then◌else◌,
}
use leap_soledad.Prelude.Result
use leap_soledad.Prelude.Result.{Result, ok, err, or_raise, attribute_error, type_error}
use leap_soledad.Prelude.Action.{Action, pure, raise, lift, ◌>>=◌, ◌>>◌}
use leap_soledad.VectorClock.{Clock, is_newer, increment, maximize}
use leap_soledad.VectorClock.Rev.{expand, as_str}
use leap_soledad.Json.{Python}
use leap_soledad.Document.{Document, get_json, same_content_as, new_document}
use leap_soledad.Store.Write.{opt_eq}
use leap_soledad.Store.Incoming.{Outcome, inserted, converged, superseded, conflicted}
use leap_soledad.SoledadBackend.ServerDocument.{
  ServerDocument, rev_of, with_rev, get_conflicts, set_conflicts, add_conflict, delete_conflicts,
}
use leap_soledad.SoledadBackend.Database.{Database, Soledad, on_database}
use leap_soledad.SoledadBackend.Cache.{own_name, do_set_replica_gen_and_trans_id, validate_source}
use leap_soledad.SoledadBackend.Write.{save}

-- What the loop of `_prune_conflicts` carries: the clock, `autoresolved`, and `c_revs_to_prune`.
pub record Pruning : Type 0 where
  pub vcr : Clock
  pub autoresolved : Bool
  pub to_prune : List (Option Text)

-- One turn of the loop.
unfoldable pub prune_one : Python → Document → Document → Pruning → Result.Result Pruning
prune_one py doc c_doc p = Result.◌>>=◌ (expand c_doc.rev) λ c_vcr.
    if is_newer p.vcr c_vcr
    then ok (record p { to_prune = p.to_prune ++ (c_doc.rev ∷ []) })
    else Result.◌>>=◌ (same_content_as py doc c_doc) λ same. ok (
        if same
        then record {
          vcr = maximize p.vcr c_vcr;
          autoresolved = true;
          to_prune = p.to_prune ++ (c_doc.rev ∷ []);
        }
        else p)

unfoldable pub prune_loop : Python → Document → List Document → Pruning → Result.Result Pruning
unfolding prune_one
prune_loop py doc [] p = ok p
prune_loop py doc (c_doc ∷ conflicts) p =
    Result.◌>>=◌ (prune_one py doc c_doc p) λ p'. prune_loop py doc conflicts p'

module _ (py : Python) {S : Type 0} (D : Database S) where
  -- The revision after the loop.
  unfoldable pub rev_after : ServerDocument → Pruning → Action (Soledad S) ServerDocument
  unfolding own_name
  rev_after doc p x = if p.autoresolved then renew x else (ok doc, x)
    where
      renew : Action (Soledad S) ServerDocument
      renew = do
        replica_uid ← own_name D
        pure (with_rev (as_str (increment replica_uid p.vcr)) doc)

  unfoldable pub prune_conflicts :
      ServerDocument → Clock → Action (Soledad S) (ServerDocument × Clock)
  unfolding prune_loop rev_after
  prune_conflicts doc doc_vcr x =
      if doc.document.has_conflicts then prune x else (ok (doc, doc_vcr), x)
    where
      prune : Action (Soledad S) (ServerDocument × Clock)
      prune = do
        conflicts ← lift (or_raise doc.conflicts type_error)
        p ← lift (
            prune_loop py doc.document conflicts
              (record { vcr = doc_vcr; autoresolved = false; to_prune = [] }))
        doc' ← rev_after doc p
        doc'' ← lift (delete_conflicts p.to_prune doc')
        pure (doc'', p.vcr)

  -- `self._factory(doc.doc_id, my_doc.rev, my_doc.get_json())`
  abbrev pub copied : Text → Document → Result.Result Document
  copied doc_id my_doc = new_document py (some doc_id) my_doc.rev (get_json py my_doc)

  unfoldable pub force_doc_sync_conflict :
      Text → Text → ServerDocument → Action (Soledad S) ServerDocument
  unfolding prune_conflicts add_conflict save
  force_doc_sync_conflict trans_id doc_id doc = do
    found ← on_database (D.read_doc doc_id false)
    doc_vcr ← lift (expand (rev_of doc))
    (doc', vcr) ← prune_conflicts doc doc_vcr
    my_doc ← lift (or_raise found attribute_error)
    conflict ← lift (copied doc_id my_doc.document)
    doc'' ← lift (add_conflict conflict doc')
    save py D trans_id (some my_doc) doc''
    pure doc''

  -- The branch for a document that is newer than the current one.
  unfoldable pub insert_newer :
      Text
      → Option ServerDocument
      → ServerDocument
      → Clock
      → Action (Soledad S) (Outcome × ServerDocument)
  unfolding prune_conflicts save
  insert_newer trans_id cur_doc doc doc_vcr = do
    (doc', vcr) ← prune_conflicts doc doc_vcr
    save py D trans_id cur_doc doc'
    pure (if opt_eq (rev_of doc') (rev_of doc) then inserted else superseded, doc')

  -- The branch where both ends have the same content.
  unfoldable pub merge_same :
      Text
      → ServerDocument
      → ServerDocument
      → Clock
      → Clock
      → Action (Soledad S) (Outcome × ServerDocument)
  unfolding own_name save
  merge_same trans_id cur_doc doc doc_vcr cur_vcr = do
    replica_uid ← own_name D
    let merged = with_rev (as_str (increment replica_uid (maximize doc_vcr cur_vcr))) doc
    save py D trans_id (some cur_doc) merged
    pure (superseded, merged)

  -- The last branch.
  unfoldable pub save_conflicted :
      Text → Text → Bool → ServerDocument → Action (Soledad S) (Outcome × ServerDocument)
  unfolding force_doc_sync_conflict
  save_conflicted trans_id doc_id false doc = pure (conflicted, doc)
  save_conflicted trans_id doc_id true doc = do
    doc' ← force_doc_sync_conflict trans_id doc_id doc
    pure (conflicted, doc')

  -- The branches for a document that is not newer than the current one.
  unfoldable pub put_not_newer :
      Text
      → Text
      → Bool
      → ServerDocument
      → ServerDocument
      → Clock
      → Clock
      → Action (Soledad S) (Outcome × ServerDocument)
  unfolding merge_same save_conflicted
  put_not_newer trans_id doc_id save_conflict cur_doc doc doc_vcr cur_vcr x =
      let differ = compare x in
      if opt_eq (rev_of doc) (rev_of cur_doc)
      then (ok (converged, doc), x)
      else if is_newer cur_vcr doc_vcr
      then (ok (superseded, doc), x)
      else differ
    where
      compare : Action (Soledad S) (Outcome × ServerDocument)
      compare = do
        same ← lift (same_content_as py cur_doc.document doc.document)
        if same
            then merge_same trans_id cur_doc doc doc_vcr cur_vcr
            else save_conflicted trans_id doc_id save_conflict doc

  -- The chain of branches of `CommonBackend`.
  unfoldable pub put_by_revs :
      Text
      → Text
      → Bool
      → Option ServerDocument
      → ServerDocument
      → Clock
      → Clock
      → Action (Soledad S) (Outcome × ServerDocument)
  unfolding insert_newer put_not_newer
  put_by_revs trans_id doc_id save_conflict cur_doc doc doc_vcr cur_vcr =
      if is_newer doc_vcr cur_vcr then insert_newer trans_id cur_doc doc doc_vcr else elim cur_doc [
        | none ↦ raise attribute_error
        | some cur ↦ put_not_newer trans_id doc_id save_conflict cur doc doc_vcr cur_vcr
      ]

  -- The document with the conflicts of the stored one.
  abbrev pub with_conflicts_of : Option ServerDocument → ServerDocument → ServerDocument
  with_conflicts_of none doc = doc
  with_conflicts_of (some my_doc) doc = set_conflicts (get_conflicts my_doc) doc

  -- `_put_doc_if_newer` of `CommonBackend`
  unfoldable pub put_newer :
      Text
      → Text
      → ServerDocument
      → Bool
      → Text
      → ℕ
      → Text
      → Action (Soledad S) (Outcome × ℕ × ServerDocument)
  unfolding validate_source put_by_revs do_set_replica_gen_and_trans_id
  put_newer trans_id doc_id doc save_conflict replica_uid replica_gen replica_trans_id = do
    cur_doc ← on_database (D.read_doc doc_id false)
    doc_vcr ← lift (expand (rev_of doc))
    cur_vcr ← lift (expand (elim cur_doc [ none ↦ none | some cur ↦ rev_of cur ]))
    validate_source D replica_uid replica_gen replica_trans_id
    (state, doc') ← put_by_revs trans_id doc_id save_conflict cur_doc doc doc_vcr cur_vcr
    do_set_replica_gen_and_trans_id D replica_uid replica_gen replica_trans_id
    (generation, last_trans_id) ← on_database D.read_generation_info
    pure (state, generation, doc')

  -- `_put_doc_if_newer` of `SoledadBackend`
  unfoldable pub put_doc_if_newer :
      Text
      → Text
      → ServerDocument
      → Bool
      → Text
      → ℕ
      → Text
      → Action (Soledad S) (Outcome × ℕ × ServerDocument)
  unfolding put_newer
  put_doc_if_newer trans_id doc_id doc save_conflict replica_uid replica_gen replica_trans_id = do
    my_doc ← on_database (D.read_doc doc_id true)
    put_newer trans_id doc_id (with_conflicts_of my_doc doc) save_conflict replica_uid replica_gen
        replica_trans_id
