-- ===== src/SoledadBackend/Write.antt =====
-- The methods of `SoledadBackend` that read and write documents. `trans_id` is the transaction id
-- that is allocated.
pub mod Saved
use leap_soledad.Prelude.{
  Bool, true, false, ◌&&◌, not, Option, none, some, List, [], ◌∷◌, map, Text, if◌then◌else◌,
}
use leap_soledad.Prelude.Result
use leap_soledad.Prelude.Result.{
  Result, ok, err, or_raise, invalid_doc_id, conflicted_doc, revision_conflict,
  document_does_not_exist, document_already_deleted, attribute_error,
}
use leap_soledad.Prelude.Action.{Action, pure, lift, gets, raise_if, ◌>>=◌, ◌>>◌}
use leap_soledad.VectorClock.{Clock}
use leap_soledad.VectorClock.Rev.{expand}
use leap_soledad.Json.{Python}
use leap_soledad.Document.{make_tombstone, is_tombstone}
use leap_soledad.Store.Revs.{allocate_doc_rev, ensure_maximal_rev, check_doc_id, check_doc_size}
use leap_soledad.Store.Write.{opt_eq}
use leap_soledad.Store.Conflicts.{is_superseded}
use leap_soledad.SoledadBackend.ServerDocument.{
  ServerDocument, rev_of, with_rev, get_conflicts, set_conflicts, add_conflict, delete_conflicts,
}
use leap_soledad.SoledadBackend.Database.{Database, Soledad, on_database}
use leap_soledad.SoledadBackend.Cache.{own_name}

-- `old_doc and old_doc.has_conflicts`
abbrev pub is_conflicted : Option ServerDocument → Bool
is_conflicted none = false
is_conflicted (some old_doc) = old_doc.document.has_conflicts

-- Whether the put revives a document that was deleted: the first of the tests on revisions.
abbrev pub revives : ServerDocument → Option ServerDocument → Bool
revives doc none = false
revives doc (some old_doc) = opt_eq (rev_of doc) none && is_tombstone old_doc.document

-- The revision that the new one is allocated from.
unfoldable pub base_rev : ServerDocument → Option ServerDocument → Result.Result (Option Text)
base_rev doc none = if opt_eq (rev_of doc) none then ok (rev_of doc) else err revision_conflict
base_rev doc (some old_doc) =
    if revives doc (some old_doc)
    then ok (rev_of old_doc)
    else if opt_eq (rev_of old_doc) (rev_of doc)
    then ok (rev_of doc)
    else err revision_conflict

-- `doc.make_tombstone()`
abbrev pub buried : ServerDocument → ServerDocument
buried doc = record doc { document = make_tombstone doc.document }

-- `doc is None or (doc.is_tombstone() and not include_deleted)`
abbrev pub unless_deleted : Bool → Option ServerDocument → Option ServerDocument
unless_deleted include_deleted none = none
unless_deleted include_deleted (some doc) =
    if is_tombstone doc.document && not include_deleted then none else some doc

-- The clocks that `_ensure_maximal_rev` reads before it asks for the uid.
unfoldable pub expand_all : List (Option Text) → Result.Result (List Clock)
expand_all [] = ok []
expand_all (rev ∷ revs) =
    Result.◌>>=◌ (expand rev) λ vcr. Result.◌>>=◌ (expand_all revs) λ vcrs. ok (vcr ∷ vcrs)

module _ (py : Python) {S : Type 0} (D : Database S) where
  unfoldable pub get_doc : Text → Bool → Action (Soledad S) (Option ServerDocument)
  get_doc doc_id include_deleted = do
    doc ← on_database (D.read_doc doc_id true)
    pure (unless_deleted include_deleted doc)

  -- `_put_doc(old_doc, doc)`
  unfoldable pub save :
      Text → Option ServerDocument → ServerDocument → Action (Soledad S) (Unit {0})
  save trans_id old_doc doc = on_database (D.save_document old_doc doc trans_id)

  -- `self._allocate_doc_rev(old_rev)`: the clock is read before the uid is asked for.
  unfoldable pub allocate : Option Text → Action (Soledad S) Text
  unfolding own_name
  allocate old_rev = do
    vcr ← lift (expand old_rev)
    replica_uid ← own_name D
    lift (allocate_doc_rev replica_uid old_rev)

  unfoldable pub put_doc : Text → ServerDocument → Action (Soledad S) (Text × ServerDocument)
  unfolding allocate save base_rev
  put_doc trans_id doc = do
    doc_id ← lift (or_raise doc.document.doc_id invalid_doc_id)
    lift (check_doc_id doc_id)
    limit ← gets (λ x. x.document_size_limit)
    lift (check_doc_size py limit doc.document)
    old_doc ← on_database (D.read_doc doc_id true)
    raise_if (is_conflicted old_doc) conflicted_doc
    old_rev ← lift (base_rev doc old_doc)
    new_rev ← allocate old_rev
    save trans_id old_doc (with_rev new_rev doc)
    pure (new_rev, with_rev new_rev doc)

  unfoldable pub delete_doc :
      Text → Text → ServerDocument → Action (Soledad S) (Text × ServerDocument)
  unfolding allocate save
  delete_doc trans_id doc_id doc = do
    found ← on_database (D.read_doc doc_id true)
    old_doc ← lift (or_raise found document_does_not_exist)
    raise_if (not (opt_eq (rev_of old_doc) (rev_of doc))) revision_conflict
    raise_if (is_tombstone old_doc.document) document_already_deleted
    raise_if old_doc.document.has_conflicts conflicted_doc
    new_rev ← allocate (rev_of doc)
    save trans_id (some old_doc) (buried (with_rev new_rev doc))
    pure (new_rev, buried (with_rev new_rev doc))

  -- The branch of `resolve_doc` in which the new version takes the place of the current one.
  unfoldable pub resolve_current :
      Text → List Text → ServerDocument → ServerDocument → Action (Soledad S) ServerDocument
  unfolding save set_conflicts delete_conflicts
  resolve_current trans_id revs cur_doc doc = do
    doc' ← lift (delete_conflicts (map some revs) (set_conflicts (get_conflicts cur_doc) doc))
    save trans_id (some cur_doc) doc'
    pure doc'

  -- The branch in which it becomes one more conflict of the current one.
  unfoldable pub resolve_other :
      Text → List Text → ServerDocument → ServerDocument → Action (Soledad S) ServerDocument
  unfolding save set_conflicts add_conflict delete_conflicts
  resolve_other trans_id revs cur_doc doc = do
    added ← lift (add_conflict doc.document cur_doc)
    cur_doc' ← lift (delete_conflicts (map some revs) added)
    save trans_id (some cur_doc') cur_doc'
    pure (set_conflicts (get_conflicts cur_doc') doc)

  unfoldable pub resolve_doc :
      Text → Text → List Text → ServerDocument → Action (Soledad S) ServerDocument
  unfolding expand_all resolve_current resolve_other own_name
  resolve_doc trans_id doc_id conflicted_doc_revs doc = do
    found ← on_database (D.read_doc doc_id true)
    cur_doc ← lift (or_raise found attribute_error)
    vcr ← lift (expand_all (rev_of cur_doc ∷ map some conflicted_doc_revs))
    replica_uid ← own_name D
    new_rev ← lift (ensure_maximal_rev replica_uid (rev_of cur_doc) conflicted_doc_revs)
    if is_superseded conflicted_doc_revs (rev_of cur_doc)
        then resolve_current trans_id conflicted_doc_revs cur_doc (with_rev new_rev doc)
        else resolve_other trans_id conflicted_doc_revs cur_doc (with_rev new_rev doc)
