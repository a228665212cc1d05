-- ===== src/Store/Write.antt =====
-- The methods that write a document: `put_doc`, `delete_doc`, `create_doc` and the update of the
-- indexes and the log below them. `trans_id` is what `_allocate_transaction_id` gives, and
-- `new_id` what `_allocate_doc_id` gives: random texts, which the program takes from `uuid`.
pub mod Put
pub mod Branches
use leap_soledad.Prelude.{
  ℕ, Bool, true, false, not, ◌&&◌, ◌||◌, Option, none, some, List, [], ◌∷◌, ◌++◌, Text, text,
  text_eq, if◌then◌else◌, is_some,
}
use leap_soledad.Prelude.Dict.{Dict, get, put}
use leap_soledad.Prelude.Result.{
  Result, ok, err, invalid_doc_id, conflicted_doc, revision_conflict, document_does_not_exist,
  document_already_deleted, invalid_content, or_raise,
}
use leap_soledad.Json.{Value, Python, is_object}
use leap_soledad.Document.{Document, new_document, get_json, is_tombstone, make_tombstone}
use leap_soledad.Index.{Index, add_json, remove_json}
use leap_soledad.Store.State.{
  Db, Action, pure, raise, lift, gets, reads, modify, ◌>>=◌, ◌>>◌, raise_if,
}
use leap_soledad.Store.Revs.{allocate_doc_rev, check_doc_id, check_doc_size}
use leap_soledad.Store.Read.{find_doc}

-- `a == b` of two texts, either of which may be None
abbrev pub opt_eq : Option Text → Option Text → Bool
opt_eq none none = true
opt_eq none (some t) = false
opt_eq (some s) none = false
opt_eq (some s) (some t) = text_eq s t

abbrev pub and_then :
    Result (Unit {0}) → Result (Unit {0}) × Dict Index → Dict Index → Result (Unit {0}) × Dict Index
and_then (ok _) rest same = rest
and_then (err e) rest same = (err e, same)

-- Whether `put_doc` takes the new revision from that of a deleted document.
abbrev pub revives : Option Document → Document → Bool
revives none doc = false
revives (some old_doc) doc = not (is_some doc.rev) && is_tombstone old_doc

abbrev pub rev_of : Option Document → Option Text
rev_of none = none
rev_of (some doc) = doc.rev

abbrev pub is_conflicted : Option Document → Bool
is_conflicted none = false
is_conflicted (some doc) = doc.has_conflicts

-- The revision that `put_doc` gives the document.
unfoldable pub next_rev : Text → Option Document → Document → Result Text
unfolding is_tombstone
next_rev replica_uid old_doc doc =
    if revives old_doc doc
    then allocate_doc_rev replica_uid (rev_of old_doc)
    else if opt_eq (rev_of old_doc) doc.rev
    then allocate_doc_rev replica_uid doc.rev
    else err revision_conflict

-- `self._docs[doc.doc_id][1] in ('null', None)`
abbrev pub is_deleted : Option Text → Bool
is_deleted none = true
is_deleted (some s) = text_eq s (text "null")

abbrev pub given_or : Option Text → Text → Text
given_or none new_id = new_id
given_or (some doc_id) new_id = doc_id

module _ (py : Python) where
  -- One round of the loop of `_put_and_update_indexes`, on one index: the old content goes, and
  -- the new one comes in. What was removed stays removed if the addition raises.
  unfoldable pub add_content : Text → Document → Index → Result (Unit {0}) × Index
  add_content doc_id doc index =
      if is_tombstone doc
      then (ok tt, index)
      else elim (add_json py doc_id (get_json py doc) index) [
        | ok index' ↦ (ok tt, index')
        | err e ↦ (err e, index)
      ]

  abbrev pub then_add : Text → Document → Result (Unit {0}) × Index → Result (Unit {0}) × Index
  then_add doc_id doc (ok _, index) = add_content doc_id doc index
  then_add doc_id doc (err e, index) = (err e, index)

  unfoldable pub update_index :
      Text → Option Document → Document → Index → Result (Unit {0}) × Index
  unfolding add_content
  update_index doc_id none doc index = add_content doc_id doc index
  update_index doc_id (some old_doc) doc index =
      if is_tombstone old_doc
      then add_content doc_id doc index
      else then_add doc_id doc (remove_json py doc_id (get_json py old_doc) index)

  -- The loop over `self._indexes.itervalues()`, which stops at the first index that raises.
  unfoldable pub update_indexes :
      Text → Option Document → Document → Dict Index → Result (Unit {0}) × Dict Index
  unfolding update_index
  update_indexes doc_id old_doc doc [] = (ok tt, [])
  update_indexes doc_id old_doc doc ((name, index) ∷ indexes) =
      let (r, index') = update_index doc_id old_doc doc index in
      let (r', indexes') = update_indexes doc_id old_doc doc indexes in
      and_then r (r', (name, index') ∷ indexes') ((name, index') ∷ indexes)

  -- The end of `_put_and_update_indexes`, from what the loop over the indexes has done.
  abbrev pub finish_put :
      Text → Text → Document → Result (Unit {0}) × Dict Index → Action (Unit {0})
  finish_put trans_id doc_id doc (ok _, indexes) db = (
    ok tt,
    record db {
      indexes = indexes;
      docs = put doc_id (doc.rev, get_json py doc) db.docs;
      transaction_log = db.transaction_log ++ ((doc_id, trans_id) ∷ []);
    },
  )
  finish_put trans_id doc_id doc (err e, indexes) db = (err e, record db { indexes = indexes })

  -- `_put_and_update_indexes(old_doc, doc)`
  unfoldable pub put_and_update_indexes :
      Text → Text → Option Document → Document → Action (Unit {0})
  unfolding update_indexes
  put_and_update_indexes trans_id doc_id old_doc doc db =
      finish_put trans_id doc_id doc (update_indexes doc_id old_doc doc db.indexes) db

  -- `put_doc(doc)`: the new revision, and the document with it.
  unfoldable pub put_doc : Text → Document → Action (Text × Document)
  unfolding next_rev put_and_update_indexes find_doc check_doc_id check_doc_size
  put_doc trans_id doc = do
    doc_id ← lift (or_raise doc.doc_id invalid_doc_id)
    lift (check_doc_id doc_id)
    reads (λ db. check_doc_size py db.document_size_limit doc)
    old_doc ← reads (find_doc py doc_id true)
    raise_if (is_conflicted old_doc) conflicted_doc
    new_rev ← reads (λ db. next_rev db.replica_uid old_doc doc)
    put_and_update_indexes trans_id doc_id old_doc (record doc { rev = some new_rev })
    pure (new_rev, record doc { rev = some new_rev })

  -- `delete_doc(doc)`
  unfoldable pub delete_doc : Text → Document → Action (Text × Document)
  unfolding put_doc make_tombstone
  delete_doc trans_id doc = do
    doc_id ← lift (or_raise doc.doc_id document_does_not_exist)
    found ← gets (λ db. get doc_id db.docs)
    version ← lift (or_raise found document_does_not_exist)
    raise_if (is_deleted version.1) document_already_deleted
    put_doc trans_id (make_tombstone doc)

  -- `create_doc_from_json(json, doc_id)`
  unfoldable pub create_doc_from_json : Text → Text → Option Text → Option Text → Action Document
  unfolding put_doc
  create_doc_from_json trans_id new_id json doc_id = do
    doc ← lift (new_document py (some (given_or doc_id new_id)) none json)
    (_, stored) ← put_doc trans_id doc
    pure stored

  -- `create_doc(content, doc_id)`
  unfoldable pub create_doc : Text → Text → Value → Option Text → Action Document
  unfolding create_doc_from_json is_object
  create_doc trans_id new_id content doc_id = do
    raise_if (not (is_object content)) invalid_content
    create_doc_from_json trans_id new_id (some (py.dumps content)) doc_id
