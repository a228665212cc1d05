-- ===== src/Store/Write/Branches.antt =====
-- The single outcomes of `put_doc` and `delete_doc`.
use leap_soledad.Prelude.{◌≡◌, true, Option, none, some, [], Text, text_eq_refl, arith}
use leap_soledad.Prelude.Dict.{get, contains}
use leap_soledad.Prelude.Result
use leap_soledad.VectorClock.RoundTrip.{HasPlainUid}
use leap_soledad.Prelude.Result.{
  document_does_not_exist, document_already_deleted, Error, Result, ok, err, or_raise,
  revision_conflict, conflicted_doc,
}
use leap_soledad.VectorClock.{increment}
use leap_soledad.VectorClock.Rev.{as_str, expand}
use leap_soledad.Json.{Python}
use leap_soledad.Document.{Document, get_json, is_valid_json, new_document, make_tombstone}
use leap_soledad.Store.State.{Db, Version, ◌>>=◌}
use leap_soledad.Store.State.Keeps.{Returned}
use leap_soledad.Store.Read.{get_doc}
use leap_soledad.Store.Revs.{allocate_doc_rev, matches_doc_id}
use leap_soledad.Store.Write.{is_deleted, put_doc, delete_doc}
use leap_soledad.Store.Write.Put.{Puts, Ends, Ends-then, Ends-Returned, put_doc-Ends}

module _ (py : Python) (trans_id k : Text) (doc : Document) (db : Db) (given : doc.doc_id ≡ some k)
    (well_formed : matches_doc_id k ≡ true) (unlimited : db.document_size_limit ≡ 0) where
  -- The first revision of a document: a database with no index and no size limit takes a
  -- document with a well-formed id that is not stored yet and that has no revision.
  pub put_doc_new :
      get k db.docs ≡ none
      → doc.rev ≡ none
      → db.indexes ≡ []
      → (put_doc py trans_id doc db).0
        ≡ ok (
          as_str (increment db.replica_uid []),
          record doc { rev = some (as_str (increment db.replica_uid [])) },
        )
  unfolding put_doc ◌>>=◌ allocate_doc_rev expand
  put_doc_new fresh no_rev no_index = ground arith

  -- A document with conflicts is not overwritten: the call raises, and nothing changes. The
  -- stored content is valid JSON.
  pub put_doc_conflicted :
      (version : Version)
      → get k db.docs ≡ some version
      → is_valid_json py version.1 ≡ true
      → contains k db.conflicts ≡ true
      → put_doc py trans_id doc db ≡ (err conflicted_doc, db)
  unfolding put_doc ◌>>=◌ new_document
  put_doc_conflicted version stored valid conflicted = ground arith

-- What has been put is what is read.
Puts-get_doc :
    (py : Python) (trans_id k : Text) (doc : Document) (db : Db) (result : Text × Document)
    (after : Db)
    → doc.doc_id ≡ some k
    → is_valid_json py (get_json py doc) ≡ true
    → Puts py trans_id doc db result after
    → get_doc py k true after
      ≡ ok (
          some (record {
            doc_id = some k;
            rev = some result.0;
            json = get_json py doc;
            content = none;
            has_conflicts = contains k db.conflicts;
          }))
unfolding get_doc new_document
Puts-get_doc py trans_id k doc db result after given valid p =
    let e : p.id ≡ k = cc (p.id_given, given) in
    ground (arith, p.written.docs k, p.written.conflicts, text_eq_refl k)

-- After a `put_doc` of the document `k` that returned, `get_doc` of `k` gives the content that was
-- put, under the revision that was returned. The content is valid JSON, and the replica's uid holds
-- neither `|` nor `:`.
pub get_doc-put_doc :
    (py : Python) (trans_id k : Text) (doc : Document) (db : Db)
    → HasPlainUid (db.replica_uid, 0)
    → doc.doc_id ≡ some k
    → is_valid_json py (get_json py doc) ≡ true
    → Returned
        (λ result after.
          get_doc py k true after
          ≡ ok (
              some (record {
                doc_id = some k;
                rev = some result.0;
                json = get_json py doc;
                content = none;
                has_conflicts = contains k db.conflicts;
              })))
        (put_doc py trans_id doc db)
get_doc-put_doc py trans_id k doc db plain given valid =
    Ends-Returned _ _ db (put_doc py trans_id doc db)
      (λ result after. Puts-get_doc py trans_id k doc db result after given valid)
      (put_doc-Ends py trans_id doc db plain)

-- `delete_doc` either returns, and has written the tombstone of the document under a newer
-- revision; or it raises, and has changed nothing but indexes. The replica's uid holds neither
-- `|` nor `:`.
pub delete_doc-Ends :
    (py : Python) (trans_id : Text) (doc : Document) (db : Db)
    → HasPlainUid (db.replica_uid, 0)
    → Ends (Puts py trans_id (make_tombstone doc) db) db (delete_doc py trans_id doc db)
unfolding delete_doc
delete_doc-Ends py trans_id doc db plain =
    let Q = Puts py trans_id (make_tombstone doc) db in
    unfold ◌>>=◌ in
    Ends-then Q (or_raise doc.doc_id document_does_not_exist) _ db λ k given.
      Ends-then Q (or_raise (get k db.docs) document_does_not_exist) _ db λ version _.
        Ends-then Q (Result.raise_if (is_deleted version.1) document_already_deleted) _ db
          λ _ _. put_doc-Ends py trans_id (make_tombstone doc) db plain

-- To delete a document that is stored as a tombstone raises, and changes nothing.
pub delete_doc_again :
    (py : Python) (trans_id k : Text) (doc : Document) (db : Db) (rev : Option Text)
    → doc.doc_id ≡ some k
    → get k db.docs ≡ some (rev, none)
    → delete_doc py trans_id doc db ≡ (err document_already_deleted, db)
unfolding delete_doc ◌>>=◌
delete_doc_again py trans_id k doc db rev given deleted = ground arith
