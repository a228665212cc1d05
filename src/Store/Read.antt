-- ===== src/Store/Read.antt =====
-- The methods that only read documents and generations.
use leap_soledad.Prelude.{
  ℕ, ◌-◌, Bool, true, false, not, ◌&&◌, Option, none, some, List, [], ◌∷◌, Text, text_eq, ltb, ◌==◌,
  if◌then◌else◌, length, get_elem?, get_last?, is_some,
}
use leap_soledad.Prelude.Dict.{Dict, get, contains}
use leap_soledad.Prelude.Result.{
  Result, ok, err, invalid_generation, invalid_transaction_id, attribute_error, index_error, ◌>>=◌,
  or_raise,
}
use leap_soledad.Json.{Python}
use leap_soledad.Document.{Document, new_document, is_tombstone}
use leap_soledad.Store.State.{Db, Version}

-- `_get_replica_gen_and_trans_id`; None is no key.
unfoldable pub get_replica_gen_and_trans_id : Option Text → Db → ℕ × Text
get_replica_gen_and_trans_id none db = (0, [])
get_replica_gen_and_trans_id (some other_replica_uid) db =
    elim (get other_replica_uid db.other_generations) [ none ↦ (0, []) | some pair ↦ pair ]

-- `_get_generation`
unfoldable pub get_generation : Db → ℕ
get_generation db = length db.transaction_log

-- `self._transaction_log[-1][1]`, and '' of an empty log
abbrev pub last_trans_id : List (Text × Text) → Text
last_trans_id log = elim (get_last? log) [ none ↦ [] | some entry ↦ entry.1 ]

-- `_get_generation_info`
unfoldable pub get_generation_info : Db → ℕ × Text
get_generation_info db = (length db.transaction_log, last_trans_id db.transaction_log)

-- `_get_trans_id_for_gen`
unfoldable pub get_trans_id_for_gen : ℕ → Db → Result Text
get_trans_id_for_gen generation db =
    if generation == 0
    then ok []
    else if ltb (length db.transaction_log) generation
    then err invalid_generation
    else do entry ← or_raise (get_elem? db.transaction_log (generation - 1)) index_error; ok entry.1

-- `validate_gen_and_trans_id`
unfoldable pub validate_gen_and_trans_id : ℕ → Text → Db → Result (Unit {0})
unfolding get_trans_id_for_gen
validate_gen_and_trans_id generation trans_id db = if generation == 0 then ok tt else do
  known_trans_id ← get_trans_id_for_gen generation db
  if text_eq known_trans_id trans_id then ok tt else err invalid_transaction_id

-- `_validate_source`
unfoldable pub validate_source : Option Text → ℕ → Text → Db → Result (Unit {0})
unfolding get_replica_gen_and_trans_id
validate_source other_replica_uid other_generation other_transaction_id db =
    let (old_generation, old_transaction_id) = get_replica_gen_and_trans_id other_replica_uid db in
    if ltb other_generation old_generation
    then err invalid_generation
    else if ltb old_generation other_generation
    then ok tt
    else if text_eq other_transaction_id old_transaction_id
    then ok tt
    else err invalid_transaction_id

-- `_has_conflicts`
abbrev pub has_conflicts : Text → Db → Bool
has_conflicts doc_id db = contains doc_id db.conflicts

abbrev pub unless_deleted : Bool → Option Document → Option Document
unless_deleted include_deleted none = none
unless_deleted include_deleted (some doc) =
    if is_tombstone doc && not include_deleted then none else some doc

module _ (py : Python) where
  -- `self._factory(doc_id, doc_rev, content)` with `has_conflicts` set
  unfoldable pub make_doc : Text → Version → Bool → Result Document
  make_doc doc_id version conflicted = do
    doc ← new_document py (some doc_id) version.0 version.1
    ok (record doc { has_conflicts = conflicted })

  -- `_get_doc(doc_id, check_for_conflicts)`
  unfoldable pub find_doc : Text → Bool → Db → Result (Option Document)
  unfolding make_doc
  find_doc doc_id check_for_conflicts db = elim (get doc_id db.docs) [
    | none ↦ ok none
    | some version ↦ do
      doc ← make_doc doc_id version (check_for_conflicts && has_conflicts doc_id db)
      ok (some doc)
  ]

  -- `get_doc(doc_id, include_deleted)`
  unfoldable pub get_doc : Text → Bool → Db → Result (Option Document)
  unfolding find_doc is_tombstone
  get_doc doc_id include_deleted db = do
    doc ← find_doc doc_id true db
    ok (unless_deleted include_deleted doc)

  -- The loop of `get_all_docs`.
  unfoldable pub all_docs : Bool → Db → Dict Version → Result (List Document)
  unfolding make_doc
  all_docs include_deleted db [] = ok []
  all_docs include_deleted db ((doc_id, version) ∷ docs) =
      let rest = all_docs include_deleted db docs in
      if not (is_some version.1) && not include_deleted then rest else do
        doc ← make_doc doc_id version (has_conflicts doc_id db)
        results ← rest
        ok (doc ∷ results)

  unfoldable pub get_all_docs : Bool → Db → Result (ℕ × List Document)
  unfolding get_generation all_docs
  get_all_docs include_deleted db = do
    results ← all_docs include_deleted db db.docs
    ok (get_generation db, results)

  -- `get_docs` of `CommonBackend`: a missing document is None, which has no `is_tombstone`.
  unfoldable pub get_docs : List Text → Bool → Bool → Db → Result (List Document)
  unfolding find_doc is_tombstone
  get_docs [] check_for_conflicts include_deleted db = ok []
  get_docs (doc_id ∷ doc_ids) check_for_conflicts include_deleted db = do
    found ← find_doc doc_id check_for_conflicts db
    doc ← or_raise found attribute_error
    rest ← get_docs doc_ids check_for_conflicts include_deleted db
    ok (if is_tombstone doc && not include_deleted then rest else doc ∷ rest)

  -- The documents of the conflicts of one document.
  unfoldable pub make_docs : Text → List Version → Result (List Document)
  unfolding make_doc
  make_docs doc_id [] = ok []
  make_docs doc_id (version ∷ versions) = do
    doc ← make_doc doc_id version false
    rest ← make_docs doc_id versions
    ok (doc ∷ rest)

  -- `get_doc_conflicts`: the current document, then the conflicts.
  unfoldable pub get_doc_conflicts : Text → Db → Result (List Document)
  unfolding find_doc make_docs
  get_doc_conflicts doc_id db = elim (get doc_id db.conflicts) [
    | none ↦ ok []
    | some versions ↦ do
      found ← find_doc doc_id false db
      doc ← or_raise found attribute_error
      rest ← make_docs doc_id versions
      ok (record doc { has_conflicts = true } ∷ rest)
  ]
