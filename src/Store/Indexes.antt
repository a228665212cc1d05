-- ===== src/Store/Indexes.antt =====
-- The indexes of the database: creating, deleting and querying them.
use leap_soledad.Prelude.{
  Bool, true, false, ◌&&◌, Option, none, some, List, [], ◌∷◌, map, Text, text_eq, if◌then◌else◌,
}
use leap_soledad.Prelude.Dict.{Dict, get, put, remove}
use leap_soledad.Prelude.Split.{split}
use leap_soledad.Prelude.Result as R
use leap_soledad.Prelude.Result.{
  Result, ok, err, index_name_taken_error, index_does_not_exist, or_raise,
}
use leap_soledad.Json.{Python}
use leap_soledad.Document.{Document}
use leap_soledad.Index.{Index, new_index, add_json}
use leap_soledad.Index.Lookup.{lookup, lookup_range, keys}
use leap_soledad.Store.State.{Db, Version, Action, lift, modify, ◌>>=◌}
use leap_soledad.Store.Read.{find_doc}

-- `==` of two lists of texts
unfoldable pub texts_eq : List Text → List Text → Bool
texts_eq [] [] = true
texts_eq [] (t ∷ ts) = false
texts_eq (s ∷ ss) [] = false
texts_eq (s ∷ ss) (t ∷ ts) = let rest = texts_eq ss ts in text_eq s t && rest

-- `del self._indexes[index_name]`, a missing name ignored
unfoldable pub delete_index : Text → Db → Db
delete_index index_name db = record db { indexes = remove index_name db.indexes }

-- `list_indexes`
unfoldable pub list_indexes : Db → List (Text × List Text)
list_indexes db = map (λ e. (e.1.name, e.1.definition)) db.indexes

-- The bound of a range as the caller gives it: None, a text, which stands for a tuple with it
-- alone, or a tuple.
pub data Bound : Type 0 where
  unbounded : Bound
  single : Text → Bound
  values : List Text → Bound

abbrev pub bound_values : Bound → Option (List Text)
bound_values unbounded = none
bound_values (single value) = some (value ∷ [])
bound_values (values vs) = some vs

-- `get_index_keys`: the keys of a dict are distinct, and so are their parts.
unfoldable pub get_index_keys : Text → Db → Result (List (List Text))
get_index_keys index_name db =
    R.◌>>=◌ (or_raise (get index_name db.indexes) index_does_not_exist)
      λ index. ok (map (split 1) (keys index))

module _ (py : Python) where
  -- The loop of `create_index` over the documents; tombstones are left out.
  unfoldable pub index_docs : Index → Dict Version → Result Index
  index_docs index [] = ok index
  index_docs index ((doc_id, (rev, none)) ∷ docs) = index_docs index docs
  index_docs index ((doc_id, (rev, some doc)) ∷ docs) =
      R.◌>>=◌ (add_json py doc_id (some doc) index) λ index'. index_docs index' docs

  -- `create_index(index_name, *index_expressions)`
  unfoldable pub create_index : Text → List Text → Action (Unit {0})
  unfolding index_docs texts_eq
  create_index index_name index_expressions db = elim (get index_name db.indexes) [
    | some index ↦
        if texts_eq index.definition index_expressions
        then (ok tt, db)
        else (err index_name_taken_error, db)
    | none ↦
        (do
          empty ← lift (new_index index_name index_expressions)
          index ← lift (index_docs empty db.docs)
          modify (λ db'. record db' { indexes = put index_name index db'.indexes }))
          db
  ]

  -- `self._get_doc(doc_id, check_for_conflicts=True)` for each id
  unfoldable pub docs_of : List Text → Db → Result (List (Option Document))
  docs_of [] db = ok []
  docs_of (doc_id ∷ doc_ids) db =
      R.◌>>=◌ (find_doc py doc_id true db)
        λ doc. R.◌>>=◌ (docs_of doc_ids db) λ rest. ok (doc ∷ rest)

  -- `get_from_index(index_name, *key_values)`
  unfoldable pub get_from_index : Text → List Text → Db → Result (List (Option Document))
  unfolding docs_of
  get_from_index index_name key_values db =
      R.◌>>=◌ (or_raise (get index_name db.indexes) index_does_not_exist)
        λ index. R.◌>>=◌ (lookup index key_values) λ doc_ids. docs_of doc_ids db

  -- `get_range_from_index(index_name, start_value, end_value)`
  unfoldable pub get_range_from_index : Text → Bound → Bound → Db → Result (List (Option Document))
  unfolding docs_of
  get_range_from_index index_name start_value end_value db =
      R.◌>>=◌ (or_raise (get index_name db.indexes) index_does_not_exist) λ index.
        R.◌>>=◌ (lookup_range index (bound_values start_value) (bound_values end_value))
          λ doc_ids. docs_of doc_ids db
