-- ===== src/Index.antt =====
-- `InMemoryIndex` of src/leap/soledad/common/l2db/backends/inmemory.py: a dict from the keys of
-- the documents to the ids of the documents that have them.
pub mod Lookup
use leap_soledad.Prelude.{
  ℕ, suc, ◌+◌, Bool, true, false, Option, none, some, List, [], ◌∷◌, ◌++◌, map, Text, text_eq,
  if◌then◌else◌,
}
use leap_soledad.Prelude.Dict.{Dict, get, put, remove}
use leap_soledad.Prelude.Split.{join}
use leap_soledad.Prelude.Result.{
  Result, ok, err, type_error, key_error, value_error, attribute_error, ◌>>=◌,
}
use leap_soledad.Json.{Value, str, Python}
use leap_soledad.Query.{Getter, get_values}
use leap_soledad.Query.Parser.{parse_all}

-- `_values`: each key with the ids under it.
abbrev pub Entries : Type 0
Entries = Dict (List Text)

pub record Index : Type 0 where
  pub name : Text
  pub definition : List Text
  pub getters : List Getter
  pub values : Entries

-- `InMemoryIndex(index_name, index_definition)`
unfoldable pub new_index : Text → List Text → Result Index
unfolding parse_all
new_index index_name index_definition = do
  getters ← parse_all index_definition
  ok (record { name = index_name; definition = index_definition; getters = getters; values = [] })

-- `[row + [key] for row in all_rows]` for each key
abbrev pub extend_rows : List (List Value) → Value → List (List Value)
extend_rows rows key = map (λ row. row ++ (key ∷ [])) rows

abbrev pub all_rows_with : List (List Value) → List Value → List (List Value)
all_rows_with rows [] = []
all_rows_with rows (key ∷ keys) = extend_rows rows key ++ all_rows_with rows keys

-- The loop of `evaluate` over the getters: `none` is the early return of an empty list.
unfoldable pub evaluate_rows :
    Python → Value → List Getter → List (List Value) → Option (List (List Value))
unfolding get_values
evaluate_rows py obj [] rows = some rows
evaluate_rows py obj (getter ∷ getters) rows =
    let keys = get_values py obj getter in
    let rest = evaluate_rows py obj getters (all_rows_with rows keys) in
    elim keys [ [] ↦ none | key ∷ more ↦ rest ]

-- The texts of a row: `'\x01'.join(row)` raises TypeError for any other value.
unfoldable pub row_texts : List Value → Result (List Text)
row_texts [] = ok []
row_texts (str s ∷ row) = do rest ← row_texts row; ok (s ∷ rest)
row_texts (_ ∷ row) = err type_error

unfoldable pub join_rows : List (List Value) → Result (List Text)
unfolding row_texts
join_rows [] = ok []
join_rows (row ∷ rows) = do parts ← row_texts row; rest ← join_rows rows; ok (join 1 parts ∷ rest)

unfoldable pub evaluate : Python → Index → Value → Result (List Text)
unfolding evaluate_rows join_rows
evaluate py index obj = elim (evaluate_rows py obj index.getters ([] ∷ [])) [
  | none ↦ ok []
  | some rows ↦ join_rows rows
]

-- `json.loads(doc)`: of None it is TypeError.
unfoldable pub evaluate_json : Python → Index → Option Text → Result (List Text)
unfolding evaluate
evaluate_json py index none = err type_error
evaluate_json py index (some s) = elim (py.loads s) [
  | none ↦ err value_error
  | some raw ↦ evaluate py index raw
]

-- `self._values.setdefault(key, []).append(doc_id)`
unfoldable pub add_key : Text → Text → Entries → Entries
add_key doc_id key values = elim (get key values) [
  | none ↦ put key (doc_id ∷ []) values
  | some doc_ids ↦ put key (doc_ids ++ (doc_id ∷ [])) values
]

unfoldable pub add_keys : Text → List Text → Entries → Entries
unfolding add_key
add_keys doc_id [] values = values
add_keys doc_id (key ∷ keys) values = add_keys doc_id keys (add_key doc_id key values)

-- `doc_ids.remove(doc_id)`: the first occurrence, and ValueError if there is none.
unfoldable pub remove_first : Text → List Text → Result (List Text)
remove_first doc_id [] = err value_error
remove_first doc_id (d ∷ doc_ids) =
    let rest = (do left ← remove_first doc_id doc_ids; ok (d ∷ left)) in
    if text_eq d doc_id then ok doc_ids else rest

-- `self._values[key]` without the id; a key with no id left goes.
abbrev pub store_ids : Text → List Text → Entries → Entries
store_ids key [] values = remove key values
store_ids key (d ∷ doc_ids) values = put key (d ∷ doc_ids) values

unfoldable pub remove_key : Text → Text → Entries → Result Entries
unfolding remove_first
remove_key doc_id key values = elim (get key values) [
  | none ↦ err key_error
  | some doc_ids ↦ do left ← remove_first doc_id doc_ids; ok (store_ids key left values)
]

-- What the loop of `remove_json` has done when it ends or raises.
unfoldable pub remove_keys : Text → List Text → Entries → Result (Unit {0}) × Entries
unfolding remove_key
remove_keys doc_id [] values = (ok tt, values)
remove_keys doc_id (key ∷ keys) values = elim (remove_key doc_id key values) [
  | err e ↦ (err e, values)
  | ok values' ↦ remove_keys doc_id keys values'
]

-- `add_json`: evaluation raises before anything is written.
unfoldable pub add_json : Python → Text → Option Text → Index → Result Index
unfolding evaluate_json add_keys
add_json py doc_id doc index = do
  keys ← evaluate_json py index doc
  ok (record index { values = add_keys doc_id keys index.values })

unfoldable pub remove_json : Python → Text → Option Text → Index → Result (Unit {0}) × Index
unfolding evaluate_json remove_keys
remove_json py doc_id doc index = elim (evaluate_json py index doc) [
  | err e ↦ (err e, index)
  | ok keys ↦
      let (r, values) = remove_keys doc_id keys index.values in
      (r, record index { values = values })
]
