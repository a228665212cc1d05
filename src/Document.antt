-- ===== src/Document.antt =====
-- `DocumentBase` and `Document` of src/leap/soledad/common/l2db/__init__.py: a document keeps its
-- content as JSON text, or as a parsed value once `content` has been read. A method that changes
-- the document returns the new one.
pub mod Content
use leap_soledad.Prelude.{
  ℕ, ◌+◌, Bool, true, false, ◌&&◌, Option, none, some, [], ◌∷◌, Text, text_eq, if◌then◌else◌,
  length, is_some, ◌==◌, not,
}
use leap_soledad.Prelude.Result.{
  Result, ok, err, invalid_json, invalid_content, value_error, ◌>>=◌, ◌>>◌, raise_if,
}
use leap_soledad.Json.{Value, null, Python, is_object}

pub record Document : Type 0 where
  pub doc_id : Option Text
  pub rev : Option Text
  pub json : Option Text
  pub content : Option Value
  pub has_conflicts : Bool

-- `same_content_as` on the two contents: None is equal to None only.
unfoldable pub same_value : Python → Option Value → Option Value → Bool
same_value py none none = true
same_value py none (some w) = false
same_value py (some v) none = false
same_value py (some v) (some w) = py.value_eq v w

-- The length of a text that is there and not empty, else 0.
abbrev pub text_size : Option Text → ℕ
text_size none = 0
text_size (some s) = length s

-- What `json.loads` gives, as the attribute holds it: null is None.
abbrev pub or_null : Value → Option Value
or_null null = none
or_null value = some value

module _ (py : Python) where
  -- The test of `DocumentBase.__init__` and `set_json`: the text is a JSON object, or None.
  unfoldable pub is_valid_json : Option Text → Bool
  is_valid_json none = true
  is_valid_json (some s) = elim (py.loads s) [ none ↦ false | some value ↦ is_object value ]

  -- `Document(doc_id, rev, json)`
  unfoldable pub new_document : Option Text → Option Text → Option Text → Result Document
  unfolding is_valid_json
  new_document doc_id rev json =
      if is_valid_json json
      then ok (record {
        doc_id = doc_id;
        rev = rev;
        json = json;
        content = none;
        has_conflicts = false;
      })
      else err invalid_json

  -- `json.loads(self._json)` if the text is there and not empty, else `self._content`
  unfoldable pub loaded : Document → Result (Option Value)
  loaded doc = elim doc.json [
    | none ↦ ok doc.content
    | some [] ↦ ok doc.content
    | some (c ∷ s) ↦ elim (py.loads (c ∷ s)) [
      | none ↦ err value_error
      | some value ↦ ok (or_null value)
    ]
  ]

  unfoldable pub same_content_as : Document → Document → Result Bool
  unfolding loaded same_value
  same_content_as doc other = do c1 ← loaded doc; c2 ← loaded other; ok (same_value py c1 c2)

  unfoldable pub get_json : Document → Option Text
  get_json doc = elim doc.json [
    | some s ↦ some s
    | none ↦ elim doc.content [ none ↦ none | some value ↦ some (py.dumps value) ]
  ]

  unfoldable pub get_size : Document → ℕ
  unfolding get_json
  get_size doc = text_size (get_json doc) + text_size doc.rev + text_size doc.doc_id

  unfoldable pub set_json : Option Text → Document → Result Document
  unfolding is_valid_json
  set_json json doc =
      if is_valid_json json
      then ok (record doc { json = json; content = none })
      else err invalid_json

  -- The property `content`: reading it moves the text to the parsed value.
  unfoldable pub get_content : Document → Result (Option Value × Document)
  get_content doc = elim doc.json [
    | none ↦ ok (doc.content, doc)
    | some s ↦ elim (py.loads s) [
      | none ↦ err value_error
      | some value ↦ ok (or_null value, record doc { json = none; content = or_null value })
    ]
  ]

  -- `tmp.startswith('{')`
  abbrev starts_object : Text → Bool
  starts_object [] = false
  starts_object (c ∷ s) = c == b'{'

  unfoldable pub set_content : Value → Document → Result Document
  set_content value doc =
      if starts_object (py.dumps value)
      then ok (record doc { json = some (py.dumps value); content = none })
      else err invalid_content

unfoldable pub make_tombstone : Document → Document
make_tombstone doc = record doc { json = none; content = none }

unfoldable pub is_tombstone : Document → Bool
is_tombstone doc = not (is_some doc.json) && not (is_some doc.content)
