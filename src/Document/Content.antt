-- ===== src/Document/Content.antt =====
-- The content of a document as text and as a parsed value.
use leap_soledad.Prelude.{
  ◌≡◌, refl, true, Option, none, some, [], ◌∷◌, Text, arith, Option-cases, inl, inr,
}
use leap_soledad.Prelude.Result.{ok}
use leap_soledad.Json.{Value, null, boolean, int, real, str, list, dict, Python, is_object}
use leap_soledad.Document.{Document, or_null, is_valid_json, loaded, get_content, is_tombstone}

-- What reading `content` of a document gives, and the document it leaves.
pub record ReadsContent (py : Python) (doc : Document) : Type 0 where
  pub value : Option Value
  pub left : Document
  pub returned : get_content py doc ≡ ok (value, left)
  pub no_text : left.json ≡ none
  pub parsed : left.content ≡ value
  pub compared_before : loaded py doc ≡ ok value
  pub compared_after : loaded py left ≡ ok value
  pub same_tombstone : is_tombstone left ≡ is_tombstone doc
  pub same_id : left.doc_id ≡ doc.doc_id
  pub same_rev : left.rev ≡ doc.rev

or_null_object : (value : Value) → is_object value ≡ true → or_null value ≡ some value
unfolding is_object
or_null_object (dict fields) h = refl
or_null_object null h = cc
or_null_object (boolean b) h = cc
or_null_object (int n) h = cc
or_null_object (real s) h = cc
or_null_object (str s) h = cc
or_null_object (list values) h = cc

-- Reading `content` returns the parsed value, drops the text and keeps the value in its place. It
-- changes neither what the document is compared by nor whether it is a tombstone. The text of the
-- document, if it has one, is a JSON object, and an empty text is no JSON.
pub get_content_keeps :
    (py : Python) (doc : Document)
    → py.loads [] ≡ none
    → is_valid_json py doc.json ≡ true
    → ReadsContent py doc
unfolding get_content loaded is_tombstone is_valid_json
get_content_keeps py doc empty valid = go doc.json refl
  where
    go : (json : Option Text) → doc.json ≡ json → ReadsContent py doc
    go none e = record {
      value = doc.content;
      left = doc;
      returned = ground arith;
      no_text = e;
      parsed = refl;
      compared_before = ground arith;
      compared_after = ground arith;
      same_tombstone = refl;
      same_id = refl;
      same_rev = refl;
    }
    go (some []) e = absurd (ground (arith, empty))
    go (some (c ∷ s)) e = elim (Option-cases (py.loads (c ∷ s))) [
      | inl bad ↦ absurd (ground (arith, bad))
      | inr (value, good) ↦
          let object = or_null_object value (ground (arith, good)) in
          record {
            value = some value;
            left = record doc { json = none; content = some value };
            returned = ground (arith, good, object);
            no_text = refl;
            parsed = refl;
            compared_before = ground (arith, good, object);
            compared_after = refl;
            same_tombstone = ground arith;
            same_id = refl;
            same_rev = refl;
          }
    ]
