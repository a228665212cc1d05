-- ===== src/Query.antt =====
-- The getters of src/leap/soledad/common/l2db/query_parser.py, which take the values to index out
-- of a document. The parser of index expressions is in Query/Parser.
pub mod Padding
pub mod Parser
use leap_soledad.Prelude.{
  ℕ, ◌-◌, Bool, true, false, List, [], ◌∷◌, ◌++◌, map, Text, text_eq, if◌then◌else◌, length, ltb,
}
use leap_soledad.Prelude.Int.{ℤ, pos, negsuc}
use leap_soledad.Json.{
  Value, null, boolean, int, real, str, list, dict, Values, nil, cons, Python, get_field,
}
use Padding.{pad_int}

mutual
  pub data Getter : Type 0 where
    static_getter : List Value → Getter
    -- The field's name, split at its dots: a first part and the others.
    extract_field_getter : Text → List Text → Getter
    lower : Getter → Getter
    number : ℕ → Getter → Getter
    bool split_words is_null : Getter → Getter
    combine : Getters → Getter

  pub data Getters : Type 0 where
    no_getter : Getters
    getter : Getter → Getters → Getters

-- `[v for v in val if not isinstance(v, (dict, list))]`
unfoldable pub simple_values : Values → List Value
simple_values nil = []
simple_values (cons (dict fields) values) = simple_values values
simple_values (cons (list items) values) = simple_values values
simple_values (cons v values) = v ∷ simple_values values

-- What `extract_field` does at the last subfield.
unfoldable pub last_field : Value → List Value
unfolding simple_values
last_field null = []
last_field (dict fields) = []
last_field (list values) = simple_values values
last_field v = v ∷ []

-- The values of a function at each item, in one list.
unfoldable pub flat_values : (Value → List Value) → Values → List Value
flat_values f nil = []
flat_values f (cons v values) = f v ++ flat_values f values

-- What `extract_field` does with a value that is not the last: `f` is its call for the subfields
-- that follow.
unfoldable pub descend : (Value → List Value) → Value → List Value
unfolding flat_values
descend f (list values) = flat_values f values
descend f (dict fields) = f (dict fields)
descend f _ = []

-- `extract_field(raw_doc, subfields, index)`: the subfield at `index`, and those after it.
unfoldable pub extract_field : Text → List Text → Value → List Value
unfolding last_field descend get_field
extract_field subfield [] (dict fields) = last_field (get_field subfield fields)
extract_field subfield (next ∷ rest) (dict fields) =
    descend (extract_field next rest) (get_field subfield fields)
extract_field subfield rest _ = []

-- The `transform` methods; each drops the values that it cannot transform.
unfoldable pub transform_lower : Python → List Value → List Value
transform_lower py [] = []
transform_lower py (str s ∷ values) = str (py.lower s) ∷ transform_lower py values
transform_lower py (_ ∷ values) = transform_lower py values

-- `isinstance(val, int)`: an integer of 64 bits. Python reads a larger one as a `long`.
abbrev is_int : ℤ → Bool
is_int (pos n) = ltb n 9223372036854775808
is_int (negsuc n) = ltb n 9223372036854775808

unfoldable pub transform_number : ℕ → List Value → List Value
unfolding pad_int
transform_number width [] = []
transform_number width (int v ∷ values) =
    let rest = transform_number width values in
    if is_int v then str (pad_int width v) ∷ rest else rest
transform_number width (_ ∷ values) = transform_number width values

unfoldable pub transform_bool : List Value → List Value
transform_bool [] = []
transform_bool (boolean b ∷ values) =
    str (if b then b'1' ∷ [] else b'0' ∷ []) ∷ transform_bool values
transform_bool (_ ∷ values) = transform_bool values

-- `result.add(word)`, the set as a list of distinct words
unfoldable pub add_word : List Text → Text → List Text
add_word [] word = word ∷ []
add_word (w ∷ result) word = if text_eq w word then w ∷ result else w ∷ add_word result word

unfoldable pub add_words : List Text → List Text → List Text
unfolding add_word
add_words result [] = result
add_words result (word ∷ words) = add_words (add_word result word) words

unfoldable pub collect_words : Python → List Text → List Value → List Text
unfolding add_words
collect_words py result [] = result
collect_words py result (str s ∷ values) = collect_words py (add_words result (py.words s)) values
collect_words py result (_ ∷ values) = collect_words py result values

unfoldable pub transform_split_words : Python → List Value → List Value
unfolding collect_words
transform_split_words py values = map str (collect_words py [] values)

abbrev pub is_empty {ℓ} : {A : Type ℓ} → List A → Bool
is_empty [] = true
is_empty (x ∷ xs) = false

unfoldable mutual
  unfolding extract_field transform_lower transform_number transform_bool transform_split_words

  -- `getter.get(raw_doc)`
  pub get_values : Python → Value → Getter → List Value
  get_values py raw_doc (static_getter value) = value
  get_values py raw_doc (extract_field_getter field rest) = extract_field field rest raw_doc
  get_values py raw_doc (lower inner) = transform_lower py (get_values py raw_doc inner)
  get_values py raw_doc (number width inner) = transform_number width (get_values py raw_doc inner)
  get_values py raw_doc (bool inner) = transform_bool (get_values py raw_doc inner)
  get_values py raw_doc (split_words inner) = transform_split_words py (get_values py raw_doc inner)
  get_values py raw_doc (is_null inner) = boolean (is_empty (get_values py raw_doc inner)) ∷ []
  get_values py raw_doc (combine inner) = combined_values py raw_doc inner

  -- `Combine.get`
  pub combined_values : Python → Value → Getters → List Value
  combined_values py raw_doc no_getter = []
  combined_values py raw_doc (getter inner rest) =
      get_values py raw_doc inner ++ combined_values py raw_doc rest
