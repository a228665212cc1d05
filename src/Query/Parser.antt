-- ===== src/Query/Parser.antt =====
-- `Parser` of src/leap/soledad/common/l2db/query_parser.py: an index expression to a getter. The
-- methods pass on the tokens that are left, which the source keeps in `_tokens`.
pub mod Total
use leap_soledad.Prelude.Strip.{is_space, lstrip, rstrip}
use leap_soledad.Prelude.{
  ℕ, zero, suc, ◌+◌, ◌*◌, Bool, true, false, ◌||◌, Option, none, some, List, [], ◌∷◌, ◌++◌, Text,
  text, text_eq, if◌then◌else◌, length, ◌==◌,
}
use leap_soledad.Prelude.Split.{split}
use leap_soledad.Prelude.Decimal.{read}
use leap_soledad.Prelude.Result.{
  Result, ok, err, index_definition_parse_error, type_error, out_of_fuel, ◌>>=◌,
}
use leap_soledad.Query.{
  Getter, extract_field_getter, lower, number, bool, split_words, is_null, combine, Getters,
  no_getter, getter,
}

-- The token of what stands before a delimiter: none, if that is blank.
unfoldable pub flush : Text → List Text
unfolding lstrip rstrip
flush current = elim (lstrip (rstrip current)) [ [] ↦ [] | c ∷ s ↦ (c ∷ s) ∷ [] ]

abbrev pub is_delimiter : ℕ → Bool
is_delimiter c = c == b'(' || c == b')' || c == b','

-- The loop of `_set_expression`: `current` is what has been read since the last delimiter.
unfoldable pub set_expression : Text → Text → List Text
unfolding flush
set_expression current [] = flush current
set_expression current (c ∷ expression) =
    let rest = set_expression (if is_delimiter c then [] else current ++ (c ∷ [])) expression in
    if is_delimiter c then flush current ++ ((c ∷ []) ∷ rest) else rest

-- `_parse_term` returns a token, or the getter of an operation.
pub data Term : Type 0 where
  token : Text → Term
  parsed : Getter → Term

abbrev pub open_paren : Text
open_paren = b'(' ∷ []

abbrev pub close_paren : Text
close_paren = b')' ∷ []

abbrev pub comma : Text
comma = b',' ∷ []

-- `fieldname.endswith('.')`
unfoldable pub ends_in_dot : Text → Bool
ends_in_dot [] = false
ends_in_dot (c ∷ []) = c == b'.'
ends_in_dot (c ∷ d ∷ s) = ends_in_dot (d ∷ s)

-- `ExtractField(term)`: `field.split('.')` has a first part.
abbrev pub extract_getter : List Text → Getter
extract_getter [] = extract_field_getter [] []
extract_getter (first ∷ rest) = extract_field_getter first rest

unfoldable pub to_getter : Term → Result Getter
unfolding ends_in_dot
to_getter (parsed g) = ok g
to_getter (token term) =
    if ends_in_dot term
    then err index_definition_parse_error
    else ok (extract_getter (split b'.' term))

-- The registered transformations.
pub data Operation : Type 0 where
  op_split_words op_lower op_number op_bool op_is_null op_combine : Operation

-- `self._transformations.get(op_name, None)`
unfoldable pub transformation : Text → Option Operation
transformation name =
    if text_eq name (text "split_words")
    then some op_split_words
    else if text_eq name (text "lower")
    then some op_lower
    else if text_eq name (text "number")
    then some op_number
    else if text_eq name (text "bool")
    then some op_bool
    else if text_eq name (text "is_null")
    then some op_is_null
    else if text_eq name (text "combine")
    then some op_combine
    else none

-- `int(arg)`: of a getter it is TypeError, and the ValueError of a text is reported.
unfoldable pub int_argument : Term → Result ℕ
int_argument (parsed g) = err type_error
int_argument (token s) = elim (read s) [ ok n ↦ ok n | err e ↦ err index_definition_parse_error ]

-- The arguments of an operation whose `args` is `['expression']`, as getters.
unfoldable pub expressions : List Term → Result (List Getter)
unfolding to_getter
expressions [] = ok []
expressions (arg ∷ args) = do inner ← to_getter arg; rest ← expressions args; ok (inner ∷ rest)

-- `op(*parsed)` for a class whose `__init__` takes one argument.
abbrev pub unary : (Getter → Getter) → List Getter → Result Getter
unary make (inner ∷ []) = ok (make inner)
unary make _ = err type_error

abbrev pub getters_of : List Getter → Getters
getters_of [] = no_getter
getters_of (g ∷ rest) = getter g (getters_of rest)

-- The arguments of `number`, whose `args` is `['expression', int]`, checked in turn.
unfoldable pub number_arguments : List Term → Result (List (Getter × ℕ) × Bool)
unfolding to_getter int_argument
number_arguments [] = ok ([], false)
number_arguments (arg ∷ []) = do inner ← to_getter arg; ok ([], true)
number_arguments (arg ∷ width ∷ args) = do
  inner ← to_getter arg
  n ← int_argument width
  rest ← number_arguments args
  ok ((inner, n) ∷ rest.0, rest.1)

-- `Number(*parsed)`: one expression and one width, with no argument left over.
abbrev pub number_of : List (Getter × ℕ) × Bool → Result Getter
number_of ((inner, n) ∷ [], false) = ok (number n inner)
number_of _ = err type_error

-- The end of `_parse_op`, once its arguments are read.
unfoldable pub apply_op : Operation → List Term → Result Getter
unfolding expressions number_arguments
apply_op op_split_words args = do parts ← expressions args; unary split_words parts
apply_op op_lower args = do parts ← expressions args; unary lower parts
apply_op op_number args = do parts ← number_arguments args; number_of parts
apply_op op_bool args = do parts ← expressions args; unary bool parts
apply_op op_is_null args = do parts ← expressions args; unary is_null parts
apply_op op_combine args = do parts ← expressions args; ok (combine (getters_of parts))

abbrev pub is_punctuation : Text → Bool
is_punctuation term = text_eq term comma || text_eq term close_paren || text_eq term open_paren

-- `_peek_token() == '('`
abbrev pub opens : List Text → Bool
opens [] = false
opens (t ∷ tokens) = text_eq t open_paren

-- `_get_token()`, the token dropped.
abbrev pub rest_of : List Text → List Text
rest_of [] = []
rest_of (t ∷ tokens) = tokens

unfoldable mutual
  unfolding apply_op

  -- `_parse_term`, with `_parse_op` for a term that a parenthesis follows.
  pub parse_term : ℕ → List Text → Result (Term × List Text)
  parse_term zero tokens = err out_of_fuel
  parse_term (suc fuel) [] = err index_definition_parse_error
  parse_term (suc fuel) (term ∷ tokens) =
      let op : Result (Term × List Text) = elim (transformation term) [
        | none ↦ err index_definition_parse_error
        | some op ↦ do
          (args, left) ← parse_args fuel (rest_of tokens)
          g ← apply_op op args
          ok (parsed g, left)
      ] in
      if is_punctuation term
      then err index_definition_parse_error
      else if opens tokens
      then op
      else ok (token term, tokens)

  -- The loop of `_parse_op` over the arguments.
  pub parse_args : ℕ → List Text → Result (List Term × List Text)
  parse_args zero tokens = err out_of_fuel
  parse_args (suc fuel) tokens = do
    (term, left) ← parse_term fuel tokens
    let more = do (args, left') ← parse_args fuel (rest_of left); ok (term ∷ args, left')
    elim left [
      | [] ↦ err index_definition_parse_error
      | sep ∷ left' ↦
          if text_eq sep close_paren
          then ok (term ∷ [], left')
          else if text_eq sep comma
          then more
          else err index_definition_parse_error
    ]

-- `parse(expression)`. Every two calls take a token, so that twice their number and one is
-- enough fuel.
unfoldable pub parse : Text → Result Getter
unfolding set_expression parse_term to_getter
parse expression = do
  let tokens = set_expression [] expression
  (term, left) ← parse_term (length tokens * 2 + 1) tokens
  g ← to_getter term
  elim left [ [] ↦ ok g | t ∷ left' ↦ err index_definition_parse_error ]

unfoldable pub parse_all : List Text → Result (List Getter)
unfolding parse
parse_all [] = ok []
parse_all (f ∷ fields) = do g ← parse f; rest ← parse_all fields; ok (g ∷ rest)
