-- ===== src/Query/Parser/Total.antt =====
-- The parser ends: its fuel is always enough.
use leap_soledad.Prelude.{
  ℕ, zero, suc, ◌+◌, ◌*◌, ◌<◌, ◌≤◌, ◌≢◌, Bool, true, false, List, [], ◌∷◌, Text, arith, length,
  text_eq, Option, none, some, if◌then◌else◌,
}
use leap_soledad.Prelude.Result.{Result, ok, err, out_of_fuel, index_definition_parse_error, ◌>>=◌}
use leap_soledad.Query.{Getter}
use leap_soledad.Query.Parser.{
  Term, token, parsed, Operation, op_number, op_combine, parse_term, parse_args, parse, to_getter,
  int_argument, expressions, number_arguments, number_of, unary, apply_op, transformation,
  set_expression, open_paren, close_paren, comma, rest_of, is_punctuation,
}

-- A result that is not for want of fuel.
abbrev pub EndsWell {ℓ} : {A : Type ℓ} → Result A → Type 0
EndsWell (ok a) = Unit
EndsWell (err e) = e ≢ out_of_fuel

-- A result that has taken a token of `n`, or an error that is not for want of fuel.
abbrev Takes {ℓ} : {A : Type ℓ} → ℕ → Result (A × List Text) → Type 0
Takes n (ok (a, left)) = length left < n
Takes n (err e) = e ≢ out_of_fuel

EndsWell-bind {ℓ κ} :
    {A : Type ℓ} {B : Type κ} (m : Result A) (f : A → Result B)
    → EndsWell m
    → ((a : A) → EndsWell (f a))
    → EndsWell (m >>= f)
EndsWell-bind (ok a) f h k = k a
EndsWell-bind (err e) f h k = h

to_getter-EndsWell : (t : Term) → EndsWell (to_getter t)
unfolding to_getter
to_getter-EndsWell (parsed g) = tt
to_getter-EndsWell (token s) = ground arith

int_argument-EndsWell : (t : Term) → EndsWell (int_argument t)
unfolding int_argument
int_argument-EndsWell (parsed g) = ground arith
int_argument-EndsWell (token s) = ground arith

expressions-EndsWell : (args : List Term) → EndsWell (expressions args)
unfolding expressions
expressions-EndsWell [] = tt
expressions-EndsWell (t ∷ args) =
    EndsWell-bind (to_getter t) _ (to_getter-EndsWell t)
      λ g. EndsWell-bind (expressions args) _ (expressions-EndsWell args) λ rest. tt

number_arguments-EndsWell : (args : List Term) → EndsWell (number_arguments args)
unfolding number_arguments
number_arguments-EndsWell [] = tt
number_arguments-EndsWell (t ∷ []) = EndsWell-bind (to_getter t) _ (to_getter-EndsWell t) λ g. tt
number_arguments-EndsWell (t ∷ u ∷ args) = EndsWell-bind (to_getter t) _ (to_getter-EndsWell t) λ g.
    EndsWell-bind (int_argument u) _ (int_argument-EndsWell u)
      λ n. EndsWell-bind (number_arguments args) _ (number_arguments-EndsWell args) λ rest. tt

unary-EndsWell : (make : Getter → Getter) (parts : List Getter) → EndsWell (unary make parts)
unary-EndsWell make [] = ground arith
unary-EndsWell make (g ∷ []) = tt
unary-EndsWell make (g ∷ h ∷ parts) = ground arith

number_of-EndsWell : (parts : List (Getter × ℕ) × Bool) → EndsWell (number_of parts)
number_of-EndsWell ([], b) = ground arith
number_of-EndsWell ((g, n) ∷ [], true) = ground arith
number_of-EndsWell ((g, n) ∷ [], false) = tt
number_of-EndsWell ((g, n) ∷ e ∷ parts, b) = ground arith

apply_op-EndsWell : (op : Operation) (args : List Term) → EndsWell (apply_op op args)
unfolding apply_op
apply_op-EndsWell op_number args =
    EndsWell-bind (number_arguments args) _ (number_arguments-EndsWell args) number_of-EndsWell
apply_op-EndsWell op_combine args =
    EndsWell-bind (expressions args) _ (expressions-EndsWell args) λ parts. tt
apply_op-EndsWell _ args =
    EndsWell-bind (expressions args) _ (expressions-EndsWell args) (unary-EndsWell _)

Takes-bind {ℓ κ} :
    {A : Type ℓ} {B : Type κ} (m : Result A) (f : A → Result (B × List Text)) (n : ℕ)
    → EndsWell m
    → ((a : A) → Takes n (f a))
    → Takes n (m >>= f)
Takes-bind (ok a) f n h k = k a
Takes-bind (err e) f n h k = h

Takes-chain {ℓ κ} :
    {A : Type ℓ} {B : Type κ} (m : Result (A × List Text))
    (f : A × List Text → Result (B × List Text)) (k n : ℕ)
    → Takes k m
    → ((p : A × List Text) → length p.1 < k → Takes n (f p))
    → Takes n (m >>= f)
Takes-chain (ok p) f k n h g = g p h
Takes-chain (err e) f k n h g = h

length-rest_of : (ts : List Text) → length (rest_of ts) ≤ length ts
length-rest_of [] = omega arith
length-rest_of (t ∷ ts) = omega arith

Takes-if {ℓ} :
    {A : Type ℓ} (b : Bool) (r r' : Result (A × List Text)) (n : ℕ)
    → Takes n r
    → Takes n r'
    → Takes n (if b then r else r')
Takes-if true r r' n h h' = h
Takes-if false r r' n h h' = h'

Takes-weaken {ℓ} :
    {A : Type ℓ} (r : Result (A × List Text)) (k n : ℕ) → k ≤ n → Takes k r → Takes n r
Takes-weaken (ok p) k n le h = omega arith
Takes-weaken (err e) k n le h = h

-- The end of an operation, once its arguments are read.
op-Takes :
    (op : Option Operation) (args : Result (List Term × List Text)) (k n : ℕ)
    → k ≤ n
    → Takes k args
    → Takes n (elim op [
      | none ↦ err index_definition_parse_error
      | some o ↦ args >>= λ p. apply_op o p.0 >>= λ g. ok (parsed g, p.1)
    ])
op-Takes none args k n le h = ground arith
op-Takes (some o) args k n le h =
    Takes-chain args _ k n h
      λ p lt. Takes-bind (apply_op o p.0) _ n (apply_op-EndsWell o p.0) λ g. omega arith

-- The rest of `parse_args` after a term, over the call that reads the other arguments.
after_term :
    (n : ℕ) (more : List Text → Result (List Term × List Text))
    → ((left : List Text) → length left + 2 ≤ n → Takes (length left) (more left))
    → (p : Term × List Text) → length p.1 < n
    → Takes n (elim p.1 [
      | [] ↦ err index_definition_parse_error
      | sep ∷ left' ↦
          if text_eq sep close_paren
          then ok (p.0 ∷ [], left')
          else if text_eq sep comma
          then (more (rest_of p.1) >>= λ q. ok (p.0 ∷ q.0, q.1))
          else err index_definition_parse_error
    ])
after_term n more h (t, []) lt = ground arith
after_term n more h (t, sep ∷ left) lt = Takes-if (text_eq sep close_paren) _ _ _ (omega arith) (
    Takes-if (text_eq sep comma) _ _ _
      (Takes-chain (more left) _ (length left) _ (h left (omega arith)) λ q l. omega arith)
      (ground arith))

mutual
  unfolding parse_term parse_args

  parse_term-Takes :
      (fuel : ℕ) (tokens : List Text)
      → length tokens * 2 < fuel
      → Takes (length tokens) (parse_term fuel tokens)
  parse_term-Takes zero tokens h = absurd (omega arith)
  parse_term-Takes (suc fuel) [] h = ground arith
  parse_term-Takes (suc fuel) (t ∷ []) h = ground arith
  parse_term-Takes (suc fuel) (t ∷ u ∷ tokens) h =
      let args = parse_args-Takes fuel tokens (omega arith) in
      Takes-if (is_punctuation t) _ _ _ (ground arith) (
        Takes-if (text_eq u open_paren) _ _ _
          (op-Takes (transformation t) (parse_args fuel tokens) (length tokens) _ (omega arith)
            args)
          (omega arith))

  parse_args-Takes :
      (fuel : ℕ) (tokens : List Text)
      → length tokens * 2 + 1 < fuel
      → Takes (length tokens) (parse_args fuel tokens)
  parse_args-Takes zero tokens h = absurd (omega arith)
  parse_args-Takes (suc fuel) tokens h =
      Takes-chain (parse_term fuel tokens) _ (length tokens) _
        (parse_term-Takes fuel tokens (omega arith))
        (after_term (length tokens) (parse_args fuel)
          (λ left lt. parse_args-Takes fuel left (omega arith)))

last-EndsWell :
    (g : Getter) (left : List Text)
    → EndsWell (elim left [ [] ↦ ok g | t ∷ left' ↦ err index_definition_parse_error ])
last-EndsWell g [] = tt
last-EndsWell g (t ∷ left) = ground arith

EndsWell-of_Takes {ℓ} : {A : Type ℓ} (n : ℕ) (r : Result (A × List Text)) → Takes n r → EndsWell r
EndsWell-of_Takes n (ok p) h = tt
EndsWell-of_Takes n (err e) h = h

-- Parsing an index expression ends with a getter or with one of the exceptions of the source: the
-- fuel of the model is never what stops it.
pub parse-EndsWell : (expression : Text) → EndsWell (parse expression)
unfolding parse
parse-EndsWell expression =
    let tokens = set_expression [] expression in
    EndsWell-bind (parse_term (length tokens * 2 + 1) tokens) _
      (EndsWell-of_Takes (length tokens) _ (parse_term-Takes _ tokens (omega arith)))
      λ p. EndsWell-bind (to_getter p.0) _ (to_getter-EndsWell p.0) λ g. last-EndsWell g p.1
