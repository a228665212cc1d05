-- ===== src/Wire/Upload/Fields.antt =====
-- The texts of a request body, each on a line of its own, and how the server reads such a line.
use leap_soledad.Prelude.{
  ℕ, ◌+◌, ◌≤◌, ◌≡◌, ◌≢◌, refl, ◌∙◌, ap, sym, subst, Bool, true, false, some, List, [], ◌∷◌, ◌++◌,
  Text, text, length, length-append, arith, append_assoc, All-append, take,
}
use leap_soledad.Prelude.Split.{Lacks}
use leap_soledad.Prelude.Strip.{rstrip, strip}
use leap_soledad.Prelude.Result.{Result, ok, err}
use leap_soledad.Wire.{check_and_strip_comma}
use leap_soledad.Wire.Responder.{Sent, content_text}
use leap_soledad.Wire.Body.{joined, content_line}
use leap_soledad.Wire.Reader.{FencedReader, cut_line, getline}
use leap_soledad.Wire.Reader.Left.{left, first_line, HasKept, whole_or, cut_line-append}
use leap_soledad.Wire.Reader.Getline.{Reads, getline-Reads}
use leap_soledad.Wire.Stripped.{
  begins_in_space, strip-comma, strip-break, check_and_strip_comma-true,
}
use leap_soledad.Wire.Upload.{entry_texts, closed}

-- A text that is sent on a line of its own: it fits the server's limit with a comma and the line
-- break, and `strip` and the search for a comma leave it as it is.
pub record IsField (limit : ℕ) (s : Text) : Type 0 where
  pub no_break : Lacks 10 s
  pub front : begins_in_space s ≡ false
  pub back : rstrip s ≡ s
  pub no_comma : check_and_strip_comma s ≡ (s, false)
  pub fits : length s + 3 ≤ limit

pub record IsSendable (limit : ℕ) (s : Sent) : Type 0 where
  pub info_field : IsField limit s.info
  pub content_field : IsField limit (content_text s.content)

-- What stands behind a field: a comma if documents follow, and the line break.
abbrev pub nonempty : List Sent → Bool
nonempty [] = false
nonempty (s ∷ ss) = true

abbrev pub tail_of : Bool → Text
tail_of true = b',' ∷ 13 ∷ 10 ∷ []
tail_of false = 13 ∷ 10 ∷ []

-- The body from the first document on.
abbrev pub rest_text : List Sent → Text
rest_text [] = text "]"
rest_text (s ∷ ss) =
    (s.info ++ tail_of true) ++ ((content_text s.content ++ tail_of (nonempty ss)) ++ rest_text ss)

pub joined-rest_text :
    (ss : List Sent) → joined (entry_texts ss) ++ closed ≡ tail_of (nonempty ss) ++ rest_text ss
joined-rest_text [] = refl
joined-rest_text (s ∷ ss) =
    let c = content_text s.content in
    let b = tail_of (nonempty ss) in
    ap (λ t. b',' ∷ 13 ∷ 10 ∷ t)
      (append_assoc (s.info ++ content_line (some s.content)) (joined (entry_texts ss)) closed
        ∙ ap (λ t. (s.info ++ content_line (some s.content)) ++ t) (joined-rest_text ss)
        ∙ append_assoc s.info (content_line (some s.content)) (b ++ rest_text ss)
        ∙ ap (λ t. s.info ++ (b',' ∷ 13 ∷ 10 ∷ t)) (sym (append_assoc c b (rest_text ss)))
        ∙ sym (append_assoc s.info (tail_of true) ((c ++ b) ++ rest_text ss)))

cut_line-Lacks : (s : Text) → Lacks 10 s → cut_line (s ++ (10 ∷ [])) ≡ some (s ++ (10 ∷ []), [])
unfolding cut_line
cut_line-Lacks [] h = refl
cut_line-Lacks (c ∷ s) h = ground (arith, cut_line-Lacks s h.1)

first_line-break :
    (s t rest : Text)
    → Lacks 10 s
    → Lacks 10 t
    → first_line ((s ++ (t ++ (10 ∷ []))) ++ rest) ≡ (s ++ (t ++ (10 ∷ [])), rest)
first_line-break s t rest h h' =
    subst (λ u. first_line (u ++ rest) ≡ (u, rest)) (append_assoc s t (10 ∷ []))
      (ap (whole_or (((s ++ t) ++ (10 ∷ [])) ++ rest)) (
        cut_line-append ((s ++ t) ++ (10 ∷ [])) rest _ []
          (cut_line-Lacks (s ++ t) (All-append (λ c. c ≢ 10) s t h h'))))

-- A line that is read.
pub record ReadTo (r : FencedReader) (line rest : Text) : Type 0 where
  pub reader : FencedReader
  pub read : getline r ≡ ok (line, reader)
  pub rest_left : left reader ≡ rest
  pub same_limit : reader.max_entry_size ≡ r.max_entry_size
  pub has_kept : HasKept reader

pub read_line :
    (r : FencedReader) (line rest : Text)
    → HasKept r
    → first_line (left r) ≡ (line, rest)
    → length line ≤ r.max_entry_size
    → ReadTo r line rest
read_line r line rest has e h =
    go (getline r) refl (subst (λ p. Reads r.max_entry_size p (getline r)) e (getline-Reads r has))
  where
    go :
        (res : Result (Text × FencedReader))
        → getline r ≡ res
        → Reads r.max_entry_size (line, rest) res
        → ReadTo r line rest
    go (err x) g (b, long) = absurd (omega arith)
    go (ok (l, r')) g (same, fits, rest_is, limit, kept) = record {
      reader = r';
      read = g ∙ ap (λ l. ok (l, r')) same;
      rest_left = rest_is;
      same_limit = limit;
      has_kept = kept;
    }

-- A field is stripped of what stands behind it, and the comma is noticed.
pub check_and_strip_comma-field :
    (limit : ℕ) (s : Text) (b : Bool)
    → IsField limit s
    → check_and_strip_comma (strip (s ++ tail_of b)) ≡ (s, b)
check_and_strip_comma-field limit s true f =
    ap check_and_strip_comma (strip-comma s f.front) ∙ check_and_strip_comma-true s
check_and_strip_comma-field limit s false f =
    ap check_and_strip_comma (strip-break s f.front f.back) ∙ f.no_comma

pub read_field :
    (limit : ℕ) (s rest : Text) (b : Bool) (r : FencedReader)
    → IsField limit s
    → r.max_entry_size ≡ limit
    → HasKept r
    → left r ≡ (s ++ tail_of b) ++ rest
    → ReadTo r (s ++ tail_of b) rest
read_field limit s rest b r f m has e =
    read_line r (s ++ tail_of b) rest has (ap first_line e ∙ cut b) (fit b)
  where
    cut : (b : Bool) → first_line ((s ++ tail_of b) ++ rest) ≡ (s ++ tail_of b, rest)
    cut true =
        first_line-break s (b',' ∷ 13 ∷ []) rest f.no_break
          (λ h. omega arith, (λ h. omega arith, tt))
    cut false = first_line-break s (13 ∷ []) rest f.no_break (λ h. omega arith, tt)

    fit : (b : Bool) → length (s ++ tail_of b) ≤ r.max_entry_size
    fit true = omega (arith, length-append s (tail_of true), f.fits, m)
    fit false = omega (arith, length-append s (tail_of false), f.fits, m)

pub take-length : (s : Text) → take (length s) s ≡ s
take-length [] = refl
take-length (c ∷ s) = ap (◌∷◌ c) (take-length s)
