-- ===== src/Wire/Reader/Getline.antt =====
-- What `getline` reads, against the text that is left.
use leap_soledad.Prelude.{
  ℕ, zero, suc, ◌+◌, ◌≤◌, ◌<◌, ◌≡◌, ◌≢◌, refl, sym, ap, ap₂, subst, ◌∙◌, Bool, true, false, inl,
  inr, Option, none, some, [], ◌∷◌, ◌++◌, Text, length, length-append, take, ltb, ltb→lt, ltb→le,
  if◌then◌else◌, arith, append-nil, append_assoc,
}
use leap_soledad.Prelude.Result.{Result, ok, err, bad_request}
use leap_soledad.Wire.Reader.{
  FencedReader, read_chunk, cut_line, rest_or_none, take_chunk, unless_ended, getline_loop, getline,
  max_chunk,
}
use leap_soledad.Wire.Reader.Left.{
  text_of, left, whole_or, first_line, HasKept, cut_line-append, turns_of, turns, in_front,
  first_line-append, IsChunk, left-read_chunk,
}

-- A line is read, and the rest is left; or the line is longer than the limit and refused.
abbrev pub Reads : ℕ → Text × Text → Result (Text × FencedReader) → Type 0
Reads limit (line, rest) (ok (read, r)) =
    (read ≡ line) × (length line ≤ limit) × (left r ≡ rest) × (r.max_entry_size ≡ limit) × HasKept r
Reads limit (line, rest) (err e) = (e ≡ bad_request) × (limit < length line)

no_turns : (k : Option Text) (n : ℕ) → 0 < turns_of k n
no_turns none n = omega arith
no_turns (some kept) n = omega arith

text_of-rest_or_none : (s : Text) → text_of (rest_or_none s) ≡ s
text_of-rest_or_none [] = refl
text_of-rest_or_none (c ∷ s) = refl

rest_or_none-nonempty : (s : Text) → rest_or_none s ≢ some []
rest_or_none-nonempty [] e = cc
rest_or_none-nonempty (c ∷ s) e = cc

-- The end of a turn, where the rest of the loop reads on to the end of the line.
take_chunk-Reads :
    (line chunk : Text) (r : FencedReader)
    (more : Text → ℕ → FencedReader → Result (Text × FencedReader))
    → r.kept ≡ none
    → (length (line ++ chunk) ≤ r.max_entry_size
        → Reads r.max_entry_size
            (in_front (line ++ chunk) (first_line (left r)))
            (more (line ++ chunk) (length line + length chunk) r))
    → Reads r.max_entry_size
        (in_front line (first_line (chunk ++ left r)))
        (take_chunk line (length line) chunk r more (cut_line chunk))
take_chunk-Reads line chunk r more k ih = go (cut_line chunk) refl
  where
    cut :
        (start rest : Text)
        → cut_line chunk ≡ some (start, rest)
        → (b : Bool) → ltb r.max_entry_size (length line + length start) ≡ b
        → Reads r.max_entry_size
            (line ++ start, rest ++ left r)
            (if b
              then err bad_request
              else ok (line ++ start, record r { kept = rest_or_none rest }))
    cut start rest e true b = (
      refl,
      omega
          (arith, length-append line start, ltb→lt r.max_entry_size (length line + length start) b),
    )
    cut start rest e false b = (
      refl,
      omega
          (arith, length-append line start, ltb→le r.max_entry_size (length line + length start) b),
      ap₂ (λ x y. x ++ y) (text_of-rest_or_none rest)
          (sym (ap (λ o. text_of o ++ take r.remaining r.file) k)),
      refl,
      rest_or_none-nonempty rest,
    )

    whole :
        (b : Bool)
        → ltb r.max_entry_size (length line + length chunk) ≡ b
        → Reads r.max_entry_size (in_front (line ++ chunk) (first_line (left r))) (elim b [
          | true ↦ err bad_request
          | false ↦ more (line ++ chunk) (length line + length chunk) r
        ])
    whole true b = (
      refl,
      omega (
        arith,
        ltb→lt r.max_entry_size (length line + length chunk) b,
        length-append line chunk,
        length-append (line ++ chunk) (first_line (left r)).0,
      ),
    )
    whole false b = ih (
        omega
          (arith, length-append line chunk, ltb→le r.max_entry_size (length line + length chunk) b))

    go :
        (o : Option (Text × Text))
        → cut_line chunk ≡ o
        → Reads r.max_entry_size
            (in_front line (first_line (chunk ++ left r)))
            (take_chunk line (length line) chunk r more o)
    go none e =
        subst
          (λ p.
            Reads r.max_entry_size (in_front line p)
              (take_chunk line (length line) chunk r more none))
          (sym (first_line-append chunk (left r) e))
          (subst
            (λ q.
              Reads r.max_entry_size (q, (first_line (left r)).1)
                (take_chunk line (length line) chunk r more none))
            (append_assoc line chunk (first_line (left r)).0) (whole _ refl))
    go (some (start, rest)) e =
        subst
          (λ p.
            Reads r.max_entry_size (in_front line (whole_or (chunk ++ left r) p))
              (take_chunk line (length line) chunk r more (some (start, rest))))
          (sym (cut_line-append chunk (left r) start rest e)) (cut start rest e _ refl)

-- The loop reads on to the end of the line, with what it has read of it in front.
getline_loop-Reads :
    (fuel : ℕ) (line : Text) (r : FencedReader)
    → turns r ≤ fuel
    → HasKept r
    → length line ≤ r.max_entry_size
    → Reads r.max_entry_size
        (in_front line (first_line (left r)))
        (getline_loop fuel line (length line) r)
unfolding getline_loop cut_line
getline_loop-Reads zero line r enough has short =
    absurd (omega (arith, no_turns r.kept r.remaining))
getline_loop-Reads (suc fuel) line r enough has short =
    go (read_chunk max_chunk r).0 (read_chunk max_chunk r).1
      (left-read_chunk max_chunk r (omega arith) has) (getline_loop-Reads fuel)
  where
    go :
        (chunk : Text) (r' : FencedReader)
        → IsChunk r (chunk, r')
        → ((line : Text) (r : FencedReader)
            → turns r ≤ fuel
            → HasKept r
            → length line ≤ r.max_entry_size
            → Reads r.max_entry_size
                (in_front line (first_line (left r)))
                (getline_loop fuel line (length line) r))
        → Reads r.max_entry_size
            (in_front line (first_line (left r)))
            (unless_ended line (length line) r' (getline_loop fuel) chunk)
    go [] r' (e, m, k, inl n, t) ih = absurd (n refl)
    go [] r' (e, m, k, inr end, t) ih =
        subst (λ s. Reads r.max_entry_size (in_front line (first_line s)) (ok (line, r'))) (sym end)
          (
            sym (append-nil line),
            omega (arith, short, ap (λ (s : Text). length s) (append-nil line)),
            sym e ∙ end,
            m,
            λ h. cc (h, k),
          )
    go (c ∷ chunk) r' (e, m, k, n, inl x) ih = absurd cc
    go (c ∷ chunk) r' (e, m, k, n, inr used) ih =
        let s = c ∷ chunk in
        subst
          (λ t.
            Reads r.max_entry_size (in_front line (first_line t))
              (take_chunk line (length line) s r' (getline_loop fuel) (cut_line s)))
          (sym e)
          (subst
            (λ limit.
              Reads limit (in_front line (first_line (s ++ left r')))
                (take_chunk line (length line) s r' (getline_loop fuel) (cut_line s)))
            m
            (take_chunk-Reads line s r' (getline_loop fuel) k λ short'.
              subst
                (λ size.
                  Reads r'.max_entry_size (in_front (line ++ s) (first_line (left r')))
                    (getline_loop fuel (line ++ s) size r'))
                (length-append line s) (ih (line ++ s) r' (omega arith) (λ h. cc (h, k)) short')))

-- A line of a request is read as it stands, whatever the chunks it comes in, up to its line feed
-- or the end of the request, and the rest is left; it is refused exactly if it is longer than the
-- limit. What is kept is not empty.
pub getline-Reads :
    (r : FencedReader) → HasKept r → Reads r.max_entry_size (first_line (left r)) (getline r)
unfolding getline
getline-Reads r has =
    getline_loop-Reads (r.remaining + 2) [] r (bound r.kept r.remaining) has (omega arith)
  where
    bound : (k : Option Text) (n : ℕ) → turns_of k n ≤ n + 2
    bound none n = omega arith
    bound (some kept) n = omega arith
