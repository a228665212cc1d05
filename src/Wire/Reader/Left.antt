-- ===== src/Wire/Reader/Left.antt =====
-- What is left of a request, and how a chunk is taken off it.
use leap_soledad.Prelude.{
  ℕ, zero, suc, ◌+◌, ◌-◌, ◌≤◌, ◌<◌, min, ◌≡◌, ◌≢◌, ◌⊎◌, refl, sym, ap, subst, ◌∙◌, Bool, true,
  false, Bool-cases, inl, inr, Option, none, some, [], ◌∷◌, ◌++◌, Text, length, take, drop, ◌==◌,
  if◌then◌else◌, arith,
}
use leap_soledad.Wire.Reader.{
  FencedReader, read_chunk, read_file, kept_or_read, cut_line, put_front,
}

abbrev pub text_of : Option Text → Text
text_of none = []
text_of (some kept) = kept

-- The part of the request that has not been read.
abbrev pub left : FencedReader → Text
left r = text_of r.kept ++ take r.remaining r.file

-- The first line of a text, with its line feed, and the rest.
abbrev pub whole_or : Text → Option (Text × Text) → Text × Text
whole_or s none = (s, [])
whole_or s (some cut) = cut

abbrev pub first_line : Text → Text × Text
first_line s = whole_or s (cut_line s)

-- What is kept is not empty.
abbrev pub HasKept : FencedReader → Type 0
HasKept r = r.kept ≢ some []

-- Turns that the loop can still take.
abbrev pub turns_of : Option Text → ℕ → ℕ
turns_of none remaining = remaining + 1
turns_of (some kept) remaining = remaining + 2

abbrev pub turns : FencedReader → ℕ
turns r = turns_of r.kept r.remaining

abbrev pub in_front : Text → Text × Text → Text × Text
in_front s (line, rest) = (s ++ line, rest)

pub first_line-append :
    (s t : Text) → cut_line s ≡ none → first_line (s ++ t) ≡ in_front s (first_line t)
unfolding cut_line
first_line-append [] t h = refl
first_line-append (c ∷ s) t h =
    go (c == 10) (cut_line s) (cut_line (s ++ t)) (first_line-append s t) h
  where
    go :
        (b : Bool) (o o' : Option (Text × Text))
        → (o ≡ none → whole_or (s ++ t) o' ≡ in_front s (first_line t))
        → (if b then some (c ∷ [], s) else put_front c o) ≡ none
        → whole_or (c ∷ (s ++ t)) (if b then some (c ∷ [], s ++ t) else put_front c o')
          ≡ in_front (c ∷ s) (first_line t)
    go true o o' ih h = absurd cc
    go false (some cut) o' ih h = absurd cc
    go false none none ih h = ap (in_front (c ∷ [])) (ih refl)
    go false none (some cut) ih h = ap (in_front (c ∷ [])) (ih refl)

-- The same cut, with more behind it.
abbrev with_rest : Text → Option (Text × Text) → Option (Text × Text)
with_rest t none = none
with_rest t (some (line, rest)) = some (line, rest ++ t)

pub cut_line-append :
    (s t : Text) (line rest : Text)
    → cut_line s ≡ some (line, rest)
    → cut_line (s ++ t) ≡ some (line, rest ++ t)
unfolding cut_line
cut_line-append [] t line rest h = absurd cc
cut_line-append (c ∷ s) t line rest h = go (c == 10) (cut_line s) (cut_line-append s t) h
  where
    go :
        (b : Bool) (o : Option (Text × Text))
        → ((l r : Text) → o ≡ some (l, r) → cut_line (s ++ t) ≡ some (l, r ++ t))
        → (if b then some (c ∷ [], s) else put_front c o) ≡ some (line, rest)
        → (if b then some (c ∷ [], s ++ t) else put_front c (cut_line (s ++ t)))
          ≡ some (line, rest ++ t)
    go true o ih h = ap (with_rest t) h
    go false none ih h = absurd cc
    go false (some (l, r)) ih h = ap (put_front c) (ih l r refl) ∙ ap (with_rest t) h

abbrev nothing : Text
nothing = []

take-nil : (n : ℕ) → take n nothing ≡ []
take-nil zero = refl
take-nil (suc n) = refl

take-split :
    (k n : ℕ) (s : Text) → k ≤ n → take k s ++ take (n - length (take k s)) (drop k s) ≡ take n s
take-split zero n s h = ap (λ m. take m s) (omega arith)
take-split (suc k) n [] h = take-nil (n - 0) ∙ sym (take-nil n)
take-split (suc k) zero (c ∷ s) h = absurd (omega arith)
take-split (suc k) (suc n) (c ∷ s) h =
    ap (◌∷◌ c)
      (ap (λ m. take k s ++ take m (drop k s)) (omega arith) ∙ take-split k n s (omega arith))

take-ended : (k : ℕ) (s : Text) → 0 < k → take k s ≡ [] → s ≡ []
take-ended k [] h e = refl
take-ended zero (c ∷ s) h e = absurd (omega arith)
take-ended (suc k) (c ∷ s) h e = absurd cc

-- A chunk is taken off what is left, and the limit stays; the chunk is empty at the end, or a turn
-- is used up.
abbrev pub IsChunk : FencedReader → Text × FencedReader → Type 0
IsChunk r (chunk, r') =
    (left r ≡ chunk ++ left r')
    × (r'.max_entry_size ≡ r.max_entry_size)
    × (r'.kept ≡ none)
    × ((chunk ≢ []) ⊎ (left r ≡ []))
    × ((chunk ≡ []) ⊎ (turns r' < turns r))

read_file-IsChunk : (n : ℕ) (r : FencedReader) → 0 < n → r.kept ≡ none → IsChunk r (read_file n r)
read_file-IsChunk n r pos e = elim (Bool-cases (r.remaining == 0)) [
  | inl b ↦ rw b (refl, refl, e, inr (taken ∙ nothing_left (ground (arith, b))), inl refl)
  | inr b ↦ rw b (
    taken
        ∙ sym (take-split k r.remaining r.file (omega arith))
        ∙ ap
            (λ o.
              take k r.file
              ++ (text_of o ++ take (r.remaining - length (take k r.file)) (drop k r.file)))
            (sym e),
    refl,
    e,
    ended (take k r.file) refl (ground (arith, b)),
    used (take k r.file) (ground (arith, b)),
  )
]
  where
    k : ℕ
    k = min r.remaining n

    taken : left r ≡ take r.remaining r.file
    taken = ap (λ o. text_of o ++ take r.remaining r.file) e

    nothing_left : r.remaining ≡ 0 → take r.remaining r.file ≡ []
    nothing_left h = ap (λ m. take m r.file) h

    ended : (chunk : Text) → take k r.file ≡ chunk → 0 < r.remaining → (chunk ≢ []) ⊎ (left r ≡ [])
    ended [] h p = inr (
        taken
        ∙ ap (λ f. take r.remaining f) (take-ended k r.file (omega arith) h)
        ∙ take-nil r.remaining)
    ended (c ∷ chunk) h p = inl λ h'. absurd cc

    used :
        (chunk : Text)
        → 0 < r.remaining
        → (chunk ≡ [])
          ⊎ (turns_of r.kept (r.remaining - length chunk) < turns_of r.kept r.remaining)
    used [] p = inl refl
    used (c ∷ chunk) p = inr (
        subst (λ o. turns_of o (r.remaining - length (c ∷ chunk)) < turns_of o r.remaining) (sym e)
          (omega arith))

pub left-read_chunk : (n : ℕ) (r : FencedReader) → 0 < n → HasKept r → IsChunk r (read_chunk n r)
unfolding read_chunk
left-read_chunk n r pos has = go r.kept refl
  where
    go : (k : Option Text) → r.kept ≡ k → IsChunk r (kept_or_read k n r)
    go none e = read_file-IsChunk n r pos e
    go (some kept) e = (
      ap (λ k. text_of k ++ take r.remaining r.file) e,
      refl,
      refl,
      inl (λ h. has (e ∙ ap some h)),
      inr (subst (λ k. r.remaining + 1 < turns_of k r.remaining) (sym e) (omega arith)),
    )
