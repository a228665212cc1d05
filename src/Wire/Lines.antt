-- ===== src/Wire/Lines.antt =====
-- `content.split('\r\n')`: the lines, and the last part, which no line break ends.
use leap_soledad.Prelude.{
  ℕ, ◌≡◌, refl, ◌∙◌, ap, sym, subst, Bool, true, false, ◌&&◌, List, [], ◌∷◌, ◌++◌, Text, ◌==◌,
  arith,
}
use leap_soledad.Prelude.Split.{Lacks}

abbrev pub begins_lf : Text → Bool
begins_lf [] = false
begins_lf (d ∷ s) = d == 10

-- One more character in front.
abbrev pub onto : ℕ → List Text × Text → List Text × Text
onto c ([], last) = ([], c ∷ last)
onto c (line ∷ lines, last) = ((c ∷ line) ∷ lines, last)

-- A line feed that ends the empty line, its carriage return in front of it.
abbrev pub break_line : List Text × Text → List Text × Text
break_line (lines, last) = ([] ∷ lines, last)

-- What stands at a place that ends a line, or does not.
abbrev pub break_or : Bool → ℕ → List Text × Text → List Text × Text → List Text × Text
break_or true c after rest = break_line after
break_or false c after rest = onto c rest

unfoldable pub split_lines : Text → List Text × Text
split_lines [] = ([], [])
split_lines (c ∷ []) = ([], c ∷ [])
split_lines (c ∷ d ∷ s) =
    let after = split_lines s in
    let rest = split_lines (d ∷ s) in break_or (c == 13 && d == 10) c after rest

-- More lines in front.
abbrev pub lines_then : List Text → List Text × Text → List Text × Text
lines_then lines (more, last) = (lines ++ more, last)

onto-lines_then :
    (c : ℕ) (line : Text) (lines : List Text) (p : List Text × Text)
    → onto c (lines_then (line ∷ lines) p) ≡ lines_then ((c ∷ line) ∷ lines) p
onto-lines_then c line lines (more, last) = refl

break_line-lines_then :
    (lines : List Text) (p : List Text × Text)
    → break_line (lines_then lines p) ≡ lines_then ([] ∷ lines) p
break_line-lines_then lines (more, last) = refl

-- Where no line ends, the last part is all of it.
pub split_lines-whole : (s : Text) → (split_lines s).0 ≡ [] → split_lines s ≡ ([], s)
unfolding split_lines
split_lines-whole [] h = refl
split_lines-whole (c ∷ []) h = refl
split_lines-whole (c ∷ d ∷ s) h =
    go (c == 13 && d == 10) (split_lines s) (split_lines (d ∷ s)) (split_lines-whole (d ∷ s)) h
  where
    go :
        (b : Bool) (after rest : List Text × Text)
        → (rest.0 ≡ [] → rest ≡ ([], d ∷ s))
        → (break_or b c after rest).0 ≡ []
        → break_or b c after rest ≡ ([], c ∷ d ∷ s)
    go true after rest ih h = cc
    go false after ([], last) ih h = ap (onto c) (ih refl)
    go false after (l ∷ ls, last) ih h = cc

-- What has been split stays split when more comes: only the last part is looked at again.
pub split_lines-append :
    (s t : Text)
    → split_lines (s ++ t) ≡ lines_then (split_lines s).0 (split_lines ((split_lines s).1 ++ t))
unfolding split_lines
split_lines-append [] t = refl
split_lines-append (c ∷ []) t = refl
split_lines-append (c ∷ d ∷ s) t =
    go (c == 13 && d == 10) refl (split_lines s) (split_lines (d ∷ s)) (split_lines (s ++ t)) _
      (split_lines-append s t) (split_lines-append (d ∷ s) t)
      (λ h. ap (λ (p : List Text × Text). p.1) (split_lines-whole (d ∷ s) h))
  where
    go :
        (b : Bool)
        → (c == 13 && d == 10) ≡ b
        → (after rest after' rest' : List Text × Text)
        → after' ≡ lines_then after.0 (split_lines (after.1 ++ t))
        → rest' ≡ lines_then rest.0 (split_lines (rest.1 ++ t))
        → (rest.0 ≡ [] → rest.1 ≡ d ∷ s)
        → break_or b c after' rest'
          ≡ lines_then (break_or b c after rest).0 (split_lines ((break_or b c after rest).1 ++ t))
    go true e after rest after' rest' ea er w =
        ap break_line ea ∙ break_line-lines_then after.0 (split_lines (after.1 ++ t))
    go false e after ([], last) after' rest' ea er w =
        ap (onto c) er
        ∙ subst
            (λ l.
              onto c (lines_then [] (split_lines (l ++ t)))
              ≡ lines_then [] (split_lines (c ∷ (l ++ t))))
            (sym (w refl)) (rw e refl)
    go false e after (l ∷ ls, last) after' rest' ea er w =
        ap (onto c) er ∙ onto-lines_then c l ls (split_lines (last ++ t))

-- The last part ends no line.
pub split_lines-last : (s : Text) → split_lines (split_lines s).1 ≡ ([], (split_lines s).1)
unfolding split_lines
split_lines-last [] = refl
split_lines-last (c ∷ []) = refl
split_lines-last (c ∷ d ∷ s) =
    go (c == 13 && d == 10) refl (split_lines s) (split_lines (d ∷ s)) (split_lines-last s)
      (split_lines-last (d ∷ s))
      (λ h. ap (λ (p : List Text × Text). p.1) (split_lines-whole (d ∷ s) h))
  where
    go :
        (b : Bool)
        → (c == 13 && d == 10) ≡ b
        → (after rest : List Text × Text) → split_lines after.1 ≡ ([], after.1)
        → split_lines rest.1 ≡ ([], rest.1)
        → (rest.0 ≡ [] → rest.1 ≡ d ∷ s)
        → split_lines (break_or b c after rest).1 ≡ ([], (break_or b c after rest).1)
    go true e after rest ea er w = ea
    go false e after ([], last) ea er w =
        subst (λ l. split_lines (c ∷ l) ≡ ([], c ∷ l)) (sym (w refl))
          (rw e (ap (onto c) (subst (λ l. split_lines l ≡ ([], l)) (w refl) er)))
    go false e after (l ∷ ls, last) ea er w = er

-- A text without a line feed ends no line of what is before it.
pub split_lines-Lacks :
    (s t : Text) → Lacks 10 t → split_lines s ≡ ([], s) → split_lines (s ++ t) ≡ ([], s ++ t)
unfolding split_lines
split_lines-Lacks [] [] n h = refl
split_lines-Lacks [] (c ∷ []) n h = refl
split_lines-Lacks [] (c ∷ d ∷ t) n h =
    let e : (c == 13 && d == 10) ≡ false = ground (arith, n) in
    rw e (ap (onto c) (split_lines-Lacks [] (d ∷ t) n.1 refl))
split_lines-Lacks (c ∷ []) [] n h = refl
split_lines-Lacks (c ∷ []) (d ∷ t) n h =
    let e : (c == 13 && d == 10) ≡ false = ground (arith, n) in
    rw e (ap (onto c) (split_lines-Lacks [] (d ∷ t) n refl))
split_lines-Lacks (c ∷ d ∷ s) t n h =
    go (c == 13 && d == 10) refl (split_lines s) (split_lines (d ∷ s)) h
      (split_lines-Lacks (d ∷ s) t n) (split_lines-whole (d ∷ s))
  where
    go :
        (b : Bool)
        → (c == 13 && d == 10) ≡ b
        → (after rest : List Text × Text) → break_or b c after rest ≡ ([], c ∷ d ∷ s)
        → (split_lines (d ∷ s) ≡ ([], d ∷ s) → split_lines ((d ∷ s) ++ t) ≡ ([], (d ∷ s) ++ t))
        → (rest.0 ≡ [] → split_lines (d ∷ s) ≡ ([], d ∷ s))
        → split_lines (c ∷ d ∷ (s ++ t)) ≡ ([], c ∷ d ∷ (s ++ t))
    go true e after rest h more w = cc
    go false e after ([], last) h more w = rw e (ap (onto c) (more (w refl)))
    go false e after (l ∷ ls, last) h more w = cc

-- A line that holds no line feed, and the line break after it.
pub split_lines-line :
    (line rest : Text)
    → Lacks 10 line
    → split_lines (line ++ (13 ∷ 10 ∷ rest)) ≡ lines_then (line ∷ []) (split_lines rest)
unfolding split_lines
split_lines-line [] rest n = refl
split_lines-line (c ∷ []) rest n = let e : (c == 13 && 13 == 10) ≡ false = ground arith in rw e refl
split_lines-line (c ∷ d ∷ line) rest n =
    let e : (c == 13 && d == 10) ≡ false = ground (arith, n) in
    rw e (ap (onto c) (split_lines-line (d ∷ line) rest n.1))
