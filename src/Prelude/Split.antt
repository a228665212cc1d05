-- ===== src/Prelude/Split.antt =====
-- `s.split(c)` and `c.join(parts)` for a separator of one character.
use mathlib.Core.Path.{◌≡◌, refl, ap, ◌∙◌}
use mathlib.Core.Logic.{◌≢◌, inl, inr}
use mathlib.Core.List.{List, [], ◌∷◌, ◌++◌}
use Prim.Native.Nat.{ℕ}
use native.Mathlib.Omega.{arith}
use leap_soledad.Prelude.Tests.{◌==◌, Bool-cases, if◌then◌else◌}
use leap_soledad.Prelude.Lists.{All}
use leap_soledad.Prelude.Texts.{Text}

-- One more character in front of the first part.
abbrev pub onto_first : ℕ → List Text → List Text
onto_first c [] = (c ∷ []) ∷ []
onto_first c (part ∷ parts) = (c ∷ part) ∷ parts

unfoldable pub split : ℕ → Text → List Text
split sep [] = [] ∷ []
split sep (c ∷ s) = let rest = split sep s in if c == sep then [] ∷ rest else onto_first c rest

unfoldable pub join : ℕ → List Text → Text
join sep [] = []
join sep (part ∷ []) = part
join sep (part ∷ next ∷ parts) = part ++ (sep ∷ join sep (next ∷ parts))

-- A text without the separator.
abbrev pub Lacks : ℕ → Text → Type 0
Lacks sep = All (λ c. c ≢ sep)

split-whole : (sep : ℕ) (s : Text) → Lacks sep s → split sep s ≡ s ∷ []
unfolding split
split-whole sep [] h = refl
split-whole sep (c ∷ s) h = ground (arith, split-whole sep s h.1)

split-append : (sep : ℕ) (s t : Text) → Lacks sep s → split sep (s ++ (sep ∷ t)) ≡ s ∷ split sep t
unfolding split
split-append sep [] t h = ground arith
split-append sep (c ∷ s) t h = ground (arith, split-append sep s t h.1)

pub split-join :
    (sep : ℕ) (part : Text) (parts : List Text)
    → Lacks sep part
    → All (Lacks sep) parts
    → split sep (join sep (part ∷ parts)) ≡ part ∷ parts
unfolding join
split-join sep part [] h hs = split-whole sep part h
split-join sep part (next ∷ parts) h hs =
    split-append sep part (join sep (next ∷ parts)) h
    ∙ ap (λ r. part ∷ r) (split-join sep next parts hs.0 hs.1)

onto_first-All :
    (P : ℕ → Type 0) (c : ℕ) (parts : List Text)
    → P c
    → All (All P) parts
    → All (All P) (onto_first c parts)
onto_first-All P c [] h hs = ((h, tt), tt)
onto_first-All P c (part ∷ parts) h hs = ((h, hs.0), hs.1)

-- No part of a split text holds the separator.
pub split-Lacks : (sep : ℕ) (s : Text) → All (Lacks sep) (split sep s)
unfolding split
split-Lacks sep [] = (tt, tt)
split-Lacks sep (c ∷ s) =
    ground (arith, split-Lacks sep s, onto_first-All (λ d. d ≢ sep) c (split sep s))

-- What holds of every character holds in every part.
pub split-All : (P : ℕ → Type 0) (sep : ℕ) (s : Text) → All P s → All (All P) (split sep s)
unfolding split
split-All P sep [] h = (tt, tt)
split-All P sep (c ∷ s) h = elim (Bool-cases (c == sep)) [
  | inl cut ↦ rw cut (tt, split-All P sep s h.1)
  | inr more ↦ rw more (onto_first-All P c (split sep s) h.0 (split-All P sep s h.1))
]
