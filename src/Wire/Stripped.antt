-- ===== src/Wire/Stripped.antt =====
-- Lines with a comma or a line break behind them, and what `strip` leaves of them.
use leap_soledad.Prelude.{
  ◌≡◌, refl, ◌∙◌, ap, sym, Bool, true, false, [], ◌∷◌, ◌++◌, Text, text, text_eq, arith,
  append_assoc,
}
use leap_soledad.Prelude.Strip.{is_space, lstrip, rstrip, strip}
use leap_soledad.Wire.{check_and_strip_comma}
use leap_soledad.Wire.Invocation.{is_empty_text}

abbrev pub begins_in_space : Text → Bool
begins_in_space [] = false
begins_in_space (c ∷ s) = is_space c

rstrip-append : (s t : Text) → rstrip t ≡ [] → rstrip (s ++ t) ≡ rstrip s
unfolding rstrip
rstrip-append [] t h = h
rstrip-append (c ∷ s) t h = cc (rstrip-append s t h)

rstrip-comma : (s : Text) → rstrip (s ++ (b',' ∷ [])) ≡ s ++ (b',' ∷ [])
unfolding rstrip
rstrip-comma [] = refl
rstrip-comma (c ∷ []) = refl
rstrip-comma (c ∷ d ∷ s) = rw (rstrip-comma (d ∷ s)) refl

lstrip-front : (s : Text) → begins_in_space s ≡ false → lstrip s ≡ s
unfolding lstrip
lstrip-front [] h = refl
lstrip-front (c ∷ s) h = rw h refl

begins-comma : (s : Text) → begins_in_space s ≡ false → begins_in_space (s ++ (b',' ∷ [])) ≡ false
begins-comma [] h = refl
begins-comma (c ∷ s) h = h

-- A comma stays, the line break goes.
pub strip-comma :
    (s : Text) → begins_in_space s ≡ false → strip (s ++ (b',' ∷ 13 ∷ 10 ∷ [])) ≡ s ++ (b',' ∷ [])
unfolding rstrip
strip-comma s h =
    ap (λ t. strip t) (sym (append_assoc s (b',' ∷ []) (13 ∷ 10 ∷ [])))
    ∙ ap lstrip (rstrip-append (s ++ (b',' ∷ [])) (13 ∷ 10 ∷ []) refl ∙ rstrip-comma s)
    ∙ lstrip-front (s ++ (b',' ∷ [])) (begins-comma s h)

pub strip-break :
    (s : Text) → begins_in_space s ≡ false → rstrip s ≡ s → strip (s ++ (13 ∷ 10 ∷ [])) ≡ s
unfolding rstrip
strip-break s h back = ap lstrip (rstrip-append s (13 ∷ 10 ∷ []) refl ∙ back) ∙ lstrip-front s h

pub check_and_strip_comma-true : (s : Text) → check_and_strip_comma (s ++ (b',' ∷ [])) ≡ (s, true)
unfolding check_and_strip_comma
check_and_strip_comma-true [] = refl
check_and_strip_comma-true (c ∷ []) = refl
check_and_strip_comma-true (c ∷ d ∷ s) =
    ap (λ (p : Text × Bool). (c ∷ p.0, p.1)) (check_and_strip_comma-true (d ∷ s))

-- A line with a comma is not empty, and not the end.
pub not_end : (s : Text) → text_eq (s ++ (b',' ∷ [])) (text "]") ≡ false
unfolding text_eq
not_end [] = refl
not_end (c ∷ []) = ground arith
not_end (c ∷ d ∷ s) = ground arith

pub not_empty : (s : Text) → is_empty_text (s ++ (b',' ∷ [])) ≡ false
not_empty [] = refl
not_empty (c ∷ s) = refl
