-- ===== src/Prelude/Strip.antt =====
-- `s.strip()`, on ASCII.
use Prim.Native.Nat.{ℕ}
use mathlib.Core.Bool.{Bool, ◌||◌}
use mathlib.Core.List.{[], ◌∷◌}
use leap_soledad.Prelude.Tests.{◌==◌, if◌then◌else◌}
use leap_soledad.Prelude.Texts.{Text}

-- The characters that `strip` removes.
abbrev pub is_space : ℕ → Bool
is_space c = c == 32 || c == 9 || c == 10 || c == 11 || c == 12 || c == 13

unfoldable pub lstrip : Text → Text
lstrip [] = []
lstrip (c ∷ s) = let rest = lstrip s in if is_space c then rest else c ∷ s

unfoldable pub rstrip : Text → Text
rstrip [] = []
rstrip (c ∷ s) = onto (rstrip s)
  where
    onto : Text → Text
    onto [] = if is_space c then [] else c ∷ []
    onto (d ∷ t) = c ∷ d ∷ t

abbrev pub strip : Text → Text
strip s = lstrip (rstrip s)
