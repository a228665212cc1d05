-- ===== src/Prelude/Dict.antt =====
-- Python's `dict` with text keys, as an association list in insertion order.
use mathlib.Core.Path.{◌≡◌, refl}
use mathlib.Core.Bool.{Bool}
use mathlib.Core.Option.{Option, none, some}
use mathlib.Core.List.{List, [], ◌∷◌}
use native.Mathlib.Omega.{arith}
use leap_soledad.Prelude.Tests.{if◌then◌else◌, is_some}
use leap_soledad.Prelude.Texts.{Text, text_eq, text_eq_iff}

abbrev pub Dict {ℓ} : Type ℓ → Type ℓ
Dict V = List (Text × V)

module _ {ℓ} {V : Type ℓ} where
  -- `d.get(k)`
  unfoldable pub get : Text → Dict V → Option V
  get k [] = none
  get k ((j, v) ∷ d) = if text_eq j k then some v else get k d

  -- `k in d`
  abbrev pub contains : Text → Dict V → Bool
  contains k d = is_some (get k d)

  -- `d[k] = v`
  unfoldable pub put : Text → V → Dict V → Dict V
  put k v [] = (k, v) ∷ []
  put k v ((j, w) ∷ d) = if text_eq j k then (j, v) ∷ d else (j, w) ∷ put k v d

  -- `del d[k]` and `d.pop(k)`, where `k` is a key: the keys of a dict are distinct
  unfoldable pub remove : Text → Dict V → Dict V
  remove k [] = []
  remove k ((j, w) ∷ d) = let rest = remove k d in if text_eq j k then rest else (j, w) ∷ rest

  -- The keys are distinct.
  abbrev pub IsDict : Dict V → Type ℓ
  IsDict [] = Unit
  IsDict ((k, v) ∷ d) = (get k d ≡ none) × IsDict d

  pub get-put :
      (k j : Text) (v : V) (d : Dict V)
      → get j (put k v d) ≡ (if text_eq k j then some v else get j d)
  unfolding get put
  get-put k j v [] = refl
  get-put k j v ((i, w) ∷ d) =
      ground (arith, get-put k j v d, text_eq_iff i k, text_eq_iff i j, text_eq_iff k j)

  pub get-remove :
      (k j : Text) (d : Dict V) → get j (remove k d) ≡ (if text_eq k j then none else get j d)
  unfolding get remove
  get-remove k j [] = ground arith
  get-remove k j ((i, w) ∷ d) =
      ground (arith, get-remove k j d, text_eq_iff i k, text_eq_iff i j, text_eq_iff k j)

  pub put-IsDict : (k : Text) (v : V) (d : Dict V) → IsDict d → IsDict (put k v d)
  unfolding get put
  put-IsDict k v [] h = (refl, tt)
  put-IsDict k v ((j, w) ∷ d) h =
      ground (arith, put-IsDict k v d h.1, get-put k j v d, text_eq_iff j k, text_eq_iff k j)

  pub remove-IsDict : (k : Text) (d : Dict V) → IsDict d → IsDict (remove k d)
  unfolding get remove
  remove-IsDict k [] h = tt
  remove-IsDict k ((j, w) ∷ d) h = ground (arith, remove-IsDict k d h.1, get-remove k j d)
