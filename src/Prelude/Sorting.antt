-- ===== src/Prelude/Sorting.antt =====
-- `sorted(d.items())` of a dict with text keys: the keys are distinct, so they alone decide.
use mathlib.Core.Path.{◌≡◌, refl, ap, ◌∙◌}
use mathlib.Core.Option.{none, some}
use mathlib.Core.List.{[], ◌∷◌}
use native.Mathlib.Omega.{arith}
use leap_soledad.Prelude.Tests.{if◌then◌else◌}
use leap_soledad.Prelude.Lists.{All}
use leap_soledad.Prelude.Texts.{Text, text_eq, text_lt, text_eq_iff}
use leap_soledad.Prelude.Dict.{Dict, get, IsDict}

module _ {ℓ} {V : Type ℓ} where
  unfoldable pub sort_in : Text × V → Dict V → Dict V
  sort_in e [] = e ∷ []
  sort_in e (f ∷ items) =
      let rest = sort_in e items in if text_lt e.0 f.0 then e ∷ f ∷ items else f ∷ rest

  unfoldable pub sorted : Dict V → Dict V
  unfolding sort_in
  sorted [] = []
  sorted (e ∷ items) = sort_in e (sorted items)

  get-sort_in :
      (k j : Text) (v : V) (d : Dict V)
      → get k d ≡ none
      → get j (sort_in (k, v) d) ≡ (if text_eq k j then some v else get j d)
  unfolding get sort_in
  get-sort_in k j v [] h = refl
  get-sort_in k j v ((i, w) ∷ d) h =
      ground (arith, get-sort_in k j v d, text_eq_iff i k, text_eq_iff i j, text_eq_iff k j)

  sort_in-IsDict :
      (k : Text) (v : V) (d : Dict V) → get k d ≡ none → IsDict d → IsDict (sort_in (k, v) d)
  unfolding get sort_in
  sort_in-IsDict k v [] h hd = (refl, tt)
  sort_in-IsDict k v ((i, w) ∷ d) h hd =
      ground (arith, sort_in-IsDict k v d, get-sort_in k i v d, text_eq_iff i k, text_eq_iff k i)

  -- Sorting changes no entry.
  pub get-sorted : (j : Text) (d : Dict V) → IsDict d → get j (sorted d) ≡ get j d
  unfolding get sorted
  get-sorted j [] h = refl
  get-sorted j ((k, v) ∷ d) h =
      get-sort_in k j v (sorted d) (get-sorted k d h.1 ∙ h.0)
      ∙ ap (λ x. if text_eq k j then some v else x) (get-sorted j d h.1)

  pub sorted-IsDict : (d : Dict V) → IsDict d → IsDict (sorted d)
  unfolding sorted
  sorted-IsDict [] h = tt
  sorted-IsDict ((k, v) ∷ d) h =
      sort_in-IsDict k v (sorted d) (get-sorted k d h.1 ∙ h.0) (sorted-IsDict d h.1)

  sort_in-All :
      (P : Text × V → Type 0) (e : Text × V) (d : Dict V) → P e → All P d → All P (sort_in e d)
  unfolding sort_in
  sort_in-All P e [] h hd = (h, tt)
  sort_in-All P e (f ∷ d) h hd = ground (arith, sort_in-All P e d h)

  pub sorted-All : (P : Text × V → Type 0) (d : Dict V) → All P d → All P (sorted d)
  unfolding sorted
  sorted-All P [] h = tt
  sorted-All P (e ∷ d) h = sort_in-All P e (sorted d) h.0 (sorted-All P d h.1)

  sort_in-ne-nil : (e : Text × V) (d : Dict V) → ¬ (sort_in e d ≡ [])
  unfolding sort_in
  sort_in-ne-nil e [] h = cc
  sort_in-ne-nil e (f ∷ d) h = ground arith

  pub sorted-ne-nil : (d : Dict V) → ¬ (d ≡ []) → ¬ (sorted d ≡ [])
  unfolding sorted
  sorted-ne-nil [] ne = absurd (ne refl)
  sorted-ne-nil (e ∷ d) ne = sort_in-ne-nil e (sorted d)
