-- ===== src/VectorClock/RoundTrip.antt =====
-- Printing a clock and reading it back gives the same clock, sorted by replica.
use leap_soledad.Prelude.{
  ℕ, ◌≡◌, refl, sym, subst, ◌≢◌, ◌∙◌, ap, none, some, [], ◌∷◌, ◌++◌, map, Text, text_eq_iff, arith,
  All, All-append, All-weaken, append_assoc, append-nil,
}
use leap_soledad.Prelude.Dict.{get, put, IsDict}
use leap_soledad.Prelude.Sorting.{sorted, sorted-All, sorted-IsDict, sorted-ne-nil}
use leap_soledad.Prelude.Split.{split, join, split-join, Lacks}
use leap_soledad.Prelude.Decimal.{show, read-show, show-IsDigit, IsDigit}
use leap_soledad.Prelude.Result.{ok}
use leap_soledad.VectorClock.{Clock}
use leap_soledad.VectorClock.Rev.{replica_info, expand_loop, expand, show_info, as_str}

-- No uid holds one of the separators.
abbrev pub HasPlainUid : Text × ℕ → Type 0
HasPlainUid e = Lacks b'|' e.0 × Lacks b':' e.0

abbrev pub IsPlain : Clock → Type 0
IsPlain = All HasPlainUid

digit-Lacks : (sep n : ℕ) → ¬ IsDigit sep → Lacks sep (show n)
digit-Lacks sep n h =
    All-weaken IsDigit (λ c. c ≢ sep) (show n) (λ c d e. h (subst IsDigit e d)) (show-IsDigit n)

show_info-Lacks : (e : Text × ℕ) → HasPlainUid e → Lacks b'|' (show_info e)
unfolding join
show_info-Lacks (m, r) h =
    All-append (λ c. c ≢ b'|') m (b':' ∷ show r) h.0
      (omega arith, digit-Lacks b'|' r (λ d. omega arith))

replica_info-show : (e : Text × ℕ) → HasPlainUid e → replica_info (split b':' (show_info e)) ≡ ok e
replica_info-show (m, r) h =
    ap replica_info
      (split-join b':' m (show r ∷ []) h.1 (digit-Lacks b':' r (λ d. omega arith), tt))
    ∙ unfold replica_info in rw read-show

get-append_none :
    (k : Text) (xs ys : Clock) → get k (xs ++ ys) ≡ none → (get k xs ≡ none) × (get k ys ≡ none)
unfolding get
get-append_none k [] ys h = (refl, h)
get-append_none k ((j, v) ∷ xs) ys h = ground (arith, get-append_none k xs ys)

fresh_of_IsDict :
    (k : Text) (v : ℕ) (xs ys : Clock) → IsDict (xs ++ ((k, v) ∷ ys)) → get k xs ≡ none
unfolding get
fresh_of_IsDict k v [] ys h = refl
fresh_of_IsDict k v ((j, w) ∷ xs) ys h = ground (
  arith,
  fresh_of_IsDict k v xs ys h.1,
  get-append_none j xs ((k, v) ∷ ys) h.0,
  text_eq_iff j k,
  text_eq_iff k j,
)

put-fresh : (k : Text) (v : ℕ) (d : Clock) → get k d ≡ none → put k v d ≡ d ++ ((k, v) ∷ [])
unfolding get put
put-fresh k v [] h = refl
put-fresh k v ((j, w) ∷ d) h = ground (arith, put-fresh k v d)

expand_loop-show :
    (a d : Clock) → IsPlain d → IsDict (a ++ d) → expand_loop a (map show_info d) ≡ ok (a ++ d)
unfolding expand_loop
expand_loop-show a [] p h = ap ok (sym (append-nil a))
expand_loop-show a ((k, v) ∷ d) p h = rw (replica_info-show (k, v) p.0) (
    rw (put-fresh k v a (fresh_of_IsDict k v a d h)) (
      expand_loop-show (a ++ ((k, v) ∷ [])) d p.1 (rw append_assoc h) ∙ ap ok (append_assoc a _ d)))

split_parts :
    (d : Clock) → d ≢ [] → IsPlain d → split b'|' (join b'|' (map show_info d)) ≡ map show_info d
split_parts [] ne p = absurd (ne refl)
split_parts (e ∷ d) ne p =
    split-join b'|' (show_info e) (map show_info d) (show_info-Lacks e p.0) (all d p.1)
  where
    all : (d : Clock) → IsPlain d → All (Lacks b'|') (map show_info d)
    all [] p = tt
    all (e ∷ d) p = (show_info-Lacks e p.0, all d p.1)

-- Reading a printed clock gives it back, its entries sorted. The clock is a dict that is not
-- empty, and no uid in it holds `|` or `:`.
pub expand-as_str :
    (d : Clock) → IsDict d → IsPlain d → d ≢ [] → expand (some (as_str d)) ≡ ok (sorted d)
unfolding expand as_str
expand-as_str d h p ne =
    rw (split_parts (sorted d) (sorted-ne-nil d ne) (sorted-All HasPlainUid d p))
      (expand_loop-show [] (sorted d) (sorted-All HasPlainUid d p) (sorted-IsDict d h))
