-- ===== src/Examples/Clocks.antt =====
-- The theorems on revisions at concrete clocks.
use leap_soledad.Prelude.{
  ◌≡◌, refl, ◌↔◌, ◌≢◌, true, some, [], ◌∷◌, text, text_eq, text_lt, All, arith,
}
use leap_soledad.Prelude.Dict.{get, put, IsDict}
use leap_soledad.Prelude.Sorting.{sorted}
use leap_soledad.Prelude.Result.{ok}
use leap_soledad.Prelude.Split.{split, join}
use leap_soledad.Prelude.Decimal.{show, read}
use leap_soledad.VectorClock.{Clock, is_newer, increment, maximize}
use leap_soledad.VectorClock.Order.{IsNewer, Dominates}
use leap_soledad.VectorClock.Merge.{maximize_lub}
use leap_soledad.VectorClock.Decides.{is_newer_iff}
use leap_soledad.VectorClock.Rev.{expand, as_str}
use leap_soledad.VectorClock.RoundTrip.{HasPlainUid, IsPlain, expand-as_str}
use leap_soledad.Store.Revs.{allocate_doc_rev, ensure_maximal_rev}
use leap_soledad.Store.Revs.Newer.{IsNewerRev, allocate_doc_rev_newer, ensure_maximal_rev_newer}

abbrev old_clock : Clock
old_clock = (text "a", 2) ∷ (text "b", 1) ∷ []

abbrev new_clock : Clock
new_clock = (text "b", 4) ∷ (text "a", 2) ∷ []

old_clock-IsDict : IsDict old_clock
unfolding get text_eq
old_clock-IsDict = ground arith

new_clock-IsDict : IsDict new_clock
unfolding get text_eq
new_clock-IsDict = ground arith

new_clock-IsPlain : IsPlain new_clock
new_clock-IsPlain = ground arith

plain_a : HasPlainUid (text "a", 0)
plain_a = ground arith

is_newer_iff_example : (is_newer new_clock old_clock ≡ true) ↔ IsNewer new_clock old_clock
is_newer_iff_example = is_newer_iff new_clock old_clock new_clock-IsDict

maximize_lub_example :
    Dominates (maximize new_clock old_clock) new_clock
    × Dominates (maximize new_clock old_clock) old_clock
    × ((c : Clock)
        → Dominates c new_clock
        → Dominates c old_clock
        → Dominates c (maximize new_clock old_clock))
maximize_lub_example = maximize_lub new_clock old_clock old_clock-IsDict

new_clock-ne-nil : new_clock ≢ []
new_clock-ne-nil e = cc

expand-as_str_example : expand (some (as_str new_clock)) ≡ ok (sorted new_clock)
expand-as_str_example = expand-as_str new_clock new_clock-IsDict new_clock-IsPlain new_clock-ne-nil

allocates : allocate_doc_rev (text "a") (some (text "a:1|b:2")) ≡ ok (text "a:2|b:2")
unfolding allocate_doc_rev expand increment as_str split read join put text_eq text_lt show get
allocates = refl

allocate_doc_rev_newer_example : IsNewerRev (text "a:2|b:2") (some (text "a:1|b:2"))
allocate_doc_rev_newer_example =
    allocate_doc_rev_newer (text "a") (some (text "a:1|b:2")) plain_a allocates

ensures : ensure_maximal_rev (text "a") (some (text "a:1")) (text "b:3" ∷ []) ≡ ok (text "a:2|b:3")
unfolding ensure_maximal_rev expand increment as_str split read join put maximize get text_eq
    text_lt show
ensures = refl

ensure_maximal_rev_newer_example :
    IsNewerRev (text "a:2|b:3") (some (text "a:1"))
    × All (λ rev. IsNewerRev (text "a:2|b:3") (some rev)) (text "b:3" ∷ [])
ensure_maximal_rev_newer_example =
    ensure_maximal_rev_newer (text "a") (some (text "a:1")) (text "b:3" ∷ []) plain_a ensures
