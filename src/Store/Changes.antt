-- ===== src/Store/Changes.antt =====
-- `whats_changed`: the documents of the log after a generation, each with its last entry.
pub mod Latest
pub mod Complete
use leap_soledad.Prelude.{
  ℕ, ◌+◌, ◌-◌, Bool, true, false, ◌||◌, List, [], ◌∷◌, ◌++◌, Text, text_eq, if◌then◌else◌, length,
  drop,
}
use mathlib.Core.List.{reverse}
use leap_soledad.Store.State.{Db}
use leap_soledad.Store.Read.{last_trans_id}

-- A changed document: its id, the generation of its last change, and that change's id.
abbrev pub Change : Type 0
Change = Text × ℕ × Text

-- `doc_id in seen`
unfoldable pub seen_in : Text → List Text → Bool
seen_in doc_id [] = false
seen_in doc_id (s ∷ seen) = text_eq s doc_id || seen_in doc_id seen

-- The loop over the reversed tail.
unfoldable pub changes_loop : ℕ → List Text → List (Text × Text) → List Change
unfolding seen_in
changes_loop generation seen [] = []
changes_loop generation seen ((doc_id, trans_id) ∷ entries) =
    let rest =
      changes_loop (generation - 1) (if seen_in doc_id seen then seen else doc_id ∷ seen) entries in
    if seen_in doc_id seen then rest else (doc_id, generation, trans_id) ∷ rest

-- The changes of a tail of the log that starts after `old_generation`.
unfoldable pub changes_of : ℕ → List (Text × Text) → List Change
unfolding changes_loop
changes_of old_generation tail =
    reverse (changes_loop (old_generation + length tail) [] (reverse tail))

-- `last_trans_id` of `whats_changed`: that of the tail, or if the tail is empty that of the log
unfoldable pub changes_trans_id : List (Text × Text) → List (Text × Text) → Text
changes_trans_id [] log = last_trans_id log
changes_trans_id (e ∷ tail) log = last_trans_id (e ∷ tail)

unfoldable pub whats_changed : ℕ → Db → ℕ × Text × List Change
unfolding changes_of changes_trans_id
whats_changed old_generation db =
    let tail = drop old_generation db.transaction_log in
    (
      old_generation + length tail,
      changes_trans_id tail db.transaction_log,
      changes_of old_generation tail,
    )
