-- ===== src/Sync/Returned.antt =====
-- Which documents the target returns.
use leap_soledad.Prelude.{
  ℕ, ◌<◌, ◌≡◌, refl, ◌∙◌, none, some, List, [], ◌∷◌, Text, text_eq_iff, arith, All, drop,
  Bool-cases, inl, inr,
}
use leap_soledad.Prelude.Dict.{Dict, get}
use leap_soledad.Store.Changes.{Change, whats_changed}
use leap_soledad.Store.Changes.Latest.{occurs, names_doc}
use leap_soledad.Store.Changes.Complete.{whats_changed_complete}
use leap_soledad.Sync.Exchange.{Exchange, is_unseen, unseen, find_changes_to_return}

unseen-later :
    (k : Text) (g : ℕ) (seen_ids : Dict ℕ) (changes : List Change)
    → get k seen_ids ≡ some g
    → All (λ c. c.0 ≡ k → g < c.1) (unseen seen_ids changes)
unfolding unseen
unseen-later k g seen_ids [] h = tt
unseen-later k g seen_ids (c ∷ changes) h = elim (Bool-cases (is_unseen seen_ids c)) [
  | inl fresh ↦
      rw fresh (λ e. unfold is_unseen in ground arith, unseen-later k g seen_ids changes h)
  | inr old ↦ rw old (unseen-later k g seen_ids changes h)
]

unseen-names :
    (k : Text) (seen_ids : Dict ℕ) (changes : List Change)
    → get k seen_ids ≡ none
    → names_doc k (unseen seen_ids changes) ≡ names_doc k changes
unfolding unseen
unseen-names k seen_ids [] h = refl
unseen-names k seen_ids (c ∷ changes) h =
    ground (arith, unseen-names k seen_ids changes h, text_eq_iff c.0 k)

-- Of the documents that changed after the generation that the source knows, the target returns
-- each one that it has not seen in this exchange; of one that it has seen it returns only a change
-- that is later than the one which it noted.
pub find_changes_to_return_lem :
    (last_known : ℕ) (x : Exchange) (k : Text)
    → (get k x.seen_ids ≡ none
        → names_doc k (find_changes_to_return last_known x).2
          ≡ occurs k (drop last_known x.db.transaction_log))
      × ((g : ℕ)
          → get k x.seen_ids ≡ some g
          → All (λ c. c.0 ≡ k → g < c.1) (find_changes_to_return last_known x).2)
unfolding find_changes_to_return
find_changes_to_return_lem last_known x k = (
  λ h.
      unseen-names k x.seen_ids (whats_changed last_known x.db).2 h
      ∙ whats_changed_complete last_known x.db k,
  λ g h. unseen-later k g x.seen_ids (whats_changed last_known x.db).2 h,
)
