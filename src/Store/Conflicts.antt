-- ===== src/Store/Conflicts.antt =====
-- The conflicts of a document: pruning and resolving them.
use leap_soledad.Prelude.{
  Bool, true, false, ◌||◌, Option, none, some, List, [], ◌∷◌, ◌++◌, Text, text_eq, if◌then◌else◌,
}
use leap_soledad.Prelude.Dict.{get, put, remove}
use leap_soledad.Prelude.Result as R
use leap_soledad.Prelude.Result.{Result, ok, err, key_error, or_raise}
use leap_soledad.VectorClock.{Clock, is_newer, increment, maximize}
use leap_soledad.VectorClock.Rev.{expand, as_str}
use leap_soledad.Json.{Python}
use leap_soledad.Document.{Document, new_document, get_json, same_content_as}
use leap_soledad.Store.State.{Db, Version, Action, lift, gets, reads, ◌>>=◌, ◌>>◌}
use leap_soledad.Store.Revs.{ensure_maximal_rev}
use leap_soledad.Store.Read.{find_doc}
use leap_soledad.Store.Write.{put_and_update_indexes, rev_of}

-- What the loop of `_prune_conflicts` carries: the clock, `autoresolved`, and what remains.
pub record Pruned : Type 0 where
  pub vcr : Clock
  pub autoresolved : Bool
  pub remaining : List Version

-- `self._conflicts[doc_id] = conflicts`, or `del` if there are none
unfoldable pub set_conflicts : Text → List Version → Db → Db
set_conflicts doc_id [] db = record db { conflicts = remove doc_id db.conflicts }
set_conflicts doc_id (c ∷ conflicts) db = record db {
  conflicts = put doc_id (c ∷ conflicts) db.conflicts;
}

-- `bool(conflicts)`
abbrev pub is_nonempty {ℓ} : {A : Type ℓ} → List A → Bool
is_nonempty [] = false
is_nonempty (x ∷ xs) = true

-- `_replace_conflicts(doc, conflicts)`, where the document has conflicts
unfoldable pub replace_conflicts : Text → Document → List Version → Action Document
unfolding set_conflicts
replace_conflicts doc_id doc conflicts db =
    (ok (record doc { has_conflicts = is_nonempty conflicts }), set_conflicts doc_id conflicts db)

-- The revision after the loop: if a conflict was resolved, the merged clock incremented.
unfoldable pub pruned_rev : Text → Document → Pruned → Document
pruned_rev replica_uid doc p =
    if p.autoresolved then record doc { rev = some (as_str (increment replica_uid p.vcr)) } else doc

-- `c_rev in superseded_revs`
unfoldable pub is_superseded : List Text → Option Text → Bool
is_superseded revs none = false
is_superseded [] (some rev) = false
is_superseded (r ∷ revs) (some rev) = text_eq r rev || is_superseded revs (some rev)

-- The conflicts whose revisions are not superseded, in their order.
unfoldable pub not_superseded : List Text → List Version → List Version
unfolding is_superseded
not_superseded revs [] = []
not_superseded revs (conflict ∷ conflicts) =
    let rest = not_superseded revs conflicts in
    if is_superseded revs conflict.0 then rest else conflict ∷ rest

module _ (py : Python) where
  -- One round of the loop of `_prune_conflicts`.
  unfoldable pub prune_one : Text → Document → Version → Pruned → Result Pruned
  unfolding new_document same_content_as
  prune_one doc_id doc (c_rev, c_doc) p = R.◌>>=◌ (expand c_rev) λ c_vcr.
      if is_newer p.vcr c_vcr
      then ok p
      else R.◌>>=◌ (new_document py (some doc_id) c_rev c_doc) λ conflict.
        R.◌>>=◌ (same_content_as py doc conflict) λ same.
          if same
          then ok (record p { vcr = maximize p.vcr c_vcr; autoresolved = true })
          else ok (record p { remaining = p.remaining ++ ((c_rev, c_doc) ∷ []) })

  unfoldable pub prune_loop : Text → Document → List Version → Pruned → Result Pruned
  unfolding prune_one
  prune_loop doc_id doc [] p = ok p
  prune_loop doc_id doc (conflict ∷ cur_conflicts) p =
      R.◌>>=◌ (prune_one doc_id doc conflict p) λ p'. prune_loop doc_id doc cur_conflicts p'

  -- `_prune_conflicts(doc, doc_vcr)`: the document as it is left.
  unfoldable pub prune_conflicts : Text → Document → Clock → Action Document
  unfolding prune_loop pruned_rev replace_conflicts
  prune_conflicts doc_id doc doc_vcr db = elim (get doc_id db.conflicts) [
    | none ↦ (ok doc, db)
    | some cur_conflicts ↦
        (do
          let start : Pruned = record { vcr = doc_vcr; autoresolved = false; remaining = [] }
          p ← lift (prune_loop doc_id doc cur_conflicts start)
          replace_conflicts doc_id (pruned_rev db.replica_uid doc p) p.remaining)
          db
  ]

  -- The end of `resolve_doc`: the document takes the place of the current one if that is
  -- superseded, and is one more conflict if not.
  unfoldable pub store_resolved :
      Text → Text → List Text → Option Document → List Version → Document → Action Document
  unfolding is_superseded replace_conflicts
  store_resolved trans_id doc_id revs cur_doc remaining doc =
      if is_superseded revs (rev_of cur_doc)
      then (do
        put_and_update_indexes py trans_id doc_id cur_doc doc
        replace_conflicts doc_id doc remaining)
      else replace_conflicts doc_id doc (remaining ++ ((doc.rev, get_json py doc) ∷ []))

  -- `resolve_doc(doc, conflicted_doc_revs)`, `doc_id` being the document's id
  unfoldable pub resolve_doc : Text → Text → Document → List Text → Action Document
  unfolding not_superseded store_resolved
  resolve_doc trans_id doc_id doc conflicted_doc_revs = do
    cur_doc ← reads (find_doc py doc_id false)
    new_rev ← reads (λ db. ensure_maximal_rev db.replica_uid (rev_of cur_doc) conflicted_doc_revs)
    found ← gets (λ db. get doc_id db.conflicts)
    cur_conflicts ← lift (or_raise found key_error)
    store_resolved trans_id doc_id conflicted_doc_revs cur_doc
        (not_superseded conflicted_doc_revs cur_conflicts) (record doc { rev = some new_rev })
