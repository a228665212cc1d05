-- ===== src/SoledadBackend/ServerDocument.antt =====
-- `ServerDocument` of src/leap/soledad/common/document.py: a document that carries its conflicts.
use leap_soledad.Prelude.{
  Bool, true, false, Option, none, some, List, [], ◌∷◌, ◌++◌, Text, if◌then◌else◌,
}
use leap_soledad.Prelude.Result.{Result, ok, err, conflicts_not_fetched}
use leap_soledad.Document.{Document}
use leap_soledad.Store.Conflicts.{is_nonempty}
use leap_soledad.Store.Write.{opt_eq}

-- `conflicts` is None until they are fetched. Of a conflicting version the program reads only
-- what a document has.
pub record ServerDocument : Type 0 where
  pub document : Document
  pub conflicts : Option (List Document)

-- `doc.rev`
abbrev pub rev_of : ServerDocument → Option Text
rev_of doc = doc.document.rev

-- `doc.rev = rev`
abbrev pub with_rev : Text → ServerDocument → ServerDocument
with_rev rev doc = record doc { document = record doc.document { rev = some rev } }

-- `ServerDocument(doc_id, rev, json)` from a document of any kind: its conflicts are not fetched.
abbrev pub from_document : Document → ServerDocument
from_document doc = record { document = record doc { has_conflicts = false }; conflicts = none }

-- `get_conflicts()`
abbrev pub get_conflicts : ServerDocument → List Document
get_conflicts doc = elim doc.conflicts [ none ↦ [] | some conflicts ↦ conflicts ]

unfoldable pub set_conflicts : List Document → ServerDocument → ServerDocument
set_conflicts conflicts doc = record {
  document = record doc.document { has_conflicts = is_nonempty conflicts };
  conflicts = some conflicts;
}

unfoldable pub add_conflict : Document → ServerDocument → Result ServerDocument
unfolding set_conflicts
add_conflict conflict doc = elim doc.conflicts [
  | none ↦ err conflicts_not_fetched
  | some conflicts ↦ ok (set_conflicts (conflicts ++ (conflict ∷ [])) doc)
]

-- The conflicts whose revisions are not among `revs`.
unfoldable pub without_revs : List (Option Text) → List Document → List Document
without_revs revs [] = []
without_revs revs (c ∷ conflicts) =
    let rest = without_revs revs conflicts in if is_among c.rev revs then rest else c ∷ rest
  where
    is_among : Option Text → List (Option Text) → Bool
    is_among rev [] = false
    is_among rev (r ∷ revs) = if opt_eq rev r then true else is_among rev revs

unfoldable pub delete_conflicts : List (Option Text) → ServerDocument → Result ServerDocument
unfolding set_conflicts without_revs
delete_conflicts revs doc = elim doc.conflicts [
  | none ↦ err conflicts_not_fetched
  | some conflicts ↦ ok (set_conflicts (without_revs revs conflicts) doc)
]
