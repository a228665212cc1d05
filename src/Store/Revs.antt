-- ===== src/Store/Revs.antt =====
-- Revisions, document ids and sizes: the checks and allocations of `CommonBackend`.
pub mod Newer
use leap_soledad.Prelude.{
  ℕ, Bool, true, false, ◌&&◌, ◌||◌, Option, none, some, List, [], ◌∷◌, Text, text_eq, ltb, leb,
  ◌==◌, if◌then◌else◌,
}
use leap_soledad.Prelude.Result.{Result, ok, err, invalid_doc_id, document_too_big, ◌>>=◌}
use leap_soledad.VectorClock.{Clock, increment, maximize}
use leap_soledad.VectorClock.Rev.{expand, as_str}
use leap_soledad.Json.{Python}
use leap_soledad.Document.{Document, get_size}
use leap_soledad.Store.State.{Db}

-- `_allocate_doc_rev(old_doc_rev)`
unfoldable pub allocate_doc_rev : Text → Option Text → Result Text
allocate_doc_rev replica_uid old_doc_rev = do
  vcr ← expand old_doc_rev
  ok (as_str (increment replica_uid vcr))

-- The loop of `_ensure_maximal_rev`.
unfoldable pub maximize_all : Clock → List Text → Result Clock
maximize_all vcr [] = ok vcr
maximize_all vcr (rev ∷ extra_revs) = do
  other ← expand (some rev)
  maximize_all (maximize vcr other) extra_revs

-- `_ensure_maximal_rev(cur_rev, extra_revs)`
unfoldable pub ensure_maximal_rev : Text → Option Text → List Text → Result Text
unfolding maximize_all
ensure_maximal_rev replica_uid cur_rev extra_revs = do
  vcr ← expand cur_rev
  merged ← maximize_all vcr extra_revs
  ok (as_str (increment replica_uid merged))

-- A character of `DOC_ID_CONSTRAINTS`.
abbrev pub is_id_char : ℕ → Bool
is_id_char c =
    (leb b'a' c && leb c b'z')
    || (leb b'A' c && leb c b'Z')
    || (leb b'0' c && leb c b'9')
    || c == b'.'
    || c == b'%'
    || c == b'_'
    || c == b'-'

-- What follows the first character: `$` also matches in front of a line feed that ends the text.
unfoldable pub matches_id_rest : Text → Bool
matches_id_rest [] = true
matches_id_rest (c ∷ []) = is_id_char c || c == 10
matches_id_rest (c ∷ d ∷ s) = let rest = matches_id_rest (d ∷ s) in is_id_char c && rest

-- `check_doc_id_re.match(doc_id)`
unfoldable pub matches_doc_id : Text → Bool
unfolding matches_id_rest
matches_doc_id [] = false
matches_doc_id (c ∷ s) = is_id_char c && matches_id_rest s

-- `_check_doc_id`
unfoldable pub check_doc_id : Text → Result (Unit {0})
unfolding matches_doc_id
check_doc_id doc_id = if matches_doc_id doc_id then ok tt else err invalid_doc_id

-- `_check_doc_size`: a limit of 0 is none.
unfoldable pub check_doc_size : Python → ℕ → Document → Result (Unit {0})
check_doc_size py limit doc =
    if limit == 0
    then ok tt
    else if ltb limit (get_size py doc)
    then err document_too_big
    else ok tt
