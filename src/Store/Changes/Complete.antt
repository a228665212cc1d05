-- ===== src/Store/Changes/Complete.antt =====
-- `whats_changed` as a whole: sound, complete and in order.
use leap_soledad.Prelude.{
  ℕ, zero, suc, ◌+◌, ◌-◌, ◌≡◌, refl, ◌∙◌, ap, List, [], ◌∷◌, Text, get_elem?, drop, All, All-weaken,
  arith, sym,
}
use leap_soledad.Store.State.{Db}
use leap_soledad.Store.Changes.{Change, whats_changed}
use leap_soledad.Store.Changes.Latest.{
  occurs, latest, changes_of-eq-latest, IsLastChange, IsLastIn, latest-IsLastIn, names_doc,
  names_doc-latest, IsAscending, latest-IsAscending, NamesOnce, latest-NamesOnce,
}

get_elem?-drop :
    (n i : ℕ) (xs : List (Text × Text)) → get_elem? (drop n xs) i ≡ get_elem? xs (n + i)
get_elem?-drop zero i xs = ground arith
get_elem?-drop (suc n) i [] = refl
get_elem?-drop (suc n) i (x ∷ xs) =
    let e : suc n + i ≡ suc (n + i) = omega arith in rw e (get_elem?-drop n i xs)

drop-drop : (n m : ℕ) (xs : List (Text × Text)) → drop m (drop n xs) ≡ drop (n + m) xs
drop-drop zero m xs = ground arith
drop-drop (suc n) zero [] = let e : suc n + zero ≡ suc n = omega arith in rw e
drop-drop (suc n) (suc m) [] = let e : suc n + suc m ≡ suc (n + suc m) = omega arith in rw e
drop-drop (suc n) m (x ∷ xs) =
    let e : suc n + m ≡ suc (n + m) = omega arith in rw e (drop-drop n m xs)

IsLastChange-of_IsLastIn :
    (log : List (Text × Text)) (old : ℕ) (c : Change)
    → IsLastIn (drop old log) old c
    → IsLastChange log old c
IsLastChange-of_IsLastIn log old c (after, entry, last) =
    let e : old + (c.1 - old - 1) ≡ c.1 - 1 = omega arith in
    let e' : old + (c.1 - old) ≡ c.1 = omega arith in
    record {
      after = after;
      entry = ap (get_elem? log) (sym e) ∙ sym (get_elem?-drop old _ log) ∙ entry;
      last =
          ap (λ n. occurs c.0 (drop n log)) (sym e')
          ∙ ap (occurs c.0) (sym (drop-drop old _ log))
          ∙ last;
    }

-- Every change that `whats_changed` returns names an entry of the log after the old generation
-- with its generation and transaction id, and no later entry is of the same document.
pub whats_changed_sound :
    (old : ℕ) (db : Db) → All (IsLastChange db.transaction_log old) (whats_changed old db).2
unfolding whats_changed
whats_changed_sound old db = rw changes_of-eq-latest (
    All-weaken (IsLastIn (drop old db.transaction_log) old) (IsLastChange db.transaction_log old)
      (latest old (drop old db.transaction_log)) (IsLastChange-of_IsLastIn db.transaction_log old)
      (latest-IsLastIn old (drop old db.transaction_log)))

-- A document is named by the changes exactly if it has an entry after the old generation.
pub whats_changed_complete :
    (old : ℕ) (db : Db) (doc_id : Text)
    → names_doc doc_id (whats_changed old db).2 ≡ occurs doc_id (drop old db.transaction_log)
unfolding whats_changed
whats_changed_complete old db doc_id =
    rw changes_of-eq-latest (names_doc-latest doc_id old (drop old db.transaction_log))

-- The changes come in the order of their generations, and no document is named by two of them.
pub whats_changed_in_order :
    (old : ℕ) (db : Db)
    → IsAscending old (whats_changed old db).2 × NamesOnce (whats_changed old db).2
unfolding whats_changed
whats_changed_in_order old db = rw changes_of-eq-latest (
  latest-IsAscending old (drop old db.transaction_log),
  latest-NamesOnce old (drop old db.transaction_log),
)
