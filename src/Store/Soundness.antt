-- ===== src/Store/Soundness.antt =====
-- What every method of the database keeps, whether it returns or raises: the log and the
-- documents agree, only stored documents have conflicts, and the log only grows.
pub mod Methods
use leap_soledad.Prelude.{
  ℕ, ◌≡◌, refl, ◌∙◌, ap, sym, ◌≢◌, Bool, true, false, Option, none, some, List, [], ◌∷◌, ◌++◌, Text,
  text_eq, text_eq_iff, arith, append-nil, append_assoc, if◌then◌else◌, is_some, Option-cases, inl,
  inr,
}
use leap_soledad.Prelude.Dict.{Dict, get, put, remove, contains, get-put, get-remove}
use leap_soledad.Prelude.Result.{Result, ok, err}
use leap_soledad.Json.{Python}
use leap_soledad.Document.{Document, get_json}
use leap_soledad.Index.{Index}
use leap_soledad.Store.State.{Db, Version, Action}
use leap_soledad.Store.Write.{update_indexes, finish_put, put_and_update_indexes}
use leap_soledad.Store.Conflicts.{set_conflicts, replace_conflicts}
use leap_soledad.Store.Incoming.{add_conflict}
use leap_soledad.Store.Changes.Latest.{occurs, occurs-append}

-- `base` is the log of an earlier state.
pub record IsSound (base : List (Text × Text)) (db : Db) : Type 0 where
  -- The stored documents are those that the log names.
  pub logged : (k : Text) → occurs k db.transaction_log ≡ contains k db.docs
  -- A document with conflicts is stored.
  pub stored : (k : Text) → contains k db.conflicts ≡ true → contains k db.docs ≡ true
  -- No list of conflicts is empty.
  pub nonempty : (k : Text) → get k db.conflicts ≢ some []
  -- Nothing of the earlier log is lost or changed.
  pub added : List (Text × Text)
  pub extends : db.transaction_log ≡ base ++ added

module _ (base : List (Text × Text)) where
  write-IsSound :
      (db : Db) (k t : Text) (v : Version) (indexes : Dict Index)
      → IsSound base db
      → IsSound base (record db {
        indexes = indexes;
        docs = put k v db.docs;
        transaction_log = db.transaction_log ++ ((k, t) ∷ []);
      })
  write-IsSound db k t v indexes s = record {
    logged = λ j.
        unfold occurs in
        ground (
          arith,
          occurs-append j db.transaction_log ((k, t) ∷ []),
          get-put k j v db.docs,
          s.logged j,
        );
    stored = λ j h. ground (arith, get-put k j v db.docs, s.stored j h);
    nonempty = s.nonempty;
    added = s.added ++ ((k, t) ∷ []);
    extends = ap (λ l. l ++ ((k, t) ∷ [])) s.extends ∙ append_assoc base s.added ((k, t) ∷ []);
  }

  pub indexes-IsSound :
      (db : Db) (indexes : Dict Index)
      → IsSound base db
      → IsSound base (record db { indexes = indexes })
  indexes-IsSound db indexes s = record {
    logged = s.logged;
    stored = s.stored;
    nonempty = s.nonempty;
    added = s.added;
    extends = s.extends;
  }

  pub put_and_update_indexes-IsSound :
      (py : Python) (trans_id doc_id : Text) (old_doc : Option Document) (doc : Document) (db : Db)
      → IsSound base db
      → IsSound base (put_and_update_indexes py trans_id doc_id old_doc doc db).1
  unfolding put_and_update_indexes
  put_and_update_indexes-IsSound py trans_id doc_id old_doc doc db s =
      go (update_indexes py doc_id old_doc doc db.indexes)
    where
      go :
          (p : Result (Unit {0}) × Dict Index)
          → IsSound base (finish_put py trans_id doc_id doc p db).1
      go (ok u, indexes) = write-IsSound db doc_id trans_id (doc.rev, get_json py doc) indexes s
      go (err e, indexes) = indexes-IsSound db indexes s

  -- The conflicts of a document that has some are replaced.
  pub set_conflicts-IsSound :
      (db : Db) (k : Text) (versions : List Version)
      → contains k db.docs ≡ true
      → IsSound base db
      → IsSound base (set_conflicts k versions db)
  unfolding set_conflicts
  set_conflicts-IsSound db k [] h s = record {
    logged = s.logged;
    stored = λ j c. ground (arith, get-remove k j db.conflicts, s.stored j);
    nonempty = λ j c. ground (arith, get-remove k j db.conflicts, s.nonempty j);
    added = s.added;
    extends = s.extends;
  }
  set_conflicts-IsSound db k (v ∷ versions) h s = record {
    logged = s.logged;
    stored =
        λ j c. ground (arith, get-put k j (v ∷ versions) db.conflicts, s.stored j, text_eq_iff k j);
    nonempty = λ j c. ground (arith, get-put k j (v ∷ versions) db.conflicts, s.nonempty j);
    added = s.added;
    extends = s.extends;
  }

  append-conflict :
      (db : Db) (k : Text) (versions : List Version)
      → versions ≢ []
      → contains k db.docs ≡ true
      → IsSound base db
      → IsSound base (record db { conflicts = put k versions db.conflicts })
  append-conflict db k [] ne h s = absurd (ne refl)
  append-conflict db k (v ∷ versions) ne h s =
      unfold set_conflicts in set_conflicts-IsSound db k (v ∷ versions) h s

  snoc-ne-nil : (versions : List Version) (v : Version) → (versions ++ (v ∷ [])) ≢ []
  snoc-ne-nil [] v e = cc
  snoc-ne-nil (x ∷ versions) v e = cc

  pub add_conflict-IsSound :
      (db : Db) (k : Text) (v : Version)
      → contains k db.docs ≡ true
      → IsSound base db
      → IsSound base (add_conflict k v db)
  unfolding add_conflict
  add_conflict-IsSound db k v h s = elim (Option-cases (get k db.conflicts)) [
    | inl new ↦ rw (new, add_conflict) (append-conflict db k (v ∷ []) (λ e. cc) h s)
    | inr (versions, old) ↦
        rw (old, add_conflict)
          (append-conflict db k (versions ++ (v ∷ [])) (snoc-ne-nil versions v) h s)
  ]

-- No method makes a stored document disappear.
pub put_and_update_indexes-contains :
    (py : Python) (trans_id doc_id : Text) (old_doc : Option Document) (doc : Document) (db : Db)
    (k : Text)
    → contains k db.docs ≡ true
    → contains k (put_and_update_indexes py trans_id doc_id old_doc doc db).1.docs ≡ true
unfolding put_and_update_indexes
put_and_update_indexes-contains py trans_id doc_id old_doc doc db k h =
    go (update_indexes py doc_id old_doc doc db.indexes)
  where
    go :
        (p : Result (Unit {0}) × Dict Index)
        → contains k (finish_put py trans_id doc_id doc p db).1.docs ≡ true
    go (ok u, indexes) = ground (arith, get-put doc_id k (doc.rev, get_json py doc) db.docs)
    go (err e, indexes) = h

pub set_conflicts-contains :
    (doc_id : Text) (versions : List Version) (db : Db) (k : Text)
    → contains k db.docs ≡ true
    → contains k (set_conflicts doc_id versions db).docs ≡ true
unfolding set_conflicts
set_conflicts-contains doc_id [] db k h = h
set_conflicts-contains doc_id (v ∷ versions) db k h = h
