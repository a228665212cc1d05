-- ===== src/Sync/Keeps.antt =====
-- What `_put_doc_if_newer` keeps of a database, an exchange keeps.
use leap_soledad.Prelude.{ℕ, ◌+◌, Bool, true, false, some, List, [], ◌∷◌, Text}
use leap_soledad.Prelude.Result.{Result, ok, err}
use leap_soledad.Json.{Python}
use leap_soledad.Store.State.{Db}
use leap_soledad.Document.{Document}
use leap_soledad.Store.Incoming.{Outcome, put_doc_if_newer}
use leap_soledad.Store.Soundness.{IsSound}
use leap_soledad.Store.Soundness.Methods.{put_doc_if_newer-Keeps}
use leap_soledad.Sync.Exchange.{
  Parcel, Exchange, insert_doc_from_source, insert_docs, and_insert, note_seen,
}
use leap_soledad.Sync.Synchronizer.{
  Receiver, insert_doc_from_target, receive_docs, and_receive, count_of,
}

-- The loops of the exchange keep what `_put_doc_if_newer` keeps.
module _ (py : Python) (P : Db → Type 0) where
  unfoldable pub PutKeeps : Type 0
  PutKeeps =
      (p : Parcel) (save : Bool) (uid : Text) (db : Db)
      → P db
      → P (put_doc_if_newer py p.new_trans_id p.doc_id p.doc save (some uid) p.gen p.trans_id db).1

  pub insert_docs-Keeps :
      PutKeeps
      → (uid : Text) (ps : List Parcel) (end_ : Result (Unit {0})) (x : Exchange) → P x.db
      → P (insert_docs py uid ps end_ x).1.db
  unfolding PutKeeps insert_docs insert_doc_from_source
  insert_docs-Keeps k uid [] end_ x s = s
  insert_docs-Keeps k uid (p ∷ ps) end_ x s =
      go (put_doc_if_newer py p.new_trans_id p.doc_id p.doc false (some uid) p.gen p.trans_id x.db)
        (k p false uid x.db s) (insert_docs-Keeps k uid ps end_)
    where
      go :
          (r : Result (Outcome × ℕ × Document) × Db)
          → P r.1
          → ((x' : Exchange) → P x'.db → P (insert_docs py uid ps end_ x').1.db)
          → P
              (and_insert py
                (elim r.0 [
                  | err e ↦ (err e, record { db = r.1; seen_ids = x.seen_ids })
                  | ok (state, at_gen, doc) ↦ (
                    ok tt,
                    record { db = r.1; seen_ids = note_seen p.doc_id state at_gen x.seen_ids },
                  )
                ])
                (insert_docs py uid ps end_)).1.db
      go (ok (state, at_gen, doc), db) h more = more _ h
      go (err e, db) h more = h

  pub receive_docs-Keeps :
      PutKeeps
      → (uid : Text) (ps : List Parcel) (end_ : Result (Unit {0})) (x : Receiver) → P x.source
      → P (receive_docs py uid ps end_ x).1.source
  unfolding PutKeeps receive_docs insert_doc_from_target
  receive_docs-Keeps k uid [] end_ x s = s
  receive_docs-Keeps k uid (p ∷ ps) end_ x s =
      go
        (put_doc_if_newer py p.new_trans_id p.doc_id p.doc true (some uid) p.gen p.trans_id
          x.source)
        (k p true uid x.source s) (receive_docs-Keeps k uid ps end_)
    where
      go :
          (r : Result (Outcome × ℕ × Document) × Db)
          → P r.1
          → ((x' : Receiver) → P x'.source → P (receive_docs py uid ps end_ x').1.source)
          → P
              (and_receive py
                (elim r.0 [
                  | err e ↦ (err e, record { source = r.1; num_inserted = x.num_inserted })
                  | ok (state, at_gen, doc) ↦ (
                    ok tt,
                    record { source = r.1; num_inserted = x.num_inserted + count_of state },
                  )
                ])
                (receive_docs py uid ps end_)).1.source
      go (ok (state, at_gen, doc), db) h more = more _ h
      go (err e, db) h more = h

pub IsSound-PutKeeps : (py : Python) (base : List (Text × Text)) → PutKeeps py (IsSound base)
unfolding PutKeeps
IsSound-PutKeeps py base p save uid db =
    (put_doc_if_newer-Keeps base py p.new_trans_id p.doc_id p.doc save (some uid) p.gen
        p.trans_id).from
      db
