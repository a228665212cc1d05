-- ===== src/Store/Write/Put.antt =====
-- What `put_doc` does: when it returns, and when it raises.
use leap_soledad.Prelude.{
  ◌≡◌, refl, ap, Bool, true, Option, none, some, [], ◌∷◌, ◌++◌, Text, text_eq, text_eq_sound, arith,
  if◌then◌else◌, Bool-cases, inl, inr,
}
use leap_soledad.Prelude.Dict.{Dict, get, get-put}
use leap_soledad.Prelude.Result
use leap_soledad.Prelude.Result.{
  Error, Result, ok, err, or_raise, revision_conflict, invalid_doc_id, conflicted_doc,
}
use leap_soledad.VectorClock.RoundTrip.{HasPlainUid}
use leap_soledad.Json.{Python}
use leap_soledad.Document.{Document, get_json, new_document}
use leap_soledad.Index.{Index}
use leap_soledad.Store.State.{Db, Version, Action, ◌>>=◌, then_do, pure}
use leap_soledad.Store.State.Keeps.{Returned}
use leap_soledad.Store.Read.{find_doc}
use leap_soledad.Store.Revs.{check_doc_id, check_doc_size}
use leap_soledad.Store.Revs.Newer.{IsNewerRev, allocate_doc_rev_newer}
use leap_soledad.Store.Write.{
  update_indexes, finish_put, put_and_update_indexes, next_rev, rev_of, revives, opt_eq,
  is_conflicted, put_doc,
}

-- `after` is `before` with one more version and one more entry of the log.
pub record Writes (k trans_id : Text) (version : Version) (before after : Db) : Type 0 where
  pub docs :
      (j : Text) → get j after.docs ≡ (if text_eq k j then some version else get j before.docs)
  pub log : after.transaction_log ≡ before.transaction_log ++ ((k, trans_id) ∷ [])
  pub conflicts : after.conflicts ≡ before.conflicts
  pub other_generations : after.other_generations ≡ before.other_generations
  pub replica_uid : after.replica_uid ≡ before.replica_uid

-- `after` differs from `before` in its indexes at most.
pub record SameButIndexes (before after : Db) : Type 0 where
  pub docs : after.docs ≡ before.docs
  pub log : after.transaction_log ≡ before.transaction_log
  pub conflicts : after.conflicts ≡ before.conflicts
  pub other_generations : after.other_generations ≡ before.other_generations
  pub replica_uid : after.replica_uid ≡ before.replica_uid

-- How an action on one document may end.
abbrev pub Ends : {A : Type 0} → (A → Db → Type 0) → Db → Result A × Db → Type 0
Ends Q before (ok a, after) = Q a after
Ends Q before (err e, after) = SameButIndexes before after

SameButIndexes-refl : (db : Db) → SameButIndexes db db
SameButIndexes-refl db = record {
  docs = refl;
  log = refl;
  conflicts = refl;
  other_generations = refl;
  replica_uid = refl;
}

pub Ends-then :
    {A B : Type 0} (Q : B → Db → Type 0) (r : Result A) (f : A → Action B) (db : Db)
    → ((a : A) → r ≡ ok a → Ends Q db (f a db))
    → Ends Q db (then_do r f db)
Ends-then Q (ok a) f db k = k a refl
Ends-then Q (err e) f db k = SameButIndexes-refl db

pub Ends-Returned :
    {A : Type 0} (P Q : A → Db → Type 0) (before : Db) (r : Result A × Db)
    → ((a : A) (after : Db) → P a after → Q a after)
    → Ends P before r
    → Returned Q r
Ends-Returned P Q before (ok a, after) h p = h a after p
Ends-Returned P Q before (err e, after) h p = tt

pub put_and_update_indexes-Ends :
    {B : Type 0} (Q : B → Db → Type 0) (py : Python) (trans_id k : Text) (old_doc : Option Document)
    (doc : Document) (b : B) (db : Db)
    → ((after : Db) → Writes k trans_id (doc.rev, get_json py doc) db after → Q b after)
    → Ends Q db ((put_and_update_indexes py trans_id k old_doc doc >>= λ _. pure b) db)
unfolding put_and_update_indexes ◌>>=◌
put_and_update_indexes-Ends {B} Q py trans_id k old_doc doc b db h =
    go (update_indexes py k old_doc doc db.indexes)
  where
    go :
        (p : Result (Unit {0}) × Dict Index)
        → Ends Q db (let r = finish_put py trans_id k doc p db in then_do r.0 (λ _. pure b) r.1)
    go (ok u, indexes) = h _ (record {
      docs = λ j. get-put k j (doc.rev, get_json py doc) db.docs;
      log = refl;
      conflicts = refl;
      other_generations = refl;
      replica_uid = refl;
    })
    go (err e, indexes) = record {
      docs = refl;
      log = refl;
      conflicts = refl;
      other_generations = refl;
      replica_uid = refl;
    }

-- The revision that is stored, None if there is none.
abbrev pub stored_rev : Option Version → Option Text
stored_rev none = none
stored_rev (some version) = version.0

-- What a returned `put_doc` has done: the content is written under a new revision, which is newer
-- than the one that was stored.
pub record Puts (py : Python) (trans_id : Text) (doc : Document) (before : Db)
    (result : Text × Document) (after : Db) : Type 0 where
  pub id : Text
  pub id_given : doc.doc_id ≡ some id
  pub returned : result.1 ≡ record doc { rev = some result.0 }
  pub written : Writes id trans_id (some result.0, get_json py doc) before after
  pub newer : IsNewerRev result.0 (stored_rev (get id before.docs))

pub opt_eq_sound : (s t : Option Text) → opt_eq s t ≡ true → s ≡ t
opt_eq_sound none none h = refl
opt_eq_sound none (some t) h = cc
opt_eq_sound (some s) none h = cc
opt_eq_sound (some s) (some t) h = ap some (text_eq_sound s t h)

next_rev-newer :
    (replica_uid : Text) (old_doc : Option Document) (doc : Document) {new : Text}
    → HasPlainUid (replica_uid, 0)
    → next_rev replica_uid old_doc doc ≡ ok new
    → IsNewerRev new (rev_of old_doc)
unfolding next_rev
next_rev-newer u old_doc doc plain e = elim (Bool-cases (revives old_doc doc)) [
  | inl again ↦ allocate_doc_rev_newer u (rev_of old_doc) plain (ground arith)
  | inr fresh ↦ elim (Bool-cases (opt_eq (rev_of old_doc) doc.rev)) [
    | inl same ↦
        rw (opt_eq_sound (rev_of old_doc) doc.rev same)
          (allocate_doc_rev_newer u doc.rev plain (ground arith))
    | inr other ↦ absurd (ground arith)
  ]
]

rev_of-find_doc :
    (py : Python) (k : Text) (b : Bool) (db : Db) {found : Option Document}
    → find_doc py k b db ≡ ok found
    → rev_of found ≡ stored_rev (get k db.docs)
unfolding find_doc new_document
rev_of-find_doc py k b db e = ground arith

-- `put_doc` either returns, and has written the content under a newer revision and one entry at
-- the end of the log, and touched no other document; or it raises, and has changed nothing but
-- indexes. The replica's uid holds neither `|` nor `:`.
pub put_doc-Ends :
    (py : Python) (trans_id : Text) (doc : Document) (db : Db)
    → HasPlainUid (db.replica_uid, 0)
    → Ends (Puts py trans_id doc db) db (put_doc py trans_id doc db)
unfolding put_doc
put_doc-Ends py trans_id doc db plain =
    let Q = Puts py trans_id doc db in
    unfold ◌>>=◌ in
    Ends-then Q (or_raise doc.doc_id invalid_doc_id) _ db λ k given.
      Ends-then Q (check_doc_id k) _ db λ _ _.
        Ends-then Q (check_doc_size py db.document_size_limit doc) _ db λ _ _.
          Ends-then Q (find_doc py k true db) _ db λ old_doc found.
            Ends-then Q (Result.raise_if (is_conflicted old_doc) conflicted_doc) _ db λ _ _.
              Ends-then Q (next_rev db.replica_uid old_doc doc) _ db λ new_rev next.
                put_and_update_indexes-Ends Q py trans_id k old_doc
                  (record doc { rev = some new_rev }) (new_rev, record doc { rev = some new_rev })
                  db
                  λ after written. record {
                    id = k;
                    id_given = ground arith;
                    returned = refl;
                    written = unfold get_json in written;
                    newer =
                        rw (← rev_of-find_doc py k true db found)
                          (next_rev-newer db.replica_uid old_doc doc plain next);
                  }
