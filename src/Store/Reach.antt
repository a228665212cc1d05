-- ===== src/Store/Reach.antt =====
-- The states that a database goes through: any methods, in any order, with any arguments, whether
-- they return or raise.
use leap_soledad.Prelude.{
  ℕ, zero, suc, ◌-◌, ◌≤◌, ◌<◌, ◌≡◌, refl, sym, Bool, Option, List, [], ◌∷◌, ◌++◌, Text, arith,
  append-nil, length, length-append, get_elem?,
}
use leap_soledad.Prelude.Result.{ok}
use leap_soledad.Json.{Python, Value}
use leap_soledad.Document.{Document}
use leap_soledad.Store.State.{Db, new_db}
use leap_soledad.Store.Read.{get_generation, validate_gen_and_trans_id}
use leap_soledad.Store.Write.{put_doc, delete_doc, create_doc_from_json, create_doc}
use leap_soledad.Store.Conflicts.{resolve_doc}
use leap_soledad.Store.Incoming.{put_doc_if_newer, set_replica_gen_and_trans_id}
use leap_soledad.Store.Indexes.{create_index, delete_index}
use leap_soledad.Store.Soundness.{IsSound, indexes-IsSound}
use leap_soledad.Store.Changes.Latest.{occurs}
use leap_soledad.Prelude.Dict.{get}
use leap_soledad.Store.Soundness.Methods.{
  put_doc-Keeps, delete_doc-Keeps, create_doc_from_json-Keeps, create_doc-Keeps, resolve_doc-Keeps,
  put_doc_if_newer-Keeps, replica_gen-IsSound, create_index-Keeps,
}

-- A call of a method.
pub data Call : Type 0 where
  put delete : Text → Document → Call
  create_from_json : Text → Text → Option Text → Option Text → Call
  create : Text → Text → Value → Option Text → Call
  resolve : Text → Text → Document → List Text → Call
  put_if_newer : Text → Text → Document → Bool → Option Text → ℕ → Text → Call
  set_replica_gen : Text → ℕ → Text → Call
  new_index : Text → List Text → Call
  drop_index : Text → Call

module _ (py : Python) where
  -- The database after a call.
  unfoldable pub after : Call → Db → Db
  after (put trans_id doc) db = (put_doc py trans_id doc db).1
  after (delete trans_id doc) db = (delete_doc py trans_id doc db).1
  after (create_from_json trans_id new_id json doc_id) db =
      (create_doc_from_json py trans_id new_id json doc_id db).1
  after (create trans_id new_id content doc_id) db =
      (create_doc py trans_id new_id content doc_id db).1
  after (resolve trans_id doc_id doc revs) db = (resolve_doc py trans_id doc_id doc revs db).1
  after (put_if_newer trans_id doc_id doc save uid gen source_trans_id) db =
      (put_doc_if_newer py trans_id doc_id doc save uid gen source_trans_id db).1
  after (set_replica_gen uid gen trans_id) db = set_replica_gen_and_trans_id uid gen trans_id db
  after (new_index name expressions) db = (create_index py name expressions db).1
  after (drop_index name) db = delete_index name db

  pub data Reach (a : Db) : Db → Type 0 where
    here : Reach a a
    call : {b : Db} → Reach a b → (c : Call) → Reach a (after c b)

  after-IsSound :
      (base : List (Text × Text)) (c : Call) (db : Db) → IsSound base db → IsSound base (after c db)
  unfolding after
  after-IsSound base (put trans_id doc) db = (put_doc-Keeps base py trans_id doc).from db
  after-IsSound base (delete trans_id doc) db = (delete_doc-Keeps base py trans_id doc).from db
  after-IsSound base (create_from_json trans_id new_id json doc_id) db =
      (create_doc_from_json-Keeps base py trans_id new_id json doc_id).from db
  after-IsSound base (create trans_id new_id content doc_id) db =
      (create_doc-Keeps base py trans_id new_id content doc_id).from db
  after-IsSound base (resolve trans_id doc_id doc revs) db =
      (resolve_doc-Keeps base py trans_id doc_id doc revs).from db
  after-IsSound base (put_if_newer trans_id doc_id doc save uid gen source_trans_id) db =
      (put_doc_if_newer-Keeps base py trans_id doc_id doc save uid gen source_trans_id).from db
  after-IsSound base (set_replica_gen uid gen trans_id) db =
      replica_gen-IsSound base py uid gen trans_id db
  after-IsSound base (new_index name expressions) db =
      (create_index-Keeps base py name expressions).from db
  after-IsSound base (drop_index name) db = λ s. unfold delete_index in indexes-IsSound base db _ s

  pub Reach-IsSound :
      (base : List (Text × Text)) {a b : Db} → Reach a b → IsSound base a → IsSound base b
  Reach-IsSound base here s = s
  Reach-IsSound base (call {b = b} r c) s = after-IsSound base c b (Reach-IsSound base r s)

new_db-IsSound : (replica_uid : Text) → IsSound [] (new_db replica_uid)
new_db-IsSound replica_uid =
    unfold occurs get in
    record {
      logged = λ k. refl;
      stored = λ k h. cc;
      nonempty = λ k h. cc;
      added = [];
      extends = refl;
    }

pub rebase : (base : List (Text × Text)) (db : Db) → IsSound base db → IsSound db.transaction_log db
rebase base db s = record {
  logged = s.logged;
  stored = s.stored;
  nonempty = s.nonempty;
  added = [];
  extends = sym (append-nil db.transaction_log);
}

-- In every state that a new database can reach, the stored documents are those that the log
-- names, a document that has conflicts is stored, and no list of conflicts is empty.
pub Reach-new-IsSound :
    (py : Python) (replica_uid : Text) (db : Db) → Reach py (new_db replica_uid) db → IsSound [] db
Reach-new-IsSound py replica_uid db r = Reach-IsSound py [] r (new_db-IsSound replica_uid)

get_elem?-append_left :
    (i : ℕ) (xs ys : List (Text × Text)) → i < length xs → get_elem? (xs ++ ys) i ≡ get_elem? xs i
get_elem?-append_left i [] ys h = absurd (omega arith)
get_elem?-append_left zero (x ∷ xs) ys h = refl
get_elem?-append_left (suc i) (x ∷ xs) ys h = get_elem?-append_left i xs ys (omega arith)

-- What a peer knows of the log stays true: the generations never fall, and a generation with its
-- transaction id that was accepted once is accepted in every later state. The stored documents of
-- the earlier database are those that its log names, a document that has conflicts is stored, and
-- no list of conflicts is empty, as in every state that a new database reaches.
pub validate-Reach :
    (py : Python) (a b : Db) (generation : ℕ) (trans_id : Text)
    → IsSound [] a
    → Reach py a b
    → validate_gen_and_trans_id generation trans_id a ≡ ok tt
    → (get_generation a ≤ get_generation b)
      × (validate_gen_and_trans_id generation trans_id b ≡ ok tt)
unfolding validate_gen_and_trans_id get_generation
validate-Reach py a b generation trans_id s r known =
    let s' = Reach-IsSound py a.transaction_log r (rebase [] a s) in
    rw s'.extends (
      omega (arith, length-append {0} a.transaction_log s'.added),
      ground (
        arith,
        length-append a.transaction_log s'.added,
        get_elem?-append_left (generation - 1) a.transaction_log s'.added,
      ),
    )
