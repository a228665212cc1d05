-- ===== src/Examples/Servers.antt =====
-- The theorems on the server's sync sessions over a backend in memory.
use leap_soledad.Prelude.{
  ℕ, ◌≡◌, refl, true, false, none, some, [], ◌∷◌, ◌++◌, text, text_eq, get_elem?, arith,
  if◌then◌else◌,
}
use leap_soledad.Prelude.Dict.{get}
use leap_soledad.Prelude.Result.{Result, ok, err, attribute_error}
use leap_soledad.Document.{Document}
use leap_soledad.Store.State.{Db}
use leap_soledad.Store.Read.{get_docs}
use leap_soledad.Store.Incoming.{Outcome, put_doc_if_newer}
use leap_soledad.Store.Changes.{whats_changed}
use leap_soledad.Sync.Exchange.{unseen}
use leap_soledad.Server.SyncState.{
  Info, SyncState, new_session, put_seen_id, seen_ids, next_change_to_return,
}
use leap_soledad.Server.Seen.{seen_ids-put_seen_id}
use leap_soledad.Server.Exchange.{
  Backend, Entry, Exchange, new_exchange, find_changes_to_return, return_docs,
}
use leap_soledad.Server.Resume.{
  IsOk, HasInfo, find_changes_to_return-again, return_docs_resumed, next_change_to_return-found,
}
use leap_soledad.Server.Staging.{Staging, posts, one_batch, posts-one_batch}
use leap_soledad.Examples.{python, note, one_note}

abbrev state_of : Result (Outcome × ℕ × Document) × Db → Result (Outcome × ℕ) × Db
state_of (ok (state, at_gen, doc), db) = (ok (state, at_gen), db)
state_of (err e, db) = (err e, db)

abbrev memory : Backend Db
memory = record {
  whats_changed = whats_changed;
  put_doc_if_newer = λ uid e db.
      state_of
        (put_doc_if_newer python (text "S-1") e.doc_id e.doc false (some uid) e.gen e.trans_id db);
  get_docs = λ ids db. get_docs python ids false true db;
  batch_start = λ db. db;
  batch_end = λ db. db;
}

seen_ids-put_seen_id_example :
    get (text "note") (seen_ids (put_seen_id (text "note") 3 new_session)) ≡ (
      if text_eq (text "note") (text "note")
      then some 3
      else get (text "note") (seen_ids new_session))
seen_ids-put_seen_id_example = seen_ids-put_seen_id (text "note") (text "note") 3 new_session

abbrev first : Exchange Db
first = new_exchange one_note (text "alice") 0 new_session

abbrev second : Exchange Db
second = new_exchange one_note (text "alice") 0 (find_changes_to_return memory first).1.state

first-HasInfo : HasInfo first.state
first-HasInfo e = cc

find_changes_to_return-again_example :
    IsOk (find_changes_to_return memory first).0
    × ((find_changes_to_return memory second).0 ≡ (find_changes_to_return memory first).0)
    × ((find_changes_to_return memory second).1.state ≡ second.state)
find_changes_to_return-again_example =
    find_changes_to_return-again memory first second first-HasInfo refl

next_change_to_return-found_example :
    next_change_to_return 0 (find_changes_to_return memory first).1.state
    ≡ ok (
        some (
          (whats_changed 0 one_note).0,
          (whats_changed 0 one_note).1,
          get_elem? (unseen (seen_ids new_session) (whats_changed 0 one_note).2) 0,
        ))
next_change_to_return-found_example = next_change_to_return-found memory first 0 refl

abbrev known : Info
known = record {
  gen = 1;
  trans_id = text "T-1";
  changes_to_return = (text "note", 1, text "T-1") ∷ [];
}

abbrev session : SyncState
session = record { seen_id = none; infos = some (known ∷ []) }

return_docs_resumed_example :
    return_docs memory
      (find_changes_to_return memory (new_exchange one_note (text "alice") 0 session)).1
    ≡ err attribute_error
return_docs_resumed_example =
    return_docs_resumed memory one_note (text "alice") 0 session known [] refl

abbrev entry : ℕ → Entry
entry i = record {
  doc_id = text "note";
  doc = record note { rev = some (text "bob:1") };
  gen = i;
  trans_id = text "T-b";
  number_of_docs = 2;
  doc_idx = i;
}

abbrev nothing_staged : Staging Db
nothing_staged = record { exch = first; staging = []; staging_size = 0 }

posts-one_batch_example :
    posts memory ((entry 1 ∷ []) ++ (entry 2 ∷ [])) nothing_staged
    ≡ one_batch memory (entry 1 ∷ entry 2 ∷ []) 4 nothing_staged
posts-one_batch_example =
    posts-one_batch memory (entry 1 ∷ []) (entry 2) nothing_staged (refl, tt) refl (omega arith)
