-- ===== src/Examples/Backends.antt =====
-- The theorems on `SoledadBackend`, over a database in memory.
use leap_soledad.Prelude.{
  ℕ, ◌+◌, ◌≡◌, refl, All, Option, none, some, List, [], ◌∷◌, Text, text, text_eq, arith, true,
  false,
}
use leap_soledad.Prelude.Dict.{Dict, get, put, get-put}
use leap_soledad.Prelude.Result.{ok}
use leap_soledad.SoledadBackend.Database.{Database, known, Soledad, new_backend}
use leap_soledad.SoledadBackend.ServerDocument.{ServerDocument, from_document, with_rev}
use leap_soledad.SoledadBackend.Write.{put_doc, delete_doc}
use leap_soledad.SoledadBackend.Write.Saved.{
  HasPlainName, IsPut, IsDeleted, put_doc-IsPut, delete_doc-IsDeleted,
}
use leap_soledad.Examples.{python, note}
use leap_soledad.SoledadBackend.Session.{
  Call, ask, record_source, start_batch, stop_batch, identify, calls, IsOther, Table, answers_of,
}
use leap_soledad.SoledadBackend.Session.Holds.{Stores, Holds, Returns}
use leap_soledad.SoledadBackend.Session.Refines.{calls-Holds}

-- What the database holds.
record Disk : Type 0 where
  replicas : Dict (ℕ × Text)
  docs : Dict ServerDocument
  changes : ℕ

abbrev known_or_new : Option (ℕ × Text) → ℕ × Text
known_or_new none = (0, [])
known_or_new (some info) = info

abbrev stored : Disk → Text → ℕ × Text
stored s uid = known_or_new (get uid s.replicas)

abbrev id_of : ServerDocument → Text
id_of doc = elim doc.document.doc_id [ none ↦ [] | some doc_id ↦ doc_id ]

abbrev memory : Database Disk
memory = record {
  read_generation_info = λ s. (ok (s.changes, text "T"), s);
  read_trans_id_for_gen = λ gen s. (ok (text "T"), s);
  read_doc = λ doc_id check s. (ok (get doc_id s.docs), s);
  save_document = λ old doc trans_id s.
      (ok tt, record s { docs = put (id_of doc) doc s.docs; changes = s.changes + 1 });
  read_whats_changed = λ gen s. (ok (s.changes, text "T", []), s);
  read_replica_uid = λ s. (ok (text "server"), s);
  write_replica_uid = λ uid s. (ok tt, s);
  read_replica_gen_and_trans_id = λ uid s. (ok (stored s uid), s);
  write_replica_gen_and_trans_id =
      λ uid gen trans_id s. (ok tt, record s { replicas = put uid (gen, trans_id) s.replicas });
  delete_database = λ s. (ok tt, record { replicas = []; docs = []; changes = 0 });
  close = λ s. (ok tt, s);
  start_batch = λ s. (ok tt, s);
  end_batch = λ s. (ok tt, s);
}

memory-Stores : Stores memory stored
memory-Stores = record {
  reads = λ uid s. (refl, λ v. refl);
  writes = λ uid gen trans_id s v. ground (arith, get-put uid v (gen, trans_id) s.replicas);
  read_uid_keeps = λ s v. refl;
  write_uid_keeps = λ uid s v. refl;
  info_keeps = λ s v. refl;
  start_keeps = λ s v. refl;
  end_keeps = λ s v. refl;
}

abbrev empty_disk : Disk
empty_disk = record { replicas = []; docs = []; changes = 0 }

abbrev server : Soledad Disk
server = new_backend true empty_disk

abbrev nothing_known : Table
nothing_known = record {
  known_of = λ v. (0, []);
  batching = false;
  supports = true;
  pending = none;
}

server-Holds : Holds memory stored nothing_known server
unfolding leap_soledad.SoledadBackend.Database.cache_of get
server-Holds = record {
  entries = λ v. refl;
  fresh = λ v value other e. absurd cc;
  same_batching = refl;
  same_support = refl;
  same_pending = λ kept e. absurd cc;
}

abbrev session : List Call
session =
    identify
    ∷ start_batch
    ∷ ask (text "alice")
    ∷ record_source (text "alice") 3 (text "T-3")
    ∷ record_source (text "alice") 4 (text "T-4")
    ∷ ask (text "alice")
    ∷ stop_batch
    ∷ ask (text "alice")
    ∷ []

session-IsOther : All IsOther session
unfolding text_eq
session-IsOther = (tt, (tt, (refl, (tt, (tt, (refl, (tt, (refl, tt))))))))

calls-Holds_example :
    Returns
      (λ answers x'.
        (answers ≡ (answers_of session nothing_known).0)
        × Holds memory stored (answers_of session nothing_known).1 x')
      (calls memory session server)
calls-Holds_example =
    calls-Holds memory stored memory-Stores session nothing_known server session-IsOther
      server-Holds

-- The calls return, and the last sees what the batch was told last.
session_answers :
    (calls memory session server).0
    ≡ ok (
        none
        ∷ none
        ∷ some (known (0, []))
        ∷ none
        ∷ none
        ∷ some (known (0, []))
        ∷ none
        ∷ some (known (4, text "T-4"))
        ∷ [])
unfolding calls get put text_eq
session_answers = refl

server-HasPlainName : HasPlainName python memory server
unfolding leap_soledad.SoledadBackend.Cache.own_name leap_soledad.SoledadBackend.Database.cache_of
    get
server-HasPlainName s = ground arith

abbrev draft : ServerDocument
draft = from_document note

put_doc-IsPut_example :
    Returns
      (λ new y. IsPut python memory (text "T-1") draft server new.0 new.1 y)
      (put_doc python memory (text "T-1") draft server)
put_doc-IsPut_example = put_doc-IsPut python memory (text "T-1") draft server server-HasPlainName

-- A server with the document in its first revision.
abbrev saved_server : Soledad Disk
saved_server = record server {
  database = record {
    replicas = [];
    docs = (text "note", with_rev (text "alice:1") draft) ∷ [];
    changes = 1;
  };
}

delete_doc-IsDeleted_example :
    Returns
      (λ new y.
        IsDeleted python memory
          (text "T-2")
          (text "note")
          (with_rev (text "alice:1") draft)
          saved_server
          new.0
          new.1
          y)
      (delete_doc python memory
        (text "T-2")
        (text "note")
        (with_rev (text "alice:1") draft)
        saved_server)
delete_doc-IsDeleted_example =
    delete_doc-IsDeleted python memory (text "T-2") (text "note") (with_rev (text "alice:1") draft)
      saved_server server-HasPlainName

-- The put of the first example returns.
draft_is_saved :
    (put_doc python memory (text "T-1") draft server).0
    ≡ ok (text "server:1", with_rev (text "server:1") draft)
unfolding put_doc leap_soledad.Store.Revs.check_doc_id leap_soledad.Store.Revs.check_doc_size get
    leap_soledad.VectorClock.Rev.expand leap_soledad.Store.Revs.allocate_doc_rev
    leap_soledad.VectorClock.Rev.as_str leap_soledad.Prelude.Split.join
    leap_soledad.VectorClock.increment put leap_soledad.Prelude.Decimal.show
draft_is_saved = refl
