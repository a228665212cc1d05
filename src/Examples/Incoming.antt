-- ===== src/Examples/Incoming.antt =====
-- The theorems on documents from elsewhere at a database with one document.
use leap_soledad.Prelude.{
  ◌≡◌, inl, refl, true, false, none, some, [], ◌∷◌, text, text_eq, arith, if◌then◌else◌,
}
use leap_soledad.Prelude.Dict.{get, put}
use leap_soledad.Prelude.Split.{split}
use leap_soledad.Prelude.Decimal.{read}
use leap_soledad.Prelude.Result.{ok}
use leap_soledad.Json.{is_object}
use leap_soledad.VectorClock.{Clock}
use leap_soledad.VectorClock.Rev.{expand}
use leap_soledad.Document.{Document, new_document}
use leap_soledad.Store.State.{Db}
use leap_soledad.Store.Read.{
  find_doc, get_generation, get_replica_gen_and_trans_id, validate_source,
}
use leap_soledad.Store.Write.{opt_eq}
use leap_soledad.Store.State.Keeps.{Returned, Refused}
use leap_soledad.Store.Incoming.{
  converged, superseded, set_replica_gen_and_trans_id, put_doc_if_newer,
}
use leap_soledad.Store.Incoming.Branches.{
  put_doc_if_newer_records, put_doc_if_newer_stale_source, put_doc_if_newer_not_newer,
}
use leap_soledad.Examples.{python, note, one_note}

abbrev incoming : Document
incoming = record note { rev = some (text "bob:1"); json = none }

-- Bob's database is known up to its fifth generation.
abbrev known_bob : Db
known_bob = record one_note { other_generations = (text "bob", (5, text "T-b5")) ∷ [] }

abbrev stored_note : Document
stored_note = record note { rev = some (text "alice:1") }

finds_note : find_doc python (text "note") false known_bob ≡ ok (some stored_note)
unfolding find_doc get text_eq new_document is_object
finds_note = refl

abbrev alice_clock : Clock
alice_clock = (text "alice", 1) ∷ []

alice_reads : expand stored_note.rev ≡ ok alice_clock
unfolding expand split read put
alice_reads = refl

put_doc_if_newer_records_example :
    Returned
      (λ _ after. get_replica_gen_and_trans_id (some (text "bob")) after ≡ (6, text "T-b6"))
      (put_doc_if_newer python
        (text "T-2")
        (text "note")
        incoming
        true
        (some (text "bob"))
        6
        (text "T-b6")
        known_bob)
put_doc_if_newer_records_example =
    put_doc_if_newer_records python (text "T-2") (text "note") incoming true known_bob (text "bob")
      6 (text "T-b6")

-- The incoming document is not stored there.
abbrev elsewhere : Document
elsewhere = record incoming { doc_id = some (text "list") }

put_doc_if_newer_stale_source_example : Refused known_bob (
    put_doc_if_newer python
      (text "T-2")
      (text "list")
      elsewhere
      true
      (some (text "bob"))
      4
      (text "T-b4")
      known_bob)
unfolding get text_eq
put_doc_if_newer_stale_source_example =
    put_doc_if_newer_stale_source python (text "T-2") (text "list") elsewhere true known_bob
      (text "bob") 4 (text "T-b4") {known = (5, text "T-b5")}
      (unfold get_replica_gen_and_trans_id in refl) (inl (omega arith))

-- The stored note comes back from Bob.
abbrev same_note : Document
same_note = record note { rev = some (text "alice:1") }

put_doc_if_newer_not_newer_example :
    put_doc_if_newer python
      (text "T-2")
      (text "note")
      same_note
      true
      (some (text "bob"))
      6
      (text "T-b6")
      known_bob
    ≡ (
      ok (
        (if opt_eq same_note.rev stored_note.rev then converged else superseded),
        get_generation known_bob,
        same_note,
      ),
      set_replica_gen_and_trans_id (text "bob") 6 (text "T-b6") known_bob,
    )
unfolding get text_eq
put_doc_if_newer_not_newer_example =
    put_doc_if_newer_not_newer python (text "T-2") (text "note") same_note true known_bob
      (text "bob") 6 (text "T-b6") stored_note alice_clock alice_clock finds_note alice_reads
      alice_reads (unfold validate_source in refl) (inl refl)
