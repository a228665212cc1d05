-- ===== src/Examples/Stores.antt =====
-- The theorems on the methods of the database at a database with one document.
use leap_soledad.Prelude.{
  ◌≡◌, ◌≤◌, refl, true, none, some, [], ◌∷◌, text, text_eq, All, arith, drop,
}
use leap_soledad.Prelude.Dict
use leap_soledad.Prelude.Split.{join, split}
use leap_soledad.Prelude.Decimal.{show, read}
use leap_soledad.Json.{is_object}
use leap_soledad.Prelude.Dict.{get, contains}
use leap_soledad.Prelude.Result.{ok}
use leap_soledad.VectorClock.{increment}
use leap_soledad.VectorClock.Rev.{as_str, expand}
use leap_soledad.VectorClock.RoundTrip.{HasPlainUid}
use leap_soledad.Document.{Document, is_valid_json, new_document, make_tombstone, get_json}
use leap_soledad.Store.State.{Db, new_db, ◌>>=◌}
use leap_soledad.Store.State.Keeps.{Returned}
use leap_soledad.Store.Read.{get_doc, get_generation, validate_gen_and_trans_id}
use leap_soledad.Store.Revs.{allocate_doc_rev}
use leap_soledad.Store.Write.{put_doc, delete_doc}
use leap_soledad.Store.Write.Put.{Puts, Ends, put_doc-Ends}
use leap_soledad.Store.Write.Branches.{get_doc-put_doc, delete_doc-Ends}
use leap_soledad.Store.Changes.{whats_changed}
use leap_soledad.Store.Changes.Latest.{occurs, names_doc, IsLastChange, IsAscending, NamesOnce}
use leap_soledad.Store.Changes.Complete.{
  whats_changed_sound, whats_changed_complete, whats_changed_in_order,
}
use leap_soledad.Store.Soundness.{IsSound}
use leap_soledad.Store.Reach.{Reach, put, after, here, call, Reach-new-IsSound, validate-Reach}
use leap_soledad.Examples.{python, note, one_note}

abbrev empty : Db
empty = new_db (text "alice")

abbrev put_note : Db
put_note = (put_doc python (text "T-1") note empty).1

plain_alice : HasPlainUid (text "alice", 0)
plain_alice = ground arith

note_valid : is_valid_json python (get_json python note) ≡ true
unfolding is_valid_json get_json is_object
note_valid = refl

put_doc-Ends_example :
    Ends (Puts python (text "T-1") note empty) empty (put_doc python (text "T-1") note empty)
put_doc-Ends_example = put_doc-Ends python (text "T-1") note empty plain_alice

delete_doc-Ends_example :
    Ends
      (Puts python (text "T-2") (make_tombstone note) one_note)
      one_note
      (delete_doc python (text "T-2") note one_note)
delete_doc-Ends_example = delete_doc-Ends python (text "T-2") note one_note plain_alice

get_doc-put_doc_example :
    Returned
      (λ result after.
        get_doc python (text "note") true after
        ≡ ok (
            some (record {
              doc_id = some (text "note");
              rev = some result.0;
              json = get_json python note;
              content = none;
              has_conflicts = contains (text "note") empty.conflicts;
            })))
      (put_doc python (text "T-1") note empty)
get_doc-put_doc_example =
    get_doc-put_doc python (text "T-1") (text "note") note empty plain_alice refl note_valid

-- The put returns there, so that its database is the one with the note.
puts_note :
    put_doc python (text "T-1") note empty
    ≡ (ok (text "alice:1", record note { rev = some (text "alice:1") }), one_note)
unfolding put_doc ◌>>=◌ get allocate_doc_rev expand as_str Dict.put join get_json increment show
puts_note = refl

abbrev two_changes : Db
two_changes = record one_note {
  transaction_log =
      (text "note", text "T-1") ∷ (text "list", text "T-2") ∷ (text "note", text "T-3") ∷ [];
}

whats_changed_sound_example :
    All (IsLastChange two_changes.transaction_log 1) (whats_changed 1 two_changes).2
whats_changed_sound_example = whats_changed_sound 1 two_changes

whats_changed_complete_example :
    names_doc (text "note") (whats_changed 1 two_changes).2
    ≡ occurs (text "note") (drop 1 two_changes.transaction_log)
whats_changed_complete_example = whats_changed_complete 1 two_changes (text "note")

whats_changed_in_order_example :
    IsAscending 0 (whats_changed 0 two_changes).2 × NamesOnce (whats_changed 0 two_changes).2
whats_changed_in_order_example = whats_changed_in_order 0 two_changes

put_note-Reach : Reach python empty put_note
put_note-Reach = unfold after in call here (put (text "T-1") note)

Reach-new-IsSound_example : IsSound [] put_note
Reach-new-IsSound_example = Reach-new-IsSound python (text "alice") put_note put_note-Reach

abbrev changed_note : Document
changed_note = record note { rev = some (text "alice:1") }

abbrev put_again : Db
put_again = (put_doc python (text "T-2") changed_note put_note).1

put_again-Reach : Reach python put_note put_again
put_again-Reach = unfold after in call here (put (text "T-2") changed_note)

-- The second put returns as well, and the log grows.
grows : get_generation put_again ≡ 2
unfolding put_doc ◌>>=◌ get allocate_doc_rev expand as_str Dict.put join get_json increment show
    get_generation text_eq new_document is_object split read
grows = refl

validates : validate_gen_and_trans_id 1 (text "T-1") put_note ≡ ok tt
unfolding put_doc ◌>>=◌ get allocate_doc_rev expand as_str Dict.put join get_json increment show
    validate_gen_and_trans_id text_eq
validates = refl

validate-Reach_example :
    (get_generation put_note ≤ get_generation put_again)
    × (validate_gen_and_trans_id 1 (text "T-1") put_again ≡ ok tt)
validate-Reach_example =
    validate-Reach python put_note put_again 1 (text "T-1") Reach-new-IsSound_example
      put_again-Reach validates
