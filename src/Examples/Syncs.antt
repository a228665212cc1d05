-- ===== src/Examples/Syncs.antt =====
-- The theorems on a sync between two databases.
use leap_soledad.Prelude.{ℕ, ◌≡◌, ◌<◌, none, some, [], ◌∷◌, text, All, drop}
use leap_soledad.Prelude.Dict.{get}
use leap_soledad.Store.State.{Db, new_db}
use leap_soledad.Store.Reach.{here, call, put, after, Reach-new-IsSound}
use leap_soledad.Store.Changes.Latest.{occurs, names_doc}
use leap_soledad.Sync.Exchange.{Exchange, find_changes_to_return}
use leap_soledad.Sync.Synchronizer.{Pair, sync}
use leap_soledad.Sync.Agreement.{IfReturned, Agrees, sync-Agrees}
use leap_soledad.Sync.Soundness.{AreSound, sync-AreSound}
use leap_soledad.Sync.Returned.{find_changes_to_return_lem}
use leap_soledad.Examples.{python, note, one_note}

abbrev server : Db
server = after python (put (text "S-1") note) (new_db (text "server"))

abbrev pair : Pair
pair = record { source = new_db (text "alice"); target = server }

sync-Agrees_example : IfReturned (Agrees server.replica_uid) (sync python (λ s. s) pair)
sync-Agrees_example =
    sync-Agrees python (λ s. s) pair
      (Reach-new-IsSound python (text "server") server (call here (put (text "S-1") note)))

sync-AreSound_example :
    AreSound python
      (λ s. s)
      pair.source.transaction_log
      server.transaction_log
      (sync python (λ s. s) pair).1
sync-AreSound_example =
    sync-AreSound python (λ s. s) pair
      (Reach-new-IsSound python (text "alice") (new_db (text "alice")) here)
      (Reach-new-IsSound python (text "server") server (call here (put (text "S-1") note)))

abbrev seen_note : Exchange
seen_note = record { db = one_note; seen_ids = (text "note", 1) ∷ [] }

find_changes_to_return_lem_example :
    (get (text "note") seen_note.seen_ids ≡ none
      → names_doc (text "note") (find_changes_to_return 0 seen_note).2
        ≡ occurs (text "note") (drop 0 one_note.transaction_log))
    × ((g : ℕ)
        → get (text "note") seen_note.seen_ids ≡ some g
        → All (λ c. c.0 ≡ text "note" → g < c.1) (find_changes_to_return 0 seen_note).2)
find_changes_to_return_lem_example = find_changes_to_return_lem 0 seen_note (text "note")
