-- ===== src/SoledadBackend/Session.antt =====
-- The backend as its callers see it: calls that ask for what is known of another replica and record
-- it, in batches or not; and the plain table of replicas that they can take it for.
pub mod Holds
pub mod Sources
pub mod Refines
use leap_soledad.Prelude.{
  ◌≡◌, text, ℕ, Bool, true, false, Option, none, some, List, [], ◌∷◌, Text, text_eq, if◌then◌else◌,
}
use leap_soledad.Prelude.Result.{Result, ok, err}
use leap_soledad.Prelude.Action.{Action, pure, and_then, ◌>>=◌, ◌>>◌}
use leap_soledad.SoledadBackend.Database.{Database, Cached, known, Soledad}
use leap_soledad.SoledadBackend.Cache.{
  get_replica_uid, get_replica_gen_and_trans_id, do_set_replica_gen_and_trans_id, batch_start,
  batch_end,
}

-- A call of a method of the backend.
pub data Call : Type 0 where
  identify : Call
  ask : Text → Call
  record_source : Text → ℕ → Text → Call
  start_batch : Call
  stop_batch : Call

-- What a call returns, of what other replicas can tell.
abbrev pub Answer : Type 0
Answer = Option Cached

-- The call asks about a replica, and not under the key that the cache has for the own uid.
abbrev pub IsOther : Call → Type 0
IsOther (ask uid) = text_eq (text "replica_uid") uid ≡ false
IsOther _ = Unit

module _ {S : Type 0} (D : Database S) where
  unfoldable pub call : Call → Action (Soledad S) Answer
  unfolding get_replica_uid get_replica_gen_and_trans_id do_set_replica_gen_and_trans_id batch_start
      batch_end
  call identify = do uid ← get_replica_uid D; pure none
  call (ask uid) = do value ← get_replica_gen_and_trans_id D uid; pure (some value)
  call (record_source uid gen trans_id) = do
    do_set_replica_gen_and_trans_id D uid gen trans_id
    pure none
  call start_batch = do batch_start D; pure none
  call stop_batch = do batch_end D; pure none

  -- The calls in order, up to the first that raises.
  unfoldable pub calls : List Call → Action (Soledad S) (List Answer)
  unfolding call
  calls [] = pure []
  calls (c ∷ cs) = do answer ← call c; answers ← calls cs; pure (answer ∷ answers)

-- A table of what is known of each replica, with the one record that a batch keeps for its end.
pub record Table : Type 0 where
  pub known_of : Text → ℕ × Text
  pub batching : Bool
  pub supports : Bool
  pub pending : Option (Text × ℕ × Text)

abbrev pub entered : Text × ℕ × Text → Table → Table
entered (uid, gen, trans_id) t = record t {
  known_of = λ v. if text_eq uid v then (gen, trans_id) else t.known_of v;
}

abbrev pub settle : Option (Text × ℕ × Text) → Table → Table
settle none t = t
settle (some source) t = entered source t

abbrev pub answer_of : Call → Table → Answer × Table
answer_of identify t = (none, t)
answer_of (ask uid) t = (some (known (t.known_of uid)), t)
answer_of (record_source uid gen trans_id) t = (
  none,
  if t.batching
      then record t { pending = some (uid, gen, trans_id) }
      else entered (uid, gen, trans_id) t,
)
answer_of start_batch t =
    (none, if t.supports then record t { batching = true; pending = none } else t)
answer_of stop_batch t = (
  none,
  if t.supports then record (settle t.pending t) { batching = false; pending = none } else t,
)

abbrev pub answers_of : List Call → Table → List Answer × Table
answers_of [] t = ([], t)
answers_of (c ∷ cs) t =
    let (answer, t') = answer_of c t in
    let (answers, t'') = answers_of cs t' in (answer ∷ answers, t'')
