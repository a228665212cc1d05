-- ===== src/Client/Retry.antt =====
-- `with_retry` of src/leap/soledad/client/_db/blobs/sync.py.
pub mod Waits
use leap_soledad.Prelude.{ℕ, zero, suc, ◌+◌, min, Bool, true, false, List, [], ◌∷◌, if◌then◌else◌}
use leap_soledad.Prelude.Result.{
  Error, Result, ok, err, out_of_fuel, connect_error, connection_closed, retriable_transfer_error,
}
use leap_soledad.Prelude.Action.{Action}

-- MAX_WAIT
abbrev pub max_wait : ℕ
max_wait = 60

-- `retriable_errors`
abbrev pub is_retriable : Error → Bool
is_retriable connect_error = true
is_retriable connection_closed = true
is_retriable retriable_transfer_error = true
is_retriable _ = false

-- The time of the next wait.
abbrev pub next_wait : ℕ → ℕ
next_wait retry_wait = min (retry_wait + 10) max_wait

-- How the repeated calls have ended, and the waits between them.
abbrev pub Retried : Type 0 → Type 0
Retried S = Result (Unit {0}) × List ℕ × S

-- One more wait in front.
abbrev pub waited : {S : Type 0} → ℕ → Retried S → Retried S
waited retry_wait (r, waits, s) = (r, retry_wait ∷ waits, s)

-- The `except` clause, by whether the exception is one of those.
abbrev pub try_again : {S : Type 0} → Bool → Error → ℕ → (S → Retried S) → S → Retried S
try_again true e retry_wait again s = waited retry_wait (again s)
try_again false e retry_wait again s = (err e, [], s)

-- What follows a call, by its result; `again` is the loop with the next wait.
abbrev pub after_call : {S : Type 0} → ℕ → (S → Retried S) → Result (Unit {0}) × S → Retried S
after_call retry_wait again (ok u, s) = (ok tt, [], s)
after_call retry_wait again (err e, s) = try_again (is_retriable e) e retry_wait again s

-- The loop of `with_retry`, which has no bound of its own.
unfoldable pub retry_loop : {S : Type 0} → ℕ → ℕ → Action S (Unit {0}) → S → Retried S
retry_loop zero retry_wait func s = (err out_of_fuel, [], s)
retry_loop (suc fuel) retry_wait func s =
    after_call retry_wait (retry_loop fuel (next_wait retry_wait) func) (func s)

unfoldable pub with_retry : {S : Type 0} → ℕ → Action S (Unit {0}) → S → Retried S
unfolding retry_loop
with_retry fuel func s = retry_loop fuel 1 func s
