-- ===== src/Client/Retry/Waits.antt =====
-- How long `with_retry` waits.
use leap_soledad.Prelude.{ℕ, zero, suc, ◌+◌, ◌*◌, min, List, [], ◌∷◌}
use leap_soledad.Prelude.Result.{Result}
use leap_soledad.Prelude.Action.{Action}

-- The first `n` waits from the `k`-th on: ten seconds more each time, and a minute at most.
abbrev pub waits_from : ℕ → ℕ → List ℕ
waits_from k zero = []
waits_from k (suc n) = min (1 + 10 * k) 60 ∷ waits_from (k + 1) n
