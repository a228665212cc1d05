-- ===== src/VectorClock.antt =====
-- `VectorClockRev` of src/leap/soledad/common/l2db/vectorclock.py: the revision of a document.
-- `_values` is a dict from replica uids to counters. A method that changes the object returns the
-- new clock. The text of a revision is read and printed in VectorClock/Rev.
pub mod Order
pub mod Decides
pub mod Merge
pub mod Rev
pub mod RoundTrip
pub mod Plain
use leap_soledad.Prelude.{
  ℕ, ◌+◌, Bool, true, false, Option, none, some, [], ◌∷◌, Text, ltb, if◌then◌else◌,
}
use leap_soledad.Prelude.Dict.{Dict, get, put, remove}

abbrev pub Clock : Type 0
Clock = Dict ℕ

-- `self._values.get(replica_uid, 0)`
abbrev pub counter_or_zero : Option ℕ → ℕ
counter_or_zero none = 0
counter_or_zero (some c) = c

-- The loop of `is_newer`, and the two tests behind it: `other` is what is left of
-- `other_expand`, and `newer` is `this_is_newer`.
unfoldable pub newer_loop : Clock → Clock → Bool → Bool
newer_loop [] [] newer = newer
newer_loop [] (e ∷ other) newer = false
newer_loop ((key, value) ∷ items) other newer = elim (get key other) [
  | none ↦ newer_loop items other true
  | some other_value ↦
      let rest =
        newer_loop items (remove key other) (if ltb other_value value then true else newer) in
      if ltb value other_value then false else rest
]

unfoldable pub is_newer : Clock → Clock → Bool
unfolding newer_loop
is_newer [] other = false
is_newer (e ∷ values) [] = true
is_newer (e ∷ values) (o ∷ other) = newer_loop (e ∷ values) (o ∷ other) false

unfoldable pub increment : Text → Clock → Clock
increment replica_uid values = put replica_uid (counter_or_zero (get replica_uid values) + 1) values

-- The body of the loop of `maximize`.
unfoldable pub raise_to : Text → ℕ → Clock → Clock
raise_to replica_uid counter values = elim (get replica_uid values) [
  | none ↦ put replica_uid counter values
  | some this_counter ↦ if ltb this_counter counter then put replica_uid counter values else values
]

unfoldable pub maximize : Clock → Clock → Clock
unfolding raise_to
maximize values [] = values
maximize values ((replica_uid, counter) ∷ other) =
    maximize (raise_to replica_uid counter values) other
