-- ===== src/VectorClock/Rev.antt =====
-- The text of a revision, `uid:counter|uid:counter|…`: `_expand` reads it and `as_str` prints it.
use leap_soledad.Prelude.{ℕ, ◌≡◌, Option, none, some, List, [], ◌∷◌, map, Text, arith}
use leap_soledad.Prelude.Dict.{put, put-IsDict, IsDict}
use leap_soledad.Prelude.Sorting.{sorted}
use leap_soledad.Prelude.Split.{split, join}
use leap_soledad.Prelude.Decimal.{show, read}
use leap_soledad.Prelude.Result.{Result, ok, err, value_error, ◌>>=◌, ok_of_bind}
use leap_soledad.VectorClock.{Clock}

-- `replica_uid, counter = replica_info.split(':')`
unfoldable pub replica_info : List Text → Result (Text × ℕ)
replica_info (replica_uid ∷ counter ∷ []) = do n ← read counter; ok (replica_uid, n)
replica_info _ = err value_error

-- The loop of `_expand`.
unfoldable pub expand_loop : Clock → List Text → Result Clock
unfolding replica_info
expand_loop result [] = ok result
expand_loop result (part ∷ parts) = do
  info ← replica_info (split b':' part)
  expand_loop (put info.0 info.1 result) parts

unfoldable pub expand : Option Text → Result Clock
unfolding expand_loop
expand none = ok []
expand (some value) = expand_loop [] (split b'|' value)

-- `'%s:%d' % (m, r)`
abbrev pub show_info : Text × ℕ → Text
show_info (m, r) = join b':' (m ∷ show r ∷ [])

-- The entries in the order of `sorted(self._values.items())`.
unfoldable pub as_str : Clock → Text
unfolding sorted
as_str values = join b'|' (map show_info (sorted values))

-- Every revision that is read is a dict.
expand_loop-IsDict :
    (a : Clock) (parts : List Text) {b : Clock} → IsDict a → expand_loop a parts ≡ ok b → IsDict b
unfolding expand_loop
expand_loop-IsDict a [] h e = ground arith
expand_loop-IsDict a (part ∷ parts) h e =
    let (info, _, rest) =
      ok_of_bind (replica_info (split b':' part))
        (λ (info : Text × ℕ). expand_loop (put info.0 info.1 a) parts) e in
    expand_loop-IsDict (put info.0 info.1 a) parts (put-IsDict info.0 info.1 a h) rest

pub expand-IsDict : (value : Option Text) {a : Clock} → expand value ≡ ok a → IsDict a
unfolding expand
expand-IsDict none e = ground arith
expand-IsDict (some value) e = expand_loop-IsDict [] (split b'|' value) tt e
