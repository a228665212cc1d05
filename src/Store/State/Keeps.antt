-- ===== src/Store/State/Keeps.antt =====
-- Properties of the database that an action keeps, whether it returns or raises: a rule for each
-- way to build an action.
use leap_soledad.Prelude.{◌≡◌, refl, Bool, true, false, if◌then◌else◌}
use leap_soledad.Prelude.Result.{Error, Result, ok, err}
use leap_soledad.Store.State.{
  Db, Action, pure, raise, lift, gets, reads, modify, raise_if, then_do, ◌>>=◌,
}

pub record Keeps {A : Type 0} (P : Db → Type 0) (m : Action A) : Type 0 where
  pub from : (db : Db) → P db → P (m db).1

module _ {A : Type 0} {P : Db → Type 0} where
  pub pure-Keeps : (a : A) → Keeps P (pure a)
  unfolding pure
  pure-Keeps a = record { from = λ db h. h }

  pub raise-Keeps : (e : Error) → Keeps P (raise {A = A} e)
  unfolding raise
  raise-Keeps e = record { from = λ db h. h }

  pub lift-Keeps : (r : Result A) → Keeps P (lift r)
  unfolding lift
  lift-Keeps r = record { from = λ db h. h }

  pub gets-Keeps : (f : Db → A) → Keeps P (gets f)
  unfolding gets
  gets-Keeps f = record { from = λ db h. h }

  pub reads-Keeps : (f : Db → Result A) → Keeps P (reads f)
  unfolding reads
  reads-Keeps f = record { from = λ db h. h }

  pub if-Keeps : (b : Bool) (m n : Action A) → Keeps P m → Keeps P n → Keeps P (if b then m else n)
  if-Keeps true m n km kn = km
  if-Keeps false m n km kn = kn

module _ {P : Db → Type 0} where
  pub raise_if-Keeps : (b : Bool) (e : Error) → Keeps P (raise_if b e)
  unfolding raise_if
  raise_if-Keeps b e = record { from = λ db h. h }

  pub modify-Keeps : (f : Db → Db) → ((db : Db) → P db → P (f db)) → Keeps P (modify f)
  unfolding modify
  modify-Keeps f k = record { from = k }

module _ {A B : Type 0} {P : Db → Type 0} where
  then_do-Keeps :
      (r : Result A) (f : A → Action B) (db : Db)
      → P db
      → ((a : A) → Keeps P (f a))
      → P (then_do r f db).1
  then_do-Keeps (ok a) f db h k = (k a).from db h
  then_do-Keeps (err e) f db h k = h

  pub bind-Keeps :
      (m : Action A) (f : A → Action B) → Keeps P m → ((a : A) → Keeps P (f a)) → Keeps P (m >>= f)
  unfolding ◌>>=◌
  bind-Keeps m f km kf = record {
    from = λ db h. then_do-Keeps (m db).0 f (m db).1 (km.from db h) kf;
  }

-- The same at one state, where the rest of a method may use what has been read.
module _ {A B : Type 0} (P : Db → Type 0) where
  then_at :
      (r : Result A) (f : A → Action B) (db : Db)
      → P db
      → ((a : A) → r ≡ ok a → P (f a db).1)
      → P (then_do r f db).1
  then_at (ok a) f db h k = k a refl
  then_at (err e) f db h k = h

  pub reads_at :
      (f : Db → Result A) (g : A → Action B) (db : Db)
      → P db
      → ((a : A) → f db ≡ ok a → P (g a db).1)
      → P ((reads f >>= g) db).1
  unfolding ◌>>=◌
  reads_at f g db h k = then_at (f db) g db h k

  pub lift_at :
      (r : Result A) (g : A → Action B) (db : Db)
      → P db
      → ((a : A) → r ≡ ok a → P (g a db).1)
      → P ((lift r >>= g) db).1
  unfolding ◌>>=◌
  lift_at r g db h k = then_at r g db h k

  pub gets_at :
      (f : Db → A) (g : A → Action B) (db : Db) → P (g (f db) db).1 → P ((gets f >>= g) db).1
  unfolding ◌>>=◌
  gets_at f g db h = h

  pub bind_at :
      (m : Action A) (g : A → Action B) (db : Db)
      → P (m db).1
      → ((a : A) → (m db).0 ≡ ok a → P (g a (m db).1).1)
      → P ((m >>= g) db).1
  unfolding ◌>>=◌
  bind_at m g db h k = then_at (m db).0 g (m db).1 h k

-- What holds of a result and the state after it, if the call returns.
abbrev pub Returned : {A : Type 0} → (A → Db → Type 0) → Result A × Db → Type 0
Returned Q (ok a, db) = Q a db
Returned Q (err e, db) = Unit

pub Returned-then :
    {A B : Type 0} (Q : B → Db → Type 0) (r : Result A) (f : A → Action B) (db : Db)
    → ((a : A) → r ≡ ok a → Returned Q (f a db))
    → Returned Q (then_do r f db)
Returned-then Q (ok a) f db k = k a refl
Returned-then Q (err e) f db k = tt

-- The call raises, and the database is as it was.
pub record Refused {A : Type 0} (db : Db) (r : Result A × Db) : Type 0 where
  pub error : Error
  pub refused : r ≡ (err error, db)

pub Refused-then :
    {A B : Type 0} (r : Result A) (f : A → Action B) (db : Db)
    → ((a : A) → r ≡ ok a → Refused db (f a db))
    → Refused db (then_do r f db)
Refused-then (ok a) f db k = k a refl
Refused-then (err e) f db k = record { error = e; refused = refl }

pub ruleset keeps_rules = (
  pure-Keeps, raise-Keeps, lift-Keeps, gets-Keeps, reads-Keeps, if-Keeps, raise_if-Keeps,
  bind-Keeps,
)
