-- ===== src/Store/State.antt =====
-- The fields of the database, and the methods that change it as actions. What a method has
-- written before it raises stays written.
pub mod Keeps
use leap_soledad.Prelude.{ℕ, Bool, true, false, ◌≡◌, refl, Option, none, some, List, [], Text}
use leap_soledad.Prelude.Dict.{Dict}
use leap_soledad.Prelude.Result
use leap_soledad.Prelude.Result.{Error, Result, ok, err}
use leap_soledad.Index.{Index}

-- A revision with the JSON of its content: an entry of `_docs`, and of the lists in `_conflicts`.
-- A content of None is a tombstone.
abbrev pub Version : Type 0
Version = Option Text × Option Text

pub record Db : Type 0 where
  pub transaction_log : List (Text × Text)
  pub docs : Dict Version
  pub conflicts : Dict (List Version)
  pub other_generations : Dict (ℕ × Text)
  pub indexes : Dict Index
  pub replica_uid : Text
  pub document_size_limit : ℕ

-- `InMemoryDatabase(replica_uid)`
abbrev pub new_db : Text → Db
new_db replica_uid = record {
  transaction_log = [];
  docs = [];
  conflicts = [];
  other_generations = [];
  indexes = [];
  replica_uid = replica_uid;
  document_size_limit = 0;
}

abbrev pub Action : Type 0 → Type 0
Action A = Db → Result A × Db

module _ {A : Type 0} where
  pub pure : A → Action A
  pure a db = (ok a, db)

  pub raise : Error → Action A
  raise e db = (err e, db)

  pub lift : Result A → Action A
  lift r db = (r, db)

  pub gets : (Db → A) → Action A
  gets f db = (ok (f db), db)

  -- A method that only reads the database, and may raise.
  pub reads : (Db → Result A) → Action A
  reads f db = (f db, db)

pub modify : (Db → Db) → Action (Unit {0})
modify f db = (ok tt, f db)

-- `raise e` if the test holds
pub raise_if : Bool → Error → Action (Unit {0})
raise_if b e db = (Result.raise_if b e, db)

abbrev pub then_do : {A B : Type 0} → Result A → (A → Action B) → Action B
then_do (ok a) f db = f a db
then_do (err e) f db = (err e, db)

infixl 10 ◌>>=◌ ◌>>◌
-- To unfold this is to unfold the actions above.
unfoldable pub ◌>>=◌ : {A B : Type 0} → Action A → (A → Action B) → Action B
unfolding pure raise lift gets reads modify raise_if
◌>>=◌ m f db = let (r, db') = m db in then_do r f db'

abbrev pub ◌>>◌ : {A B : Type 0} → Action A → Action B → Action B
m >> k = m >>= λ _. k
