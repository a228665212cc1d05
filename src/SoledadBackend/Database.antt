-- ===== src/SoledadBackend/Database.antt =====
-- The database under a `SoledadBackend`, as an interface: the methods that the backend calls; and
-- the state of the backend.
use leap_soledad.Prelude.{ℕ, Bool, false, Option, none, some, List, [], Text}
use leap_soledad.Prelude.Dict.{Dict, put}
use leap_soledad.Prelude.Action.{Action}
use leap_soledad.Store.Changes.{Change}
use leap_soledad.SoledadBackend.ServerDocument.{ServerDocument}

-- `CouchDatabase` in the program: a method may change what is stored, also one that reads, since a
-- batch may be written first.
pub record Database (S : Type 0) : Type 0 where
  pub read_generation_info : Action S (ℕ × Text)
  pub read_trans_id_for_gen : ℕ → Action S Text
  pub read_doc : Text → Bool → Action S (Option ServerDocument)
  pub save_document : Option ServerDocument → ServerDocument → Text → Action S (Unit {0})
  pub read_whats_changed : ℕ → Action S (ℕ × Text × List Change)
  pub read_replica_uid : Action S Text
  pub write_replica_uid : Text → Action S (Unit {0})
  pub read_replica_gen_and_trans_id : Text → Action S (ℕ × Text)
  pub write_replica_gen_and_trans_id : Text → ℕ → Text → Action S (Unit {0})
  pub delete_database : Action S (Unit {0})
  pub close : Action S (Unit {0})
  pub start_batch : Action S (Unit {0})
  pub end_batch : Action S (Unit {0})

-- A value of the cache: the replica's own uid, or what is known of another replica.
pub data Cached : Type 0 where
  own_uid : Text → Cached
  known : ℕ × Text → Cached

-- The fields of the backend. `after_batch` is the dict of callbacks, where there is one: it holds
-- the arguments of the callback under the key `set_source_info`, the only one that is used.
pub record Soledad (S : Type 0) : Type 0 where
  pub database : S
  pub real_replica_uid : Option Text
  pub cache : Option (Dict Cached)
  pub batching : Bool
  pub batch_support : Bool
  pub after_batch : Option (Option (Text × ℕ × Text))
  pub document_size_limit : ℕ

-- `SoledadBackend(database)`
abbrev pub new_backend : {S : Type 0} → Bool → S → Soledad S
new_backend batch_support database = record {
  database = database;
  real_replica_uid = none;
  cache = none;
  batching = false;
  batch_support = batch_support;
  after_batch = none;
  document_size_limit = 0;
}

-- A call of a method of the database.
abbrev pub on_database : {S A : Type 0} → Action S A → Action (Soledad S) A
on_database m x = let (r, s) = m x.database in (r, record x { database = s })

-- The property `cache`: an empty dict where there is no cache, in which nothing is kept.
abbrev pub dict_of : Option (Dict Cached) → Dict Cached
dict_of none = []
dict_of (some cache) = cache

unfoldable pub cache_of : {S : Type 0} → Soledad S → Dict Cached
cache_of x = dict_of x.cache

-- `self.cache[key] = value`
unfoldable pub put_cache : {S : Type 0} → Text → Cached → Soledad S → Soledad S
put_cache key value x = record x {
  cache = elim x.cache [ none ↦ none | some cache ↦ some (put key value cache) ];
}
