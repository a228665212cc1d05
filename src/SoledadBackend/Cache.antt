-- ===== src/SoledadBackend/Cache.antt =====
-- What a `SoledadBackend` keeps in its cache: its own uid, and what it knows of other replicas; and
-- the batches, during which a source is recorded only at the end.
use leap_soledad.Prelude.{
  ℕ, true, false, Option, none, some, [], Text, text, ltb, text_eq, if◌then◌else◌,
}
use leap_soledad.Prelude.Dict.{Dict, get}
use leap_soledad.Prelude.Result.{
  Result, ok, err, or_raise, type_error, value_error, invalid_generation, invalid_transaction_id,
}
use leap_soledad.Prelude.Action.{Action, pure, raise, lift, gets, modify, ◌>>=◌, ◌>>◌}
use leap_soledad.SoledadBackend.Database.{
  Database, Cached, own_uid, known, Soledad, on_database, cache_of, put_cache,
}

-- `if not self._cache: self._cache = {}`
abbrev pub opened : Option (Dict Cached) → Option (Dict Cached)
opened none = some []
opened (some cache) = some cache

abbrev pub with_cache : {S : Type 0} → Soledad S → Soledad S
with_cache x = record x { cache = opened x.cache }

-- `init_caching(cache)`
unfoldable pub init_caching : {S : Type 0} → Dict Cached → Soledad S → Soledad S
init_caching cache x = record x { cache = some cache }

-- A cached value where the source unpacks it as a pair. A uid is none: to unpack it raises
-- ValueError, but for a uid of two characters, which the program does not make.
abbrev pub pair_of : Cached → Result (ℕ × Text)
pair_of (known info) = ok info
pair_of (own_uid uid) = err value_error

-- A cached value where the source takes it for a uid. The model stops at a pair, with which the
-- source would go on as a key of the clock.
abbrev pub text_of : Cached → Result Text
text_of (own_uid uid) = ok uid
text_of (known info) = err type_error

module _ {S : Type 0} (D : Database S) where
  unfoldable pub set_replica_uid : Text → Action (Soledad S) (Unit {0})
  unfolding put_cache
  set_replica_uid replica_uid = do
    on_database (D.write_replica_uid replica_uid)
    modify (λ x. record x { real_replica_uid = some replica_uid })
    modify (put_cache (text "replica_uid") (own_uid replica_uid))

  -- The end of `_get_replica_uid`, where nothing is cached.
  unfoldable pub fetch_replica_uid : Action (Soledad S) Cached
  unfolding set_replica_uid
  fetch_replica_uid = do
    replica_uid ← on_database D.read_replica_uid
    modify (λ x. record x { real_replica_uid = some replica_uid })
    set_replica_uid replica_uid
    pure (own_uid replica_uid)

  -- What the cache has under `replica_uid` is returned, whatever it is.
  abbrev pub cached_uid : Option Cached → Action (Soledad S) Cached
  cached_uid (some value) = pure value
  cached_uid none = fetch_replica_uid

  abbrev pub named_uid : Option Text → Action (Soledad S) Cached
  named_uid (some replica_uid) x =
      (ok (own_uid replica_uid), put_cache (text "replica_uid") (own_uid replica_uid) x)
  named_uid none x = cached_uid (get (text "replica_uid") (cache_of x)) x

  -- `_get_replica_uid`
  unfoldable pub get_replica_uid : Action (Soledad S) Cached
  unfolding fetch_replica_uid cache_of put_cache
  get_replica_uid x = named_uid x.real_replica_uid x

  -- `self._replica_uid` where a method takes it for a text
  unfoldable pub own_name : Action (Soledad S) Text
  unfolding get_replica_uid
  own_name = do value ← get_replica_uid; lift (text_of value)

  -- The end of `_get_replica_gen_and_trans_id`, where nothing is cached.
  unfoldable pub fetch_replica_gen_and_trans_id : Text → Action (Soledad S) Cached
  unfolding put_cache
  fetch_replica_gen_and_trans_id other_replica_uid = do
    info ← on_database (D.read_replica_gen_and_trans_id other_replica_uid)
    modify (put_cache other_replica_uid (known info))
    pure (known info)

  -- What the cache has under the uid of a replica is returned, whatever it is.
  abbrev pub cached_info : Text → Option Cached → Action (Soledad S) Cached
  cached_info other_replica_uid (some value) = pure value
  cached_info other_replica_uid none = fetch_replica_gen_and_trans_id other_replica_uid

  -- `_get_replica_gen_and_trans_id`
  unfoldable pub get_replica_gen_and_trans_id : Text → Action (Soledad S) Cached
  unfolding fetch_replica_gen_and_trans_id cache_of
  get_replica_gen_and_trans_id other_replica_uid x =
      cached_info other_replica_uid (get other_replica_uid (cache_of x)) x

  -- `_set_replica_gen_and_trans_id`, where the uid and the generation are there
  unfoldable pub set_replica_gen_and_trans_id : Text → ℕ → Text → Action (Soledad S) (Unit {0})
  unfolding put_cache
  set_replica_gen_and_trans_id other_replica_uid other_generation other_transaction_id = do
    modify (put_cache other_replica_uid (known (other_generation, other_transaction_id)))
    on_database
        (D.write_replica_gen_and_trans_id other_replica_uid other_generation other_transaction_id)

  -- `self.after_batch_callbacks['set_source_info'] = callback`
  abbrev pub keep_source :
      Text × ℕ × Text → Option (Option (Text × ℕ × Text)) → Action (Soledad S) (Unit {0})
  keep_source source none x = (err type_error, x)
  keep_source source (some kept) x = (ok tt, record x { after_batch = some (some source) })

  -- `_do_set_replica_gen_and_trans_id`: during a batch the call is kept for its end, in place of
  -- one that was kept before.
  unfoldable pub do_set_replica_gen_and_trans_id : Text → ℕ → Text → Action (Soledad S) (Unit {0})
  unfolding set_replica_gen_and_trans_id
  do_set_replica_gen_and_trans_id other_replica_uid other_generation other_transaction_id x =
      if x.batching
      then keep_source (other_replica_uid, other_generation, other_transaction_id) x.after_batch x
      else set_replica_gen_and_trans_id other_replica_uid other_generation other_transaction_id x

  -- `_validate_source`
  unfoldable pub validate_source : Text → ℕ → Text → Action (Soledad S) (Unit {0})
  unfolding get_replica_gen_and_trans_id
  validate_source other_replica_uid other_generation other_transaction_id = do
    value ← get_replica_gen_and_trans_id other_replica_uid
    (old_generation, old_transaction_id) ← lift (pair_of value)
    if ltb other_generation old_generation
        then raise invalid_generation
        else if ltb old_generation other_generation
        then pure tt
        else if text_eq other_transaction_id old_transaction_id
        then pure tt
        else raise invalid_transaction_id

  -- `batch_start`, where the database supports batches
  unfoldable pub begin_batch : Action (Soledad S) (Unit {0})
  begin_batch = do
    modify (λ x. record x { batching = true; after_batch = some none })
    on_database D.start_batch
    modify with_cache
    info ← on_database D.read_generation_info
    pure tt

  unfoldable pub batch_start : Action (Soledad S) (Unit {0})
  unfolding begin_batch
  batch_start x = if x.batch_support then begin_batch x else (ok tt, x)

  -- The callback that a batch has kept.
  unfoldable pub run_after_batch : Option (Text × ℕ × Text) → Action (Soledad S) (Unit {0})
  unfolding set_replica_gen_and_trans_id
  run_after_batch none = pure tt
  run_after_batch (some (uid, gen, trans_id)) = set_replica_gen_and_trans_id uid gen trans_id

  -- `batch_end`, where the database supports batches
  unfoldable pub finish_batch : Action (Soledad S) (Unit {0})
  unfolding run_after_batch
  finish_batch = do
    on_database D.end_batch
    modify (λ x. record x { batching = false })
    callbacks ← gets (λ x. x.after_batch)
    callback ← lift (or_raise callbacks type_error)
    run_after_batch callback
    modify (λ x. record x { after_batch = none })

  unfoldable pub batch_end : Action (Soledad S) (Unit {0})
  unfolding finish_batch
  batch_end x = if x.batch_support then finish_batch x else (ok tt, x)
