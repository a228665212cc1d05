-- ===== src/SoledadBackend/Session/Refines.antt =====
-- Each call of the backend does what the table does.
use leap_soledad.Prelude.{
  ℕ, ◌≡◌, refl, ap, subst, Bool, true, false, Option, none, some, List, All, [], ◌∷◌, Text,
  if◌then◌else◌,
}
use leap_soledad.Prelude.Result.{ok, or_raise, type_error}
use leap_soledad.Prelude.Action.{Action, pure, modify, and_then, ◌>>◌}
use leap_soledad.SoledadBackend.Database.{Database, Soledad, cache_of, on_database}
use leap_soledad.SoledadBackend.Cache.{
  get_replica_uid, get_replica_gen_and_trans_id, set_replica_gen_and_trans_id,
  do_set_replica_gen_and_trans_id, batch_start, batch_end, keep_source, begin_batch, finish_batch,
  with_cache, run_after_batch,
}
use leap_soledad.SoledadBackend.Session.{
  Call, identify, ask, record_source, start_batch, stop_batch, Answer, IsOther, call, calls, Table,
  answer_of, answers_of, entered, settle,
}
use leap_soledad.SoledadBackend.Session.Holds.{
  Returns, Returns-bind, Stores, Holds, Holds-batch, with_cache-Holds,
}
use leap_soledad.SoledadBackend.Session.Sources.{
  on_database-keeps, get_replica_uid-Holds, get_replica_gen_and_trans_id-Holds,
  set_replica_gen_and_trans_id-Holds,
}

module _ {S : Type 0} (D : Database S) (stored : S → Text → ℕ × Text) (laws : Stores D stored) where
  Returns-if :
      (b b' : Bool) (t t' : Table) (m : Action (Soledad S) (Unit {0})) (x : Soledad S)
      → b ≡ b'
      → Returns (λ u x'. Holds D stored t x') (m x)
      → Holds D stored t' x
      → Returns (λ u x'. Holds D stored (if b' then t else t') x') (if b then m x else (ok tt, x))
  Returns-if true true t t' m x e h h' = h
  Returns-if false false t t' m x e h h' = h'
  Returns-if true false t t' m x e h h' = absurd cc
  Returns-if false true t t' m x e h h' = absurd cc

  begin_batch-Holds :
      (t : Table) (x : Soledad S)
      → Holds D stored t x
      → Returns
          (λ u x'. Holds D stored (record t { batching = true; pending = none }) x')
          (begin_batch D x)
  unfolding begin_batch cache_of
  begin_batch-Holds t x holds =
      let t' : Table = record t { batching = true; pending = none } in
      let x' : Soledad S = record x { batching = true; after_batch = some none } in
      let begun : Holds D stored t' x' =
        Holds-batch D stored t x true (some none) none holds (λ kept e. cc) in
      Returns-bind _ _ (on_database D.start_batch x') _
        (on_database-keeps D stored laws t' D.start_batch x' begun (laws.start_keeps x.database))
        λ u y h.
          Returns-bind _ _ (on_database D.read_generation_info (with_cache y)) _
            (on_database-keeps D stored laws t' D.read_generation_info (with_cache y)
              (with_cache-Holds D stored t' y h) (laws.info_keeps (with_cache y).database))
            λ info z h'. h'

  batch_start-Holds :
      (t : Table) (x : Soledad S)
      → Holds D stored t x
      → Returns (λ u x'. Holds D stored (answer_of start_batch t).1 x') (batch_start D x)
  unfolding batch_start
  batch_start-Holds t x holds =
      Returns-if x.batch_support t.supports _ t (begin_batch D) x holds.same_support
        (begin_batch-Holds t x holds) holds

  run_after_batch-Holds :
      (t : Table) (source : Option (Text × ℕ × Text)) (x : Soledad S)
      → Holds D stored t x
      → Returns (λ u x'. Holds D stored (settle source t) x') (run_after_batch D source x)
  unfolding run_after_batch
  run_after_batch-Holds t none x holds = holds
  run_after_batch-Holds t (some (uid, gen, trans_id)) x holds =
      set_replica_gen_and_trans_id-Holds D stored laws t uid gen trans_id x holds

  Holds-settled :
      (t : Table) (kept : Option (Text × ℕ × Text)) (x : Soledad S)
      → kept ≡ t.pending
      → Holds D stored (settle kept (record t { batching = false })) x
      → Holds D stored
          (record (settle t.pending t) { batching = false; pending = none })
          (record x { after_batch = none })
  unfolding cache_of
  Holds-settled t kept x e h =
      subst
        (λ p.
          Holds D stored (record (settle p t) { batching = false; pending = none })
            (record x { after_batch = none }))
        e (go kept h)
    where
      go :
          (p : Option (Text × ℕ × Text))
          → Holds D stored (settle p (record t { batching = false })) x
          → Holds D stored
              (record (settle p t) { batching = false; pending = none })
              (record x { after_batch = none })
      go none h = record {
        entries = h.entries;
        fresh = h.fresh;
        same_batching = h.same_batching;
        same_support = h.same_support;
        same_pending = λ k e. absurd cc;
      }
      go (some source) h = record {
        entries = h.entries;
        fresh = h.fresh;
        same_batching = h.same_batching;
        same_support = h.same_support;
        same_pending = λ k e. absurd cc;
      }

  finish_batch-Holds :
      (t : Table) (x : Soledad S)
      → Holds D stored t x
      → Returns
          (λ u x'.
            Holds D stored (record (settle t.pending t) { batching = false; pending = none }) x')
          (finish_batch D x)
  unfolding finish_batch cache_of
  finish_batch-Holds t x holds =
      Returns-bind _ _ (on_database D.end_batch x) _
        (on_database-keeps D stored laws t D.end_batch x holds (laws.end_keeps x.database))
        λ u y h. go y.after_batch y h refl
    where
      go :
          (callbacks : Option (Option (Text × ℕ × Text))) (y : Soledad S)
          → Holds D stored t y
          → y.after_batch ≡ callbacks
          → Returns
              (λ u x'.
                Holds D stored
                  (record (settle t.pending t) { batching = false; pending = none })
                  x')
              (and_then
                (or_raise callbacks type_error, record y { batching = false })
                (λ callback.
                  run_after_batch D callback >> modify (λ x. record x { after_batch = none })))
      go none y h e = tt
      go (some kept) y h e =
          let t' : Table = record t { batching = false } in
          let h' : Holds D stored t' (record y { batching = false }) = (record {
            entries = h.entries;
            fresh = h.fresh;
            same_batching = refl;
            same_support = h.same_support;
            same_pending = h.same_pending;
          }) in
          Returns-bind _ _ (run_after_batch D kept (record y { batching = false })) _
            (run_after_batch-Holds t' kept (record y { batching = false }) h')
            λ u z k. Holds-settled t kept z (h.same_pending kept e) k

  batch_end-Holds :
      (t : Table) (x : Soledad S)
      → Holds D stored t x
      → Returns (λ u x'. Holds D stored (answer_of stop_batch t).1 x') (batch_end D x)
  unfolding batch_end
  batch_end-Holds t x holds =
      Returns-if x.batch_support t.supports _ t (finish_batch D) x holds.same_support
        (finish_batch-Holds t x holds) holds

  keep_source-Holds :
      (t : Table) (source : Text × ℕ × Text) (x : Soledad S)
      (callbacks : Option (Option (Text × ℕ × Text)))
      → Holds D stored t x
      → Returns
          (λ u x'. Holds D stored (record t { pending = some source }) x')
          (keep_source D source callbacks x)
  unfolding cache_of
  keep_source-Holds t source x none holds = tt
  keep_source-Holds t source x (some kept) holds = record {
    entries = holds.entries;
    fresh = holds.fresh;
    same_batching = holds.same_batching;
    same_support = holds.same_support;
    same_pending = λ k e. cc;
  }

  do_set_replica_gen_and_trans_id-Holds :
      (t : Table) (uid : Text) (gen : ℕ) (trans_id : Text) (x : Soledad S)
      → Holds D stored t x
      → Returns
          (λ u x'. Holds D stored (answer_of (record_source uid gen trans_id) t).1 x')
          (do_set_replica_gen_and_trans_id D uid gen trans_id x)
  unfolding do_set_replica_gen_and_trans_id
  do_set_replica_gen_and_trans_id-Holds t uid gen trans_id x holds =
      go x.batching t.batching holds.same_batching
    where
      go :
          (b b' : Bool)
          → b ≡ b'
          → Returns
              (λ u x'.
                Holds D stored
                  (if b'
                    then record t { pending = some (uid, gen, trans_id) }
                    else entered (uid, gen, trans_id) t)
                  x')
              (if b
                then keep_source D (uid, gen, trans_id) x.after_batch x
                else set_replica_gen_and_trans_id D uid gen trans_id x)
      go true true e = keep_source-Holds t (uid, gen, trans_id) x x.after_batch holds
      go false false e = set_replica_gen_and_trans_id-Holds D stored laws t uid gen trans_id x holds
      go true false e = absurd cc
      go false true e = absurd cc

  abbrev nothing : Answer
  nothing = none

  -- Nothing but the answer of a call and its state is told by `pure`.
  answered :
      {A : Type 0} (t : Table) (m : Action (Soledad S) A) (x : Soledad S)
      → Returns (λ a x'. Holds D stored t x') (m x)
      → Returns (λ answer x'. (answer ≡ none) × Holds D stored t x') ((m >> pure nothing) x)
  answered t m x h = Returns-bind _ _ (m x) _ h λ a x' holds. (refl, holds)

  call-Holds :
      (c : Call) (t : Table) (x : Soledad S)
      → IsOther c
      → Holds D stored t x
      → Returns
          (λ answer x'. (answer ≡ (answer_of c t).0) × Holds D stored (answer_of c t).1 x')
          (call D c x)
  unfolding call
  call-Holds identify t x o holds =
      answered t (get_replica_uid D) x (get_replica_uid-Holds D stored laws t x holds)
  call-Holds (ask uid) t x o holds =
      Returns-bind _ _ (get_replica_gen_and_trans_id D uid x) _
        (get_replica_gen_and_trans_id-Holds D stored laws t uid x o holds)
        λ info x' h. (ap some h.0, h.1)
  call-Holds (record_source uid gen trans_id) t x o holds =
      answered _ (do_set_replica_gen_and_trans_id D uid gen trans_id) x
        (do_set_replica_gen_and_trans_id-Holds t uid gen trans_id x holds)
  call-Holds start_batch t x o holds = answered _ (batch_start D) x (batch_start-Holds t x holds)
  call-Holds stop_batch t x o holds = answered _ (batch_end D) x (batch_end-Holds t x holds)

  -- A backend that holds what a table holds gives the answers of the table, with its cache and its
  -- batches, to any calls that return, and then holds what the table has come to: what a batch was
  -- told last is entered at its end. No call asks about a replica whose uid is `replica_uid`, the
  -- key that the cache has for the own uid. The database keeps what is stored of replicas but for
  -- its writes.
  pub calls-Holds :
      (cs : List Call) (t : Table) (x : Soledad S)
      → All IsOther cs
      → Holds D stored t x
      → Returns
          (λ answers x'. (answers ≡ (answers_of cs t).0) × Holds D stored (answers_of cs t).1 x')
          (calls D cs x)
  unfolding calls
  calls-Holds [] t x o holds = (refl, holds)
  calls-Holds (c ∷ cs) t x o holds =
      Returns-bind _ _ (call D c x) _ (call-Holds c t x o.0 holds) λ answer x' h.
        Returns-bind _ _ (calls D cs x') _ (calls-Holds cs (answer_of c t).1 x' o.1 h.1)
          λ answers x'' h'. (cc (h.0, h'.0), h'.1)
