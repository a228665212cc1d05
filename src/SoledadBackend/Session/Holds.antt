-- ===== src/SoledadBackend/Session/Holds.antt =====
-- The backend with its cache and its batches, against the table.
use leap_soledad.Prelude.{
  ℕ, ◌≡◌, refl, ◌∙◌, ap, sym, Bool, true, false, Bool-cases, inl, inr, Option, none, some, Text,
  text, text_eq, arith, if◌then◌else◌,
}
use leap_soledad.Prelude.Dict.{Dict, get, get-put}
use leap_soledad.Prelude.Result.{Result, ok, err}
use leap_soledad.Prelude.Action.{Action, and_then}
use leap_soledad.SoledadBackend.Database.{
  Database, Cached, known, Soledad, dict_of, cache_of, put_cache, on_database,
}
use leap_soledad.SoledadBackend.Cache.{with_cache, opened}
use leap_soledad.SoledadBackend.Session.{Table, entered}

-- If the action returns, `Q` of what it returns and leaves.
abbrev pub Returns : {S A : Type 0} → (A → S → Type 0) → Result A × S → Type 0
Returns Q (ok a, s) = Q a s
Returns Q (err e, s) = Unit

pub Returns-bind :
    {S A B : Type 0} (P : A → S → Type 0) (Q : B → S → Type 0) (r : Result A × S)
    (f : A → Action S B)
    → Returns P r
    → ((a : A) (s : S) → P a s → Returns Q (f a s))
    → Returns Q (and_then r f)
Returns-bind P Q (ok a, s) f h k = k a s h
Returns-bind P Q (err e, s) f h k = tt

pub Returns-mono :
    {S A : Type 0} (P Q : A → S → Type 0) (r : Result A × S)
    → Returns P r
    → ((a : A) (s : S) → P a s → Q a s)
    → Returns Q r
Returns-mono P Q (ok a, s) h k = k a s h
Returns-mono P Q (err e, s) h k = tt

-- What is stored of other replicas in a database: it is what a read returns, and only a write
-- changes it, at its replica.
pub record Stores {S : Type 0} (D : Database S) (stored : S → Text → ℕ × Text) : Type 0 where
  pub reads :
      (uid : Text) (s : S)
      → Returns
          (λ info s'. (info ≡ stored s uid) × ((v : Text) → stored s' v ≡ stored s v))
          (D.read_replica_gen_and_trans_id uid s)
  pub writes :
      (uid : Text) (gen : ℕ) (trans_id : Text) (s : S)
      → Returns
          (λ u s'.
            (v : Text) → stored s' v ≡ (if text_eq uid v then (gen, trans_id) else stored s v))
          (D.write_replica_gen_and_trans_id uid gen trans_id s)
  pub read_uid_keeps :
      (s : S) → Returns (λ uid s'. (v : Text) → stored s' v ≡ stored s v) (D.read_replica_uid s)
  pub write_uid_keeps :
      (uid : Text) (s : S)
      → Returns (λ u s'. (v : Text) → stored s' v ≡ stored s v) (D.write_replica_uid uid s)
  pub info_keeps :
      (s : S)
      → Returns (λ info s'. (v : Text) → stored s' v ≡ stored s v) (D.read_generation_info s)
  pub start_keeps :
      (s : S) → Returns (λ u s'. (v : Text) → stored s' v ≡ stored s v) (D.start_batch s)
  pub end_keeps : (s : S) → Returns (λ u s'. (v : Text) → stored s' v ≡ stored s v) (D.end_batch s)

module _ {S : Type 0} (D : Database S) (stored : S → Text → ℕ × Text) where
  -- The backend holds what the table holds: the database has the table's entries, and a cached
  -- entry is the table's, but for the entry of the own uid.
  pub record Holds (t : Table) (x : Soledad S) : Type 0 where
    pub entries : (v : Text) → stored x.database v ≡ t.known_of v
    pub fresh :
        (v : Text) (value : Cached)
        → text_eq (text "replica_uid") v ≡ false
        → get v (cache_of x) ≡ some value
        → value ≡ known (t.known_of v)
    pub same_batching : x.batching ≡ t.batching
    pub same_support : x.batch_support ≡ t.supports
    pub same_pending :
        (kept : Option (Text × ℕ × Text)) → x.after_batch ≡ some kept → kept ≡ t.pending

  -- A call of the database.
  pub Returns-on_database :
      {A : Type 0} (P : A → S → Type 0) (m : Action S A) (x : Soledad S)
      → Returns P (m x.database)
      → Returns
          (λ a x'. P a x'.database × (x' ≡ record x { database = x'.database }))
          (on_database m x)
  Returns-on_database {A = A} P m x h = go (m x.database) h
    where
      go :
          (r : Result A × S)
          → Returns P r
          → Returns
              (λ a x'. P a x'.database × (x' ≡ record x { database = x'.database }))
              (let (q, s) = r in (q, record x { database = s }))
      go (ok a, s) h = (h, refl)
      go (err e, s) h = tt

  get-put_cache :
      (key v : Text) (value : Cached) (x : Soledad S) (c : Cached)
      → get v (cache_of (put_cache key value x)) ≡ some c
      → (if text_eq key v then some value else get v (cache_of x)) ≡ some c
  unfolding put_cache cache_of get
  get-put_cache key v value x c h = go x.cache refl
    where
      go :
          (d : Option (Dict Cached))
          → x.cache ≡ d
          → (if text_eq key v then some value else get v (cache_of x)) ≡ some c
      go none e = absurd (ground (arith, e, h))
      go (some d) e = ground (arith, e, h, get-put key v value d)

  -- What is put into the cache is fresh, where the table agrees and keeps its other entries.
  put_cache-fresh :
      (t t' : Table) (key : Text) (value : Cached) (x : Soledad S)
      → Holds t x
      → ((v : Text)
          → text_eq key v ≡ true
          → text_eq (text "replica_uid") v ≡ false
          → value ≡ known (t'.known_of v))
      → ((v : Text) → text_eq key v ≡ false → t.known_of v ≡ t'.known_of v)
      → (v : Text) (cached : Cached) → text_eq (text "replica_uid") v ≡ false
      → get v (cache_of (put_cache key value x)) ≡ some cached
      → cached ≡ known (t'.known_of v)
  put_cache-fresh t t' key value x holds new kept v cached other h =
      let e = get-put_cache key v value x cached h in
      elim (Bool-cases (text_eq key v)) [
        | inl b ↦ let same = new v b other in ground (arith, e, b, same)
        | inr b ↦ holds.fresh v cached other (ground (arith, e, b)) ∙ ap known (kept v b)
      ]

  pub Holds-database :
      (t : Table) (x : Soledad S) (s : S)
      → Holds t x
      → ((v : Text) → stored s v ≡ stored x.database v)
      → Holds t (record x { database = s })
  unfolding cache_of
  Holds-database t x s holds same = record {
    entries = λ v. same v ∙ holds.entries v;
    fresh = holds.fresh;
    same_batching = holds.same_batching;
    same_support = holds.same_support;
    same_pending = holds.same_pending;
  }

  -- A value is put into the cache that says nothing false of a replica.
  pub Holds-put_cache :
      (t : Table) (key : Text) (value : Cached) (x : Soledad S)
      → Holds t x
      → ((v : Text)
          → text_eq key v ≡ true
          → text_eq (text "replica_uid") v ≡ false
          → value ≡ known (t.known_of v))
      → Holds t (put_cache key value x)
  Holds-put_cache t key value x holds new = record {
    entries = unfold put_cache in holds.entries;
    fresh = put_cache-fresh t t key value x holds new (λ v b. refl);
    same_batching = unfold put_cache in holds.same_batching;
    same_support = unfold put_cache in holds.same_support;
    same_pending = unfold put_cache in holds.same_pending;
  }

  pub Holds-entered :
      (t : Table) (uid : Text) (info : ℕ × Text) (x : Soledad S) (s : S)
      → Holds t x
      → ((v : Text) → stored s v ≡ (if text_eq uid v then info else stored x.database v))
      → Holds
          (entered (uid, info.0, info.1) t)
          (record (put_cache uid (known info) x) { database = s })
  unfolding put_cache cache_of
  Holds-entered t uid info x s holds written = record {
    entries = λ v. ground (arith, written v, holds.entries v);
    fresh =
        put_cache-fresh t (entered (uid, info.0, info.1) t) uid (known info) x holds
          (λ v b other. ground (arith, b)) (λ v b. ground (arith, b));
    same_batching = holds.same_batching;
    same_support = holds.same_support;
    same_pending = holds.same_pending;
  }

  pub with_cache-Holds : (t : Table) (x : Soledad S) → Holds t x → Holds t (with_cache x)
  unfolding cache_of
  with_cache-Holds t x holds = record {
    entries = holds.entries;
    fresh = λ v value other e.
        holds.fresh v value other (ap (λ c. get v c) (sym (dict_of-opened x.cache)) ∙ e);
    same_batching = holds.same_batching;
    same_support = holds.same_support;
    same_pending = holds.same_pending;
  }
    where
      dict_of-opened : (c : Option (Dict Cached)) → dict_of (opened c) ≡ dict_of c
      dict_of-opened none = refl
      dict_of-opened (some d) = refl

  -- A batch begins, ends, or keeps a source for its end.
  pub Holds-batch :
      (t : Table) (x : Soledad S) (b : Bool) (callbacks : Option (Option (Text × ℕ × Text)))
      (p : Option (Text × ℕ × Text))
      → Holds t x
      → ((kept : Option (Text × ℕ × Text)) → callbacks ≡ some kept → kept ≡ p)
      → Holds
          (record t { batching = b; pending = p })
          (record x { batching = b; after_batch = callbacks })
  unfolding cache_of
  Holds-batch t x b callbacks p holds same = record {
    entries = holds.entries;
    fresh = holds.fresh;
    same_batching = refl;
    same_support = holds.same_support;
    same_pending = same;
  }

  -- The uid is remembered.
  pub Holds-named :
      (t : Table) (uid : Text) (x : Soledad S)
      → Holds t x
      → Holds t (record x { real_replica_uid = some uid })
  unfolding cache_of
  Holds-named t uid x holds = record {
    entries = holds.entries;
    fresh = holds.fresh;
    same_batching = holds.same_batching;
    same_support = holds.same_support;
    same_pending = holds.same_pending;
  }
