-- ===== src/SoledadBackend/Session/Sources.antt =====
-- The methods on what is known of replicas, against the table.
use leap_soledad.Prelude.{
  ℕ, ◌≡◌, refl, ◌∙◌, sym, ap, subst, false, text_eq, Option, none, some, Text, text, text_eq_iff,
  arith,
}
use leap_soledad.Prelude.Dict.{get}
use leap_soledad.Prelude.Action.{Action}
use leap_soledad.SoledadBackend.Database.{
  Database, Cached, own_uid, known, Soledad, cache_of, put_cache, on_database,
}
use leap_soledad.SoledadBackend.Cache.{
  get_replica_uid, fetch_replica_uid, set_replica_uid, get_replica_gen_and_trans_id,
  fetch_replica_gen_and_trans_id, set_replica_gen_and_trans_id, cached_uid, named_uid, cached_info,
}
use leap_soledad.SoledadBackend.Session.{Table, entered}
use leap_soledad.SoledadBackend.Session.Holds.{
  Returns, Returns-bind, Returns-mono, Stores, Holds, Returns-on_database, Holds-database,
  Holds-put_cache, Holds-entered, Holds-named,
}

module _ {S : Type 0} (D : Database S) (stored : S → Text → ℕ × Text) (laws : Stores D stored) where
  -- A call of the database that keeps what is stored of replicas.
  pub on_database-keeps :
      {A : Type 0} (t : Table) (m : Action S A) (x : Soledad S)
      → Holds D stored t x
      → Returns (λ a s'. (v : Text) → stored s' v ≡ stored x.database v) (m x.database)
      → Returns (λ a x'. Holds D stored t x') (on_database m x)
  on_database-keeps t m x holds kept =
      Returns-mono _ _ (on_database m x) (Returns-on_database D stored _ m x kept) λ a x' h.
        subst (Holds D stored t) (sym h.1) (Holds-database D stored t x x'.database holds h.0)

  set_replica_uid-Holds :
      (t : Table) (uid : Text) (x : Soledad S)
      → Holds D stored t x
      → Returns (λ u x'. Holds D stored t x') (set_replica_uid D uid x)
  unfolding set_replica_uid cache_of
  set_replica_uid-Holds t uid x holds =
      Returns-bind _ _ (on_database (D.write_replica_uid uid) x) _
        (on_database-keeps t (D.write_replica_uid uid) x holds
          (laws.write_uid_keeps uid x.database))
        λ u x' h.
          Holds-put_cache D stored t (text "replica_uid") (own_uid uid) _
            (Holds-named D stored t uid x' h) (λ v b other. absurd cc)

  pub get_replica_uid-Holds :
      (t : Table) (x : Soledad S)
      → Holds D stored t x
      → Returns (λ u x'. Holds D stored t x') (get_replica_uid D x)
  unfolding get_replica_uid fetch_replica_uid
  get_replica_uid-Holds t x holds = go x.real_replica_uid
    where
      fetched : Returns (λ u x'. Holds D stored t x') (fetch_replica_uid D x)
      fetched =
          Returns-bind _ _ (on_database D.read_replica_uid x) _
            (on_database-keeps t D.read_replica_uid x holds (laws.read_uid_keeps x.database))
            λ uid x' h.
              Returns-bind _ _ (set_replica_uid D uid (record x' { real_replica_uid = some uid })) _
                (set_replica_uid-Holds t uid _ (Holds-named D stored t uid x' h)) λ u x'' h'. h'

      cached : (c : Option Cached) → Returns (λ u x'. Holds D stored t x') (cached_uid D c x)
      cached none = fetched
      cached (some value) = holds

      go : (own : Option Text) → Returns (λ u x'. Holds D stored t x') (named_uid D own x)
      go (some uid) =
          (Holds-put_cache D stored t (text "replica_uid") (own_uid uid) x holds
            (λ v b other. absurd cc))
      go none = (cached (get (text "replica_uid") (cache_of x)))

  pub get_replica_gen_and_trans_id-Holds :
      (t : Table) (uid : Text) (x : Soledad S)
      → text_eq (text "replica_uid") uid ≡ false
      → Holds D stored t x
      → Returns
          (λ value x'. (value ≡ known (t.known_of uid)) × Holds D stored t x')
          (get_replica_gen_and_trans_id D uid x)
  unfolding get_replica_gen_and_trans_id fetch_replica_gen_and_trans_id
  get_replica_gen_and_trans_id-Holds t uid x other holds = go (get uid (cache_of x)) refl
    where
      fetched :
          Returns
            (λ value x'. (value ≡ known (t.known_of uid)) × Holds D stored t x')
            (fetch_replica_gen_and_trans_id D uid x)
      fetched =
          Returns-bind _ _ (on_database (D.read_replica_gen_and_trans_id uid) x) _
            (Returns-on_database D stored _ (D.read_replica_gen_and_trans_id uid) x
              (laws.reads uid x.database))
            λ info x' h.
              let known_info : info ≡ t.known_of uid = h.0.0 ∙ holds.entries uid in
              let holds' =
                subst (Holds D stored t) (sym h.1)
                  (Holds-database D stored t x x'.database holds h.0.1) in
              (
                ap known known_info,
                Holds-put_cache D stored t uid (known info) x' holds'
                    (λ v b _. ground (arith, text_eq_iff uid v, b, known_info)),
              )

      go :
          (c : Option Cached)
          → get uid (cache_of x) ≡ c
          → Returns
              (λ value x'. (value ≡ known (t.known_of uid)) × Holds D stored t x')
              (cached_info D uid c x)
      go none e = fetched
      go (some value) e = (holds.fresh uid value other e, holds)

  pub set_replica_gen_and_trans_id-Holds :
      (t : Table) (uid : Text) (gen : ℕ) (trans_id : Text) (x : Soledad S)
      → Holds D stored t x
      → Returns
          (λ u x'. Holds D stored (entered (uid, gen, trans_id) t) x')
          (set_replica_gen_and_trans_id D uid gen trans_id x)
  unfolding set_replica_gen_and_trans_id put_cache
  set_replica_gen_and_trans_id-Holds t uid gen trans_id x holds =
      Returns-mono _ _ (set_replica_gen_and_trans_id D uid gen trans_id x)
        (Returns-on_database D stored _ (D.write_replica_gen_and_trans_id uid gen trans_id)
          (put_cache uid (known (gen, trans_id)) x) (laws.writes uid gen trans_id x.database))
        λ u x' h.
          subst (Holds D stored (entered (uid, gen, trans_id) t)) (sym h.1)
            (Holds-entered D stored t uid (gen, trans_id) x x'.database holds h.0)
