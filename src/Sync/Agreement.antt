-- ===== src/Sync/Agreement.antt =====
-- What a sync leaves behind at the two databases.
use leap_soledad.Prelude.{
  ℕ, zero, suc, ◌+◌, ◌≤◌, ◌<◌, ◌≡◌, refl, ◌∙◌, sym, ap, Option, none, some, List, [], ◌∷◌, Text,
  text_eq, text_eq_iff, text_eq_refl, ◌==◌, arith, length, length-drop, length-append, drop,
  get_last?, Bool-cases, inl, inr,
}
use leap_soledad.Prelude.Dict.{get-put}
use leap_soledad.Prelude.Result.{Result, ok, err}
use leap_soledad.Json.{Python}
use leap_soledad.Store.State.{Db}
use leap_soledad.Store.Read.{
  validate_gen_and_trans_id, get_generation_info, get_replica_gen_and_trans_id, last_trans_id,
}
use leap_soledad.Store.Incoming.{set_replica_gen_and_trans_id}
use leap_soledad.Store.Changes.{Change, whats_changed, changes_trans_id}
use leap_soledad.Store.Reach.{rebase}
use leap_soledad.Store.Soundness.{IsSound}
use leap_soledad.Sync.Keeps.{insert_docs-Keeps, IsSound-PutKeeps}
use leap_soledad.Sync.Exchange.{Parcel, Exchange, parcels, insert_docs}
use leap_soledad.Sync.Synchronizer.{
  Receiver, Pair, record_sync_info_with_the_target, finish_sync, return_and_finish, exchange,
  sync_changes, sync,
}

get_last?-drop :
    (n : ℕ) (log : List (Text × Text)) → n < length log → get_last? (drop n log) ≡ get_last? log
get_last?-drop zero log h = ground arith
get_last?-drop (suc n) [] h = absurd (omega arith)
get_last?-drop (suc n) (e ∷ []) h = absurd (omega arith)
get_last?-drop (suc n) (e ∷ f ∷ log) h = get_last?-drop n (f ∷ log) (omega arith)

changes_trans_id-drop :
    (n : ℕ) (log : List (Text × Text))
    → n ≤ length log
    → changes_trans_id (drop n log) log ≡ last_trans_id log
unfolding changes_trans_id
changes_trans_id-drop n log h = go (drop n log) refl
  where
    go : (t : List (Text × Text)) → drop n log ≡ t → changes_trans_id t log ≡ last_trans_id log
    go [] e = refl
    go (x ∷ t) e =
        let lt : n < length log =
          omega (arith, length-drop {0} n log, ap (λ (l : List (Text × Text)). length l) e) in
        ap (λ (o : Option (Text × Text)). elim o [ none ↦ [] | some entry ↦ entry.1 ])
          (ap (λ (l : List (Text × Text)). get_last? l) (sym e) ∙ get_last?-drop n log lt)

-- The generation that `whats_changed` returns, with its transaction id, is the current one.
whats_changed-info :
    (n : ℕ) (db : Db)
    → n ≤ length db.transaction_log
    → ((whats_changed n db).0, (whats_changed n db).1) ≡ get_generation_info db
unfolding whats_changed get_generation_info
whats_changed-info n db h =
    let e : n + length (drop n db.transaction_log) ≡ length db.transaction_log =
      omega (arith, length-drop {0} n db.transaction_log) in
    cc (e, changes_trans_id-drop n db.transaction_log h)

-- The source has recorded of the target the generation and the transaction id that it is at.
abbrev pub Agrees : Text → Pair → Type 0
Agrees target_replica_uid d =
    get_replica_gen_and_trans_id (some target_replica_uid) d.source ≡ get_generation_info d.target

-- A property of the two databases, if the sync returns.
abbrev pub IfReturned : (Pair → Type 0) → Result ℕ × Pair → Type 0
IfReturned Q (ok gen, d) = Q d
IfReturned Q (err e, d) = Unit

module _ (py : Python) (fresh : Text → Text) (uid : Text) (my_gen : ℕ) where
  finish_sync-Agrees :
      (new_gen : ℕ) (new_trans_id : Text) (target : Db) (r : Result (Unit {0}) × Receiver)
      → (new_gen, new_trans_id) ≡ get_generation_info target
      → IfReturned (Agrees uid) (finish_sync py uid my_gen new_gen new_trans_id target r)
  unfolding finish_sync record_sync_info_with_the_target get_replica_gen_and_trans_id
      set_replica_gen_and_trans_id get_generation_info
  finish_sync-Agrees new_gen new_trans_id target (err e, x) h = tt
  finish_sync-Agrees new_gen new_trans_id target (ok u, x) h = ground (
    arith,
    get-put {V = ℕ × Text} uid uid (new_gen, new_trans_id) x.source.other_generations,
    text_eq_refl uid,
  )

  return_and_finish-Agrees :
      (last_known : ℕ) (source : Db) (r : Result (Unit {0}) × Exchange)
      → last_known ≤ length r.1.db.transaction_log
      → IfReturned (Agrees uid) (return_and_finish py fresh uid my_gen last_known source r)
  unfolding return_and_finish
  return_and_finish-Agrees last_known source (err e, x) h = tt
  return_and_finish-Agrees last_known source (ok u, x) h =
      finish_sync-Agrees (whats_changed last_known x.db).0 (whats_changed last_known x.db).1 x.db _
        (whats_changed-info last_known x.db h)

  -- A generation that the target accepts is one of its log.
  validated-le :
      (gen : ℕ) (trans_id : Text) (db : Db)
      → validate_gen_and_trans_id gen trans_id db ≡ ok tt
      → gen ≤ length db.transaction_log
  unfolding validate_gen_and_trans_id
  validated-le gen trans_id db h = ground arith

  exchange-Agrees :
      (changes : List Change) (last_known : ℕ × Text) (d : Pair)
      → IsSound [] d.target
      → IfReturned (Agrees uid) (exchange py fresh uid my_gen changes last_known d)
  unfolding exchange
  exchange-Agrees changes (gen, trans_id) d s =
      go p.1 (validate_gen_and_trans_id gen trans_id d.target) refl
    where
      start : Exchange
      start = record { db = d.target; seen_ids = [] }

      p : List Parcel × Result (Unit {0})
      p = parcels py fresh changes d.source

      after : Result (Unit {0}) × Exchange
      after = insert_docs py d.source.replica_uid p.0 (ok tt) start

      kept : IsSound d.target.transaction_log after.1.db
      kept =
          insert_docs-Keeps py (IsSound d.target.transaction_log)
            (IsSound-PutKeeps py d.target.transaction_log) d.source.replica_uid p.0 (ok tt) start
            (rebase [] d.target s)

      go :
          (end_ r : Result (Unit {0}))
          → validate_gen_and_trans_id gen trans_id d.target ≡ r
          → IfReturned (Agrees uid) (elim end_ [
            | err e ↦ (err e, d)
            | ok _ ↦ elim r [
              | err e ↦ (err e, d)
              | ok _ ↦ return_and_finish py fresh uid my_gen gen d.source after
            ]
          ])
      go (err e) r h = tt
      go (ok u) (err e) h = tt
      go (ok v) (ok u) h = return_and_finish-Agrees gen d.source after (
          omega (
            arith,
            validated-le gen trans_id d.target h,
            ap (λ (l : List (Text × Text)). length l) kept.extends,
            length-append {0} d.target.transaction_log kept.added,
          ))

  sync_changes-Agrees :
      (changes : List Change) (d : Pair)
      → IsSound [] d.target
      → IfReturned (Agrees uid) (
          sync_changes py fresh uid my_gen changes
            (get_generation_info d.target)
            (get_replica_gen_and_trans_id (some uid) d.source)
            d)
  unfolding sync_changes
  sync_changes-Agrees (c ∷ changes) d s = exchange-Agrees (c ∷ changes) _ d s
  sync_changes-Agrees [] d s =
      nothing (get_replica_gen_and_trans_id (some uid) d.source) refl
        (exchange-Agrees [] (get_replica_gen_and_trans_id (some uid) d.source) d s)
    where
      nothing :
          (known : ℕ × Text)
          → get_replica_gen_and_trans_id (some uid) d.source ≡ known
          → IfReturned (Agrees uid) (exchange py fresh uid my_gen [] known d)
          → IfReturned
              (Agrees uid)
              (sync_changes py fresh uid my_gen [] (get_generation_info d.target) known d)
      nothing (gen, trans_id) e h = elim (Bool-cases (gen == (get_generation_info d.target).0)) [
        | inr behind ↦ rw behind h
        | inl level ↦
            rw level (elim (Bool-cases (text_eq (get_generation_info d.target).1 trans_id)) [
              | inr other ↦ rw other tt
              | inl same ↦
                  rw same (ground (arith, e, text_eq_iff (get_generation_info d.target).1 trans_id))
            ])
      ]

-- When a sync returns, the source has recorded of the target exactly the generation and the
-- transaction id that the target is at: the next sync starts from there. This holds whether
-- documents were exchanged or there was nothing to do. The target is a database whose documents
-- and log agree, as every reachable one is.
pub sync-Agrees :
    (py : Python) (fresh : Text → Text) (d : Pair)
    → IsSound [] d.target
    → IfReturned (Agrees d.target.replica_uid) (sync py fresh d)
unfolding sync
sync-Agrees py fresh d s = elim (Bool-cases (text_eq d.target.replica_uid d.source.replica_uid)) [
  | inl same ↦ rw same tt
  | inr other ↦ rw other (go (validate_gen_and_trans_id known.0 known.1 d.source))
]
  where
    known : ℕ × Text
    known = get_replica_gen_and_trans_id (some d.source.replica_uid) d.target

    go :
        (r : Result (Unit {0}))
        → IfReturned (Agrees d.target.replica_uid) (elim r [
          | err e ↦ (err e, d)
          | ok _ ↦
              sync_changes py fresh d.target.replica_uid
                (whats_changed known.0 d.source).0
                (whats_changed known.0 d.source).2
                (get_generation_info d.target)
                (get_replica_gen_and_trans_id (some d.target.replica_uid) d.source)
                d
        ])
    go (err e) = tt
    go (ok u) =
        sync_changes-Agrees py fresh d.target.replica_uid (whats_changed known.0 d.source).0
          (whats_changed known.0 d.source).2 d s
