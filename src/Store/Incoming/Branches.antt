-- ===== src/Store/Incoming/Branches.antt =====
-- The outcomes of `_put_doc_if_newer`.
use leap_soledad.Prelude.{
  ℕ, ◌≡◌, ◌≢◌, ◌<◌, ◌⊎◌, inl, inr, refl, ap, Bool, true, false, Option, none, some, Text,
  text_eq_iff, text_eq_refl, arith, if◌then◌else◌, Bool-cases,
}
use leap_soledad.Prelude.Dict.{get-put}
use leap_soledad.Prelude.Result.{Error, ok, err, invalid_generation, invalid_transaction_id}
use leap_soledad.VectorClock.{Clock, is_newer}
use leap_soledad.VectorClock.Order.{IsNewer, Dominates, Dominates-refl, not-IsNewer_of_Dominates}
use leap_soledad.VectorClock.Decides.{is_newer_iff, is_newer_complete}
use leap_soledad.VectorClock.Rev.{expand, expand-IsDict}
use leap_soledad.Json.{Python}
use leap_soledad.Document.{Document}
use leap_soledad.Store.State.{Db, ◌>>=◌}
use leap_soledad.Store.State.Keeps.{Returned, Returned-then, Refused, Refused-then}
use leap_soledad.Store.Read.{
  find_doc, get_replica_gen_and_trans_id, validate_source, get_generation,
}
use leap_soledad.Store.Write.{rev_of, opt_eq}
use leap_soledad.Store.Incoming.{
  Outcome, converged, superseded, set_replica_gen_and_trans_id, put_by_revs, put_not_newer,
  put_doc_if_newer,
}

-- What `_validate_source` refuses.
stale_refused :
    (uid : Text) (gen : ℕ) (source_trans_id : Text) (db : Db) {known : ℕ × Text}
    → get_replica_gen_and_trans_id (some uid) db ≡ known
    → (gen < known.0) ⊎ ((gen ≡ known.0) × (source_trans_id ≢ known.1))
    → (e : Error) × (validate_source (some uid) gen source_trans_id db ≡ err e)
unfolding validate_source
stale_refused uid gen source_trans_id db e (inl behind) = (invalid_generation, ground arith)
stale_refused uid gen source_trans_id db {known} e (inr (same, other)) =
    (invalid_transaction_id, ground (arith, text_eq_iff source_trans_id known.1))

-- A revision that is not newer than a current one.
older_is_newer :
    (old cur : Option Text) (a b : Clock)
    → expand old ≡ ok a
    → expand cur ≡ ok b
    → (old ≡ cur) ⊎ IsNewer b a
    → is_newer a b ≡ false
older_is_newer old cur a b reads_a reads_b older = elim (Bool-cases (is_newer a b)) [
  | inl newer ↦
      let n = (is_newer_iff a b (expand-IsDict old reads_a)).0 newer in
      absurd (not-IsNewer_of_Dominates a b n (dominated older))
  | inr done ↦ done
]
  where
    dominated : (old ≡ cur) ⊎ IsNewer b a → Dominates b a
    dominated (inl same) = let e : a ≡ b = ground (arith, ap expand same) in rw e (Dominates-refl b)
    dominated (inr newer) = newer.dominates

opt_eq_refl : (s : Option Text) → opt_eq s s ≡ true
opt_eq_refl none = refl
opt_eq_refl (some s) = text_eq_refl s

module _ (py : Python) (trans_id k : Text) (doc : Document) (save_conflict : Bool) (db : Db)
    (uid : Text) (gen : ℕ) (source_trans_id : Text) where
  -- After a returned call the source's generation and transaction id are recorded for it.
  pub put_doc_if_newer_records :
      Returned
        (λ _ after. get_replica_gen_and_trans_id (some uid) after ≡ (gen, source_trans_id))
        (put_doc_if_newer py trans_id k doc save_conflict (some uid) gen source_trans_id db)
  unfolding put_doc_if_newer ◌>>=◌ get_replica_gen_and_trans_id
  put_doc_if_newer_records =
      let Q : Outcome × ℕ × Document → Db → Type 0 =
        λ _ after. get_replica_gen_and_trans_id (some uid) after ≡ (gen, source_trans_id) in
      Returned-then Q (find_doc py k false db) _ db λ cur_doc _.
        Returned-then Q (expand doc.rev) _ db λ doc_vcr _.
          Returned-then Q (expand (rev_of cur_doc)) _ db λ cur_vcr _.
            Returned-then Q (validate_source (some uid) gen source_trans_id db) _ db λ _ _.
              let (r, after) =
                put_by_revs py trans_id k save_conflict cur_doc doc doc_vcr cur_vcr db in
              Returned-then Q r _ after λ outcome _. ground (
                arith,
                get-put {V = ℕ × Text} uid uid (gen, source_trans_id) after.other_generations,
                text_eq_refl uid,
              )

  -- A source that falls behind what is recorded of it, or that gives another transaction id for
  -- the generation that is recorded, is refused, and nothing is written, whatever the document and
  -- whether or not it is stored.
  pub put_doc_if_newer_stale_source :
      {known : ℕ × Text}
      → get_replica_gen_and_trans_id (some uid) db ≡ known
      → (gen < known.0) ⊎ ((gen ≡ known.0) × (source_trans_id ≢ known.1))
      → Refused db
          (put_doc_if_newer py trans_id k doc save_conflict (some uid) gen source_trans_id db)
  unfolding put_doc_if_newer ◌>>=◌
  put_doc_if_newer_stale_source {known} e behind =
      Refused-then (find_doc py k false db) _ db λ cur_doc _.
        Refused-then (expand doc.rev) _ db λ doc_vcr _.
          Refused-then (expand (rev_of cur_doc)) _ db λ cur_vcr _.
            let (e', refused) = stale_refused uid gen source_trans_id db e behind in
            record { error = e'; refused = rw refused }

  -- A document that is the stored one, or whose revision is older, changes nothing but the record
  -- of the source, and is answered by the state it is found in and the generation as it was. Both
  -- revisions are well formed, and the source is valid.
  pub put_doc_if_newer_not_newer :
      (cur_doc : Document) (doc_vcr cur_vcr : Clock)
      → find_doc py k false db ≡ ok (some cur_doc)
      → expand doc.rev ≡ ok doc_vcr
      → expand cur_doc.rev ≡ ok cur_vcr
      → validate_source (some uid) gen source_trans_id db ≡ ok tt
      → (doc.rev ≡ cur_doc.rev) ⊎ IsNewer cur_vcr doc_vcr
      → put_doc_if_newer py trans_id k doc save_conflict (some uid) gen source_trans_id db ≡ (
        ok ((if opt_eq doc.rev cur_doc.rev then converged else superseded), get_generation db, doc),
        set_replica_gen_and_trans_id uid gen source_trans_id db,
      )
  unfolding put_doc_if_newer ◌>>=◌ put_by_revs put_not_newer
  put_doc_if_newer_not_newer cur_doc doc_vcr cur_vcr stored doc_reads cur_reads valid older =
      let behind = older_is_newer doc.rev cur_doc.rev doc_vcr cur_vcr doc_reads cur_reads older in
      elim older [
        | inl same ↦ ground (arith, opt_eq_refl cur_doc.rev)
        | inr newer ↦ ground (arith, is_newer_complete cur_vcr doc_vcr newer)
      ]
