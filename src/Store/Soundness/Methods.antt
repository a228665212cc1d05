-- ===== src/Store/Soundness/Methods.antt =====
-- Each method that changes the database keeps it sound.
use leap_soledad.Prelude.{
  ℕ, ◌≡◌, refl, ◌∙◌, ap, Bool, true, false, Option, none, some, List, Text, arith, Option-cases,
  Bool-cases, inl, inr,
}
use leap_soledad.Prelude.Dict.{get, put, contains}
use leap_soledad.Prelude.Result.{ok, or_raise, attribute_error}
use leap_soledad.VectorClock.{Clock}
use leap_soledad.VectorClock.Rev.{expand}
use leap_soledad.Index.{Index, new_index}
use leap_soledad.Json.{Python, Value}
use leap_soledad.Document.{Document, get_json}
use leap_soledad.Store.State.{Db, Version, Action, ◌>>=◌, ◌>>◌, pure, modify, lift}
use leap_soledad.Store.State.Keeps.{
  Keeps, keeps_rules, bind-Keeps, modify-Keeps, lift-Keeps, reads_at, lift_at, gets_at, bind_at,
}
use leap_soledad.Store.Read.{find_doc}
use leap_soledad.Store.Write.{
  put_and_update_indexes, put_doc, delete_doc, create_doc_from_json, create_doc,
}
use leap_soledad.Store.Conflicts.{
  pruned_rev, replace_conflicts, prune_conflicts, resolve_doc, not_superseded, store_resolved,
}
use leap_soledad.Store.Incoming.{
  add_conflict, record_source, set_replica_gen_and_trans_id, force_doc_sync_conflict, insert_newer,
  merge_same, save_conflicted, put_not_newer, put_by_revs, put_doc_if_newer,
}
use leap_soledad.Store.Indexes.{create_index, index_docs, texts_eq}
use leap_soledad.Store.Soundness.{
  IsSound, indexes-IsSound, put_and_update_indexes-IsSound, set_conflicts-IsSound,
  add_conflict-IsSound, put_and_update_indexes-contains, set_conflicts-contains,
}

module _ (base : List (Text × Text)) (py : Python) where
  update-Keeps :
      (trans_id doc_id : Text) (old_doc : Option Document) (doc : Document)
      → Keeps (IsSound base) (put_and_update_indexes py trans_id doc_id old_doc doc)
  update-Keeps trans_id doc_id old_doc doc = record {
    from = put_and_update_indexes-IsSound base py trans_id doc_id old_doc doc;
  }

  pub put_doc-Keeps :
      (trans_id : Text) (doc : Document) → Keeps (IsSound base) (put_doc py trans_id doc)
  unfolding put_doc
  put_doc-Keeps trans_id doc = search (keeps_rules, update-Keeps) depth 20

  pub delete_doc-Keeps :
      (trans_id : Text) (doc : Document) → Keeps (IsSound base) (delete_doc py trans_id doc)
  unfolding delete_doc
  delete_doc-Keeps trans_id doc = search (keeps_rules, put_doc-Keeps) depth 20

  pub create_doc_from_json-Keeps :
      (trans_id new_id : Text) (json doc_id : Option Text)
      → Keeps (IsSound base) (create_doc_from_json py trans_id new_id json doc_id)
  unfolding create_doc_from_json
  create_doc_from_json-Keeps trans_id new_id json doc_id =
      search (keeps_rules, put_doc-Keeps) depth 20

  pub create_doc-Keeps :
      (trans_id new_id : Text) (content : Value) (doc_id : Option Text)
      → Keeps (IsSound base) (create_doc py trans_id new_id content doc_id)
  unfolding create_doc
  create_doc-Keeps trans_id new_id content doc_id =
      search (keeps_rules, create_doc_from_json-Keeps) depth 20

  -- A sound database in which one document is stored.
  abbrev Stored : Text → Db → Type 0
  Stored k db = IsSound base db × (contains k db.docs ≡ true)

  Stored-update-Keeps :
      (k trans_id : Text) (old_doc : Option Document) (doc : Document)
      → Keeps (Stored k) (put_and_update_indexes py trans_id k old_doc doc)
  Stored-update-Keeps k trans_id old_doc doc = record {
    from = λ db (s, h).
        let s' = put_and_update_indexes-IsSound base py trans_id k old_doc doc db s in
        (s', put_and_update_indexes-contains py trans_id k old_doc doc db k h);
  }

  replace-Keeps :
      (k : Text) (doc : Document) (versions : List Version)
      → Keeps (Stored k) (replace_conflicts k doc versions)
  unfolding replace_conflicts
  replace-Keeps k doc versions = record {
    from = λ db (s, h).
        (set_conflicts-IsSound base db k versions h s, set_conflicts-contains k versions db k h);
  }

  prune-Keeps :
      (k : Text) (doc : Document) (vcr : Clock) → Keeps (Stored k) (prune_conflicts py k doc vcr)
  unfolding prune_conflicts
  prune-Keeps k doc vcr = record {
    from = λ db h. elim (Option-cases (get k db.conflicts)) [
      | inl e ↦ rw (e, prune_conflicts) h
      | inr (versions, e) ↦
          rw (e, prune_conflicts)
            ((bind-Keeps _ _ (lift-Keeps _)
                (λ p. replace-Keeps k (pruned_rev db.replica_uid doc p) p.remaining)).from
              db h)
    ];
  }

  -- Where the document is not stored it has no conflicts, and pruning does nothing.
  prune-IsSound :
      (k : Text) (doc : Document) (vcr : Clock)
      → Keeps (IsSound base) (prune_conflicts py k doc vcr)
  prune-IsSound k doc vcr = record {
    from = λ db s. elim (Option-cases (get k db.conflicts)) [
      | inl e ↦ unfold prune_conflicts in rw (e, prune_conflicts) s
      | inr (versions, e) ↦ ((prune-Keeps k doc vcr).from db (s, s.stored k (ground arith))).0
    ];
  }

  store_resolved-Keeps :
      (trans_id k : Text) (revs : List Text) (cur_doc : Option Document) (remaining : List Version)
      (doc : Document)
      → Keeps (Stored k) (store_resolved py trans_id k revs cur_doc remaining doc)
  unfolding store_resolved
  store_resolved-Keeps trans_id k revs cur_doc remaining doc =
      search (keeps_rules, Stored-update-Keeps, replace-Keeps) depth 20

  pub resolve_doc-Keeps :
      (trans_id k : Text) (doc : Document) (revs : List Text)
      → Keeps (IsSound base) (resolve_doc py trans_id k doc revs)
  unfolding resolve_doc
  resolve_doc-Keeps trans_id k doc revs = record {
    from = λ db s. reads_at (IsSound base) _ _ db s λ cur_doc _.
        reads_at (IsSound base) _ _ db s λ new_rev _. gets_at (IsSound base) _ _ db (
          lift_at (IsSound base) _ _ db s λ versions e.
            ((store_resolved-Keeps trans_id k revs cur_doc (not_superseded revs versions)
                (record doc { rev = some new_rev })).from
              db (s, s.stored k (ground arith))).0);
  }

  insert_newer-Keeps :
      (trans_id k : Text) (cur_doc : Option Document) (doc : Document) (vcr : Clock)
      → Keeps (IsSound base) (insert_newer py trans_id k cur_doc doc vcr)
  unfolding insert_newer
  insert_newer-Keeps trans_id k cur_doc doc vcr =
      search (keeps_rules, update-Keeps, prune-IsSound) depth 20

  merge_same-Keeps :
      (trans_id k : Text) (cur_doc doc : Document) (doc_vcr cur_vcr : Clock)
      → Keeps (IsSound base) (merge_same py trans_id k cur_doc doc doc_vcr cur_vcr)
  unfolding merge_same
  merge_same-Keeps trans_id k cur_doc doc doc_vcr cur_vcr =
      search (keeps_rules, update-Keeps) depth 20

  find_doc-contains :
      (k : Text) (b : Bool) (db : Db) (doc : Document)
      → find_doc py k b db ≡ ok (some doc)
      → contains k db.docs ≡ true
  unfolding find_doc
  find_doc-contains k b db doc e = ground arith

  add_conflict-Keeps : (k : Text) (v : Version) → Keeps (Stored k) (modify (add_conflict k v))
  add_conflict-Keeps k v =
      modify-Keeps (add_conflict k v)
        (λ db (s, h). (add_conflict-IsSound base db k v h s, unfold add_conflict in ground arith))

  -- What follows the lookup in `_force_doc_sync_conflict`.
  abbrev conflict_rest : Text → Text → Document → Option Document → Action Document
  conflict_rest trans_id k doc found = do
    doc_vcr ← lift (expand doc.rev)
    doc' ← prune_conflicts py k doc doc_vcr
    my_doc ← lift (or_raise found attribute_error)
    modify (add_conflict k (my_doc.rev, get_json py my_doc))
    put_and_update_indexes py trans_id k (some my_doc) (record doc' { has_conflicts = true })
    pure (record doc' { has_conflicts = true })

  conflict_rest-Stored :
      (trans_id k : Text) (doc my_doc : Document)
      → Keeps (Stored k) (conflict_rest trans_id k doc (some my_doc))
  conflict_rest-Stored trans_id k doc my_doc =
      search (keeps_rules, prune-Keeps, add_conflict-Keeps, Stored-update-Keeps) depth 20

  conflict_rest-IsSound :
      (trans_id k : Text) (doc : Document) (found : Option Document) (db : Db)
      → IsSound base db
      → ((my_doc : Document) → found ≡ some my_doc → contains k db.docs ≡ true)
      → IsSound base (conflict_rest trans_id k doc found db).1
  conflict_rest-IsSound trans_id k doc none db s h = lift_at (IsSound base) _ _ db s λ vcr _.
      bind_at (IsSound base) _ _ db ((prune-IsSound k doc vcr).from db s)
        λ doc' _. lift_at (IsSound base) _ _ _ ((prune-IsSound k doc vcr).from db s) λ my_doc e. cc
  conflict_rest-IsSound trans_id k doc (some my_doc) db s h =
      ((conflict_rest-Stored trans_id k doc my_doc).from db (s, h my_doc refl)).0

  force-Keeps :
      (trans_id k : Text) (doc : Document)
      → Keeps (IsSound base) (force_doc_sync_conflict py trans_id k doc)
  unfolding force_doc_sync_conflict
  force-Keeps trans_id k doc = record {
    from = λ db s. reads_at (IsSound base) _ _ db s λ found e.
        conflict_rest-IsSound trans_id k doc found db s
          (λ my_doc e'. find_doc-contains k false db my_doc (e ∙ ap ok e'));
  }

  save_conflicted-Keeps :
      (trans_id k : Text) (save : Bool) (doc : Document)
      → Keeps (IsSound base) (save_conflicted py trans_id k save doc)
  unfolding save_conflicted
  save_conflicted-Keeps trans_id k false doc = search keeps_rules depth 20
  save_conflicted-Keeps trans_id k true doc = search (keeps_rules, force-Keeps) depth 20

  put_not_newer-Keeps :
      (trans_id k : Text) (save : Bool) (cur_doc doc : Document) (doc_vcr cur_vcr : Clock)
      → Keeps (IsSound base) (put_not_newer py trans_id k save cur_doc doc doc_vcr cur_vcr)
  unfolding put_not_newer
  put_not_newer-Keeps trans_id k save cur_doc doc doc_vcr cur_vcr =
      search (keeps_rules, merge_same-Keeps, save_conflicted-Keeps) depth 20

  put_by_revs-Keeps :
      (trans_id k : Text) (save : Bool) (cur_doc : Option Document) (doc : Document)
      (doc_vcr cur_vcr : Clock)
      → Keeps (IsSound base) (put_by_revs py trans_id k save cur_doc doc doc_vcr cur_vcr)
  unfolding put_by_revs
  put_by_revs-Keeps trans_id k save none doc doc_vcr cur_vcr =
      search (keeps_rules, insert_newer-Keeps) depth 20
  put_by_revs-Keeps trans_id k save (some cur_doc) doc doc_vcr cur_vcr =
      search (keeps_rules, insert_newer-Keeps, put_not_newer-Keeps) depth 20

  pub replica_gen-IsSound :
      (uid : Text) (gen : ℕ) (trans_id : Text) (db : Db)
      → IsSound base db
      → IsSound base (set_replica_gen_and_trans_id uid gen trans_id db)
  unfolding set_replica_gen_and_trans_id
  replica_gen-IsSound uid gen trans_id db s = record {
    logged = s.logged;
    stored = s.stored;
    nonempty = s.nonempty;
    added = s.added;
    extends = s.extends;
  }

  record_source-IsSound :
      (uid : Option Text) (gen : ℕ) (trans_id : Text) (db : Db)
      → IsSound base db
      → IsSound base (record_source uid gen trans_id db)
  unfolding record_source
  record_source-IsSound none gen trans_id db s = s
  record_source-IsSound (some uid) gen trans_id db s = replica_gen-IsSound uid gen trans_id db s

  record_source-Keeps :
      (uid : Option Text) (gen : ℕ) (trans_id : Text)
      → Keeps (IsSound base) (modify (record_source uid gen trans_id))
  record_source-Keeps uid gen trans_id =
      modify-Keeps (record_source uid gen trans_id) (record_source-IsSound uid gen trans_id)

  pub put_doc_if_newer-Keeps :
      (trans_id k : Text) (doc : Document) (save : Bool) (uid : Option Text) (gen : ℕ)
      (source_trans_id : Text)
      → Keeps (IsSound base) (put_doc_if_newer py trans_id k doc save uid gen source_trans_id)
  unfolding put_doc_if_newer
  put_doc_if_newer-Keeps trans_id k doc save uid gen source_trans_id =
      search (keeps_rules, put_by_revs-Keeps, record_source-Keeps) depth 20

  add_index-Keeps :
      (name : Text) (index : Index)
      → Keeps (IsSound base) (modify (λ db'. record db' { indexes = put name index db'.indexes }))
  add_index-Keeps name index =
      modify-Keeps _ (λ db s. indexes-IsSound base db (put name index db.indexes) s)

  pub create_index-Keeps :
      (name : Text) (expressions : List Text)
      → Keeps (IsSound base) (create_index py name expressions)
  unfolding create_index
  create_index-Keeps name expressions = record {
    from = λ db s. elim (Option-cases (get name db.indexes)) [
      | inl new ↦
          rw (new, create_index)
            ((bind-Keeps _ _ (lift-Keeps (new_index name expressions)) λ empty.
                bind-Keeps _ _ (lift-Keeps (index_docs py empty db.docs))
                  λ index. add_index-Keeps name index).from
              db s)
      | inr (index, old) ↦ elim (Bool-cases (texts_eq index.definition expressions)) [
        | inl same ↦ rw (old, create_index) (rw same s)
        | inr other ↦ rw (old, create_index) (rw other s)
      ]
    ];
  }
