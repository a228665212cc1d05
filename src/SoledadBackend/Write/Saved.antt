-- ===== src/SoledadBackend/Write/Saved.antt =====
-- What a `put_doc` of the backend that returns has saved.
use leap_soledad.Prelude.{
  ◌≡◌, ◌∙◌, ◌⊎◌, inl, inr, refl, sym, ap, Bool, Bool-cases, true, false, not, Option, none, some,
  Text, arith,
}
use leap_soledad.Prelude.Result
use leap_soledad.Prelude.Result.{Error, Result, ok, err, or_raise, ok_of_bind}
use leap_soledad.Prelude.Action.{Action, and_then}
use leap_soledad.Json.{Python}
use leap_soledad.VectorClock.Rev.{expand}
use leap_soledad.VectorClock.RoundTrip.{HasPlainUid}
use leap_soledad.Document.{is_tombstone}
use leap_soledad.Store.Revs.{allocate_doc_rev, check_doc_id, check_doc_size}
use leap_soledad.Store.Revs.Newer.{IsNewerRev, allocate_doc_rev_newer}
use leap_soledad.Store.Write.{opt_eq}
use leap_soledad.Store.Write.Put.{opt_eq_sound}
use leap_soledad.SoledadBackend.ServerDocument.{ServerDocument, rev_of, with_rev}
use leap_soledad.SoledadBackend.Database.{Database, Soledad, on_database}
use leap_soledad.SoledadBackend.Cache.{own_name}
use leap_soledad.SoledadBackend.Session.Holds.{Returns, Returns-bind}
use leap_soledad.SoledadBackend.Write.{
  is_conflicted, base_rev, revives, buried, allocate, save, put_doc, delete_doc,
}

-- A pure result, then the rest in the same state.
Returns-lift :
    {S A B : Type 0} (Q : B → S → Type 0) (x : S) (f : A → Action S B) (r : Result A)
    → ((a : A) → r ≡ ok a → Returns Q (f a x))
    → Returns Q (and_then (r, x) f)
Returns-lift Q x f (ok a) k = k a refl
Returns-lift Q x f (err e) k = tt

Returns-raise_if :
    {S B : Type 0} (Q : B → S → Type 0) (x : S) (f : Unit {0} → Action S B) (b : Bool) (e : Error)
    → (b ≡ false → Returns Q (f tt x))
    → Returns Q (and_then (Result.raise_if b e, x) f)
Returns-raise_if Q x f true e k = tt
Returns-raise_if Q x f false e k = k refl

-- A call of the database, then the rest in a state that differs in the database only.
Returns-database :
    {S A B : Type 0} (Q : B → Soledad S → Type 0) (f : A → Action (Soledad S) B) (m : Action S A)
    (x : Soledad S)
    → ((a : A) (s : S) → m x.database ≡ (ok a, s) → Returns Q (f a (record x { database = s })))
    → Returns Q (and_then (on_database m x) f)
Returns-database {S = S} {A = A} Q f m x k = go (m x.database) refl
  where
    go :
        (r : Result A × S)
        → m x.database ≡ r
        → Returns Q (and_then (let (q, s) = r in (q, record x { database = s })) f)
    go (ok a, s) h = k a s h
    go (err e, s) h = tt

-- What is returned, with the state that is left.
Returns-state :
    {S A : Type 0} (P : A → S → Type 0) (r : Result A × S)
    → Returns P r
    → Returns (λ a s. P a s × (s ≡ r.1)) r
Returns-state P (ok a, s) h = (h, refl)
Returns-state P (err e, s) h = tt

-- A version that a put may replace, with the revision that it is taken for: none is stored, and
-- the document has no revision; or the stored one has the document's revision; or the stored one
-- is deleted, and the document has no revision.
abbrev pub Replaces : ServerDocument → Option ServerDocument → Option Text → Type 0
Replaces doc none old_rev = (rev_of doc ≡ none) × (old_rev ≡ none)
Replaces doc (some old_doc) old_rev =
    ((rev_of old_doc ≡ rev_of doc) × (old_rev ≡ rev_of doc))
    ⊎ ((rev_of doc ≡ none) × (is_tombstone old_doc.document ≡ true) × (old_rev ≡ rev_of old_doc))

base_rev-Replaces :
    (doc : ServerDocument) (old_doc : Option ServerDocument) {old_rev : Option Text}
    → base_rev doc old_doc ≡ ok old_rev
    → Replaces doc old_doc old_rev
unfolding base_rev
base_rev-Replaces doc none e = elim (Bool-cases (opt_eq (rev_of doc) none)) [
  | inl same ↦
      let fresh = opt_eq_sound (rev_of doc) none same in (fresh, ground (arith, same, fresh))
  | inr other ↦ absurd (ground (arith, other))
]
base_rev-Replaces doc (some old_doc) e = elim (Bool-cases (revives doc (some old_doc))) [
  | inl again ↦ inr (
    opt_eq_sound (rev_of doc) none (ground (arith, again)),
    ground (arith, again),
    ground (arith, again),
  )
  | inr alive ↦ elim (Bool-cases (opt_eq (rev_of old_doc) (rev_of doc))) [
    | inl same ↦ inl (opt_eq_sound (rev_of old_doc) (rev_of doc) same, ground (arith, alive, same))
    | inr other ↦ absurd (ground (arith, alive, other))
  ]
]

module _ (py : Python) {S : Type 0} (D : Database S) where
  -- The uid of the replica holds neither `|` nor `:`, whatever the database has come to.
  abbrev pub HasPlainName : Soledad S → Type 0
  HasPlainName x =
      (s : S) → Returns (λ uid y. HasPlainUid (uid, 0)) (own_name D (record x { database = s }))

  -- The database once the backend knows its uid, which it may have asked for and recorded.
  abbrev pub named : S → Soledad S → S
  named s x = (own_name D (record x { database = s })).1.database

  -- The document is the given one under a new revision, which is newer than that of the version it
  -- takes the place of: the version that the database had under the document's id, which has no
  -- conflicts. The database has saved it in place of that version.
  pub record IsPut (trans_id : Text) (doc : ServerDocument) (before : Soledad S) (new_rev : Text)
      (new : ServerDocument) (after : Soledad S) : Type 0 where
    pub doc_id : Text
    pub id_given : doc.document.doc_id ≡ some doc_id
    pub old_doc : Option ServerDocument
    pub read : S
    pub was_read : D.read_doc doc_id true before.database ≡ (ok old_doc, read)
    pub old_rev : Option Text
    pub replaces : Replaces doc old_doc old_rev
    pub no_conflicts : is_conflicted old_doc ≡ false
    pub is_newer_rev : IsNewerRev new_rev old_rev
    pub is_new : new ≡ with_rev new_rev doc
    pub saved : D.save_document old_doc new trans_id (named read before) ≡ (ok tt, after.database)

  allocate-IsNewerRev :
      (old_rev : Option Text) (x : Soledad S)
      → Returns (λ uid y. HasPlainUid (uid, 0)) (own_name D x)
      → Returns
          (λ new_rev y. IsNewerRev new_rev old_rev × (y ≡ (own_name D x).1))
          (allocate py D old_rev x)
  unfolding allocate
  allocate-IsNewerRev old_rev x plain = Returns-lift _ _ _ (expand old_rev) λ vcr h.
      Returns-bind _ _ (own_name D x) _ (Returns-state _ (own_name D x) plain)
        λ uid z p. made uid (allocate_doc_rev uid old_rev) refl z p
    where
      made :
          (uid : Text) (r : Result Text)
          → allocate_doc_rev uid old_rev ≡ r
          → (z : Soledad S) → HasPlainUid (uid, 0) × (z ≡ (own_name D x).1)
          → Returns (λ new_rev y. IsNewerRev new_rev old_rev × (y ≡ (own_name D x).1)) (r, z)
      made uid (err e) h z p = tt
      made uid (ok new_rev) h z p = (allocate_doc_rev_newer uid old_rev p.0 h, p.1)

  save-saves :
      (trans_id : Text) (old_doc : Option ServerDocument) (new : ServerDocument) (x : Soledad S)
      → Returns
          (λ u y. D.save_document old_doc new trans_id x.database ≡ (ok tt, y.database))
          (save py D trans_id old_doc new x)
  unfolding save
  save-saves trans_id old_doc new x = go (D.save_document old_doc new trans_id x.database) refl
    where
      go :
          (r : Result (Unit {0}) × S)
          → D.save_document old_doc new trans_id x.database ≡ r
          → Returns
              (λ u y. D.save_document old_doc new trans_id x.database ≡ (ok tt, y.database))
              (let (q, s) = r in (q, record x { database = s }))
      go (ok u, s) h = h
      go (err e, s) h = tt

  saved_from :
      (trans_id : Text) (old_doc : Option ServerDocument) (new : ServerDocument) (s : S)
      (x y z : Soledad S)
      → y ≡ (own_name D (record x { database = s })).1
      → D.save_document old_doc new trans_id y.database ≡ (ok tt, z.database)
      → D.save_document old_doc new trans_id (named s x) ≡ (ok tt, z.database)
  saved_from trans_id old_doc new s x y z e h =
      ap (λ w. D.save_document old_doc new trans_id w.database) (sym e) ∙ h

  -- A `put_doc` that returns has read the version that the database has under the document's id,
  -- and has saved the document in its place under a newer revision. That version is none, and the
  -- document has no revision; or it has the document's revision; or it is deleted, and the
  -- document, which has no revision, revives it. A version with conflicts is never replaced. The
  -- replica's uid holds neither `|` nor `:`.
  pub put_doc-IsPut :
      (trans_id : Text) (doc : ServerDocument) (x : Soledad S)
      → HasPlainName x
      → Returns (λ new y. IsPut trans_id doc x new.0 new.1 y) (put_doc py D trans_id doc x)
  unfolding put_doc
  put_doc-IsPut trans_id doc x plain =
      Returns-lift _ _ _ (or_raise doc.document.doc_id Result.invalid_doc_id) λ doc_id given.
        Returns-lift _ _ _ (check_doc_id doc_id) λ u h.
          Returns-lift _ _ _ (check_doc_size py x.document_size_limit doc.document) λ u h.
            Returns-database _ _ (D.read_doc doc_id true) x λ old_doc s was_read.
              Returns-raise_if _ _ _ (is_conflicted old_doc) Result.conflicted_doc λ no.
                Returns-lift _ _ _ (base_rev doc old_doc) λ old_rev base.
                  Returns-bind _ _ (allocate py D old_rev (record x { database = s })) _
                    (allocate-IsNewerRev old_rev (record x { database = s }) (plain s))
                    λ new_rev y newer.
                      Returns-bind _ _ (save py D trans_id old_doc (with_rev new_rev doc) y) _
                        (save-saves trans_id old_doc (with_rev new_rev doc) y)
                        λ u z saved. record {
                          doc_id = doc_id;
                          id_given = or_raise-some doc.document.doc_id given;
                          old_doc = old_doc;
                          read = s;
                          was_read = was_read;
                          old_rev = old_rev;
                          replaces = base_rev-Replaces doc old_doc base;
                          no_conflicts = no;
                          is_newer_rev = newer.0;
                          is_new = refl;
                          saved =
                              saved_from trans_id old_doc (with_rev new_rev doc) s x y z newer.1
                                saved;
                        }
    where
      or_raise-some :
          (value : Option Text) {a : Text}
          → or_raise value Result.invalid_doc_id ≡ ok a
          → value ≡ some a
      or_raise-some none h = absurd cc
      or_raise-some (some b) h = ground arith

  -- The document is a tombstone of the given one under a newer revision; the database has saved it
  -- in place of the version that it had under the id, which has the given one's revision, is no
  -- tombstone and has no conflicts.
  pub record IsDeleted (trans_id doc_id : Text) (doc : ServerDocument) (before : Soledad S)
      (new_rev : Text) (new : ServerDocument) (after : Soledad S) : Type 0 where
    pub old_doc : ServerDocument
    pub read : S
    pub was_read : D.read_doc doc_id true before.database ≡ (ok (some old_doc), read)
    pub same_rev : rev_of old_doc ≡ rev_of doc
    pub alive : is_tombstone old_doc.document ≡ false
    pub no_conflicts : old_doc.document.has_conflicts ≡ false
    pub is_newer_rev : IsNewerRev new_rev (rev_of doc)
    pub is_new : new ≡ buried (with_rev new_rev doc)
    pub saved :
        D.save_document (some old_doc) new trans_id (named read before) ≡ (ok tt, after.database)

  -- A `delete_doc` that returns has read the version that the database has under the id, and has
  -- saved a tombstone of the document in its place, under a revision that is newer than the
  -- document's. That version has the document's revision, is no tombstone and has no conflicts. The
  -- replica's uid holds neither `|` nor `:`.
  pub delete_doc-IsDeleted :
      (trans_id doc_id : Text) (doc : ServerDocument) (x : Soledad S)
      → HasPlainName x
      → Returns
          (λ new y. IsDeleted trans_id doc_id doc x new.0 new.1 y)
          (delete_doc py D trans_id doc_id doc x)
  unfolding delete_doc
  delete_doc-IsDeleted trans_id doc_id doc x plain =
      Returns-database _ _ (D.read_doc doc_id true) x λ found s was_read.
        Returns-lift _ _ _ (or_raise found Result.document_does_not_exist) λ old_doc held.
          Returns-raise_if _ _ _ (not (opt_eq (rev_of old_doc) (rev_of doc)))
            Result.revision_conflict
            λ same.
              Returns-raise_if _ _ _ (is_tombstone old_doc.document) Result.document_already_deleted
                λ alive.
                  Returns-raise_if _ _ _ old_doc.document.has_conflicts Result.conflicted_doc λ no.
                    Returns-bind _ _ (allocate py D (rev_of doc) (record x { database = s })) _
                      (allocate-IsNewerRev (rev_of doc) (record x { database = s }) (plain s))
                      λ new_rev y newer.
                        Returns-bind _ _
                          (save py D trans_id (some old_doc) (buried (with_rev new_rev doc)) y) _
                          (save-saves trans_id (some old_doc) (buried (with_rev new_rev doc)) y)
                          λ u z saved. record {
                            old_doc = old_doc;
                            read = s;
                            was_read = ground (arith, was_read, held);
                            same_rev =
                                opt_eq_sound (rev_of old_doc) (rev_of doc)
                                  (not_false (opt_eq (rev_of old_doc) (rev_of doc)) same);
                            alive = alive;
                            no_conflicts = no;
                            is_newer_rev = newer.0;
                            is_new = refl;
                            saved =
                                saved_from trans_id (some old_doc) (buried (with_rev new_rev doc)) s
                                  x y z newer.1 saved;
                          }
    where
      not_false : (b : Bool) → not b ≡ false → b ≡ true
      not_false true h = refl
      not_false false h = absurd cc
