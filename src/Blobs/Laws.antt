-- ===== src/Blobs/Laws.antt =====
-- What the operations of the blobs backend leave behind.
use leap_soledad.Prelude.{
  ℕ, ◌+◌, ◌*◌, ◌≤◌, ◌≡◌, ◌≢◌, ◌⊎◌, refl, Option-cases, ◌∙◌, sym, ap, subst, Option, none, some,
  Text, text_eq, text_eq_refl, arith, ltb, if◌then◌else◌, Bool-cases, inl, inr,
}
use leap_soledad.Prelude.Dict.{get, remove, get-put, get-remove}
use leap_soledad.Prelude.Result.{Error, Result, ok, err, blob_not_found, blob_exists}
use leap_soledad.Blobs.{System, get_path}
use leap_soledad.Blobs.Backend.{
  Backend, Producer, flags_of, deleted_of, usage_of, update_usage, get_total_storage, write_within,
  write_locked, path_to_write, write_blob, path_of_blob, read_blob, touch, delete_locked,
  delete_blob,
}

-- `after` has what the producer wrote at the path and every other file as before; the bytes
-- recorded for the user are within the quota.
pub record Writes (path user : Text) (producer : Producer) (before after : Backend) : Type 0 where
  pub files :
      (j : Text)
      → get j after.files ≡ (if text_eq path j then some producer.written else get j before.files)
  pub used : ℕ
  pub recorded : (usage_of user after).0 ≡ some used
  pub within : used ≤ before.quota * 1024
  pub same_quota : after.quota ≡ before.quota
  pub same_path : after.path ≡ before.path

-- The same files, quota and path.
pub record SameFiles (before after : Backend) : Type 0 where
  pub files : after.files ≡ before.files
  pub quota : after.quota ≡ before.quota
  pub path : after.path ≡ before.path

-- `after` has the part at the path and every other file as before.
pub record WritesPart (path part : Text) (before after : Backend) : Type 0 where
  pub files :
      (j : Text) → get j after.files ≡ (if text_eq path j then some part else get j before.files)
  pub same_quota : after.quota ≡ before.quota
  pub same_path : after.path ≡ before.path

-- How a write may end: with the blob written; or with every file as before; or with the part of
-- the blob that the producer has written before it failed.
abbrev pub WriteEnds : Text → Text → Producer → Backend → Result (Unit {0}) × Backend → Type 0
WriteEnds path user producer before (ok u, after) =
    (producer.failure ≡ none) × Writes path user producer before after
WriteEnds path user producer before (err e, after) =
    SameFiles before after
    ⊎ ((producer.failure ≡ some e) × WritesPart path producer.written before after)

module _ (sys : System) where
  get_total_storage-SameFiles :
      (now : ℕ) (user : Text) (b : Backend) → SameFiles b (get_total_storage sys now user b).1
  unfolding get_total_storage
  get_total_storage-SameFiles now user b = record {
    files = ground arith;
    quota = ground arith;
    path = ground arith;
  }

  write_within-Ends :
      (path user : Text) (producer : Producer) (before : Backend) (r : Result ℕ × Backend)
      → SameFiles before r.1
      → WriteEnds path user producer before (write_within sys path user producer r)
  unfolding write_within update_usage usage_of
  write_within-Ends path user producer before (err e, b) s = inl s
  write_within-Ends path user producer before (ok used, b) s =
      elim (Bool-cases (ltb (b.quota * 1024) (used + producer.length))) [
        | inl over ↦ rw over (inl s)
        | inr fits ↦ elim (Option-cases producer.failure) [
          | inr (e, failed) ↦
              rw (fits, failed)
                (inr (
                  refl,
                  record {
                    files = λ j. rw (sym s.files) (get-put path j producer.written b.files);
                    same_quota = s.quota;
                    same_path = s.path;
                  },
                ))
          | inl done ↦
              rw (fits, done)
                (
                  refl,
                  record {
                    files = λ j. rw (sym s.files) (get-put path j producer.written b.files);
                    used = used + producer.length;
                    recorded = ground (
                      arith,
                      get-put {V = Option ℕ × Option ℕ} user user
                          (some (used + producer.length), (usage_of user b).1) b.usage,
                      text_eq_refl user,
                    );
                    within = ground (arith, s.quota);
                    same_quota = s.quota;
                    same_path = s.path;
                  },
                )
        ]
      ]

  -- A write of a blob under its lock either returns, and has written what the producer gave and no
  -- other file, with the bytes recorded for the user within the quota; or it raises, and every file
  -- is as before; or it raises what the producer failed with, and the file has the part of the blob
  -- that was written until then, with every other file as before.
  pub write_locked-Ends :
      (path user : Text) (producer : Producer) (now : ℕ) (b : Backend)
      → WriteEnds path user producer b (write_locked sys path user producer now b)
  unfolding write_locked
  write_locked-Ends path user producer now b =
      write_within-Ends path user producer b (get_total_storage sys now user b)
        (get_total_storage-SameFiles now user b)

  get_path_to_write :
      (user blob_id namespace : Text) (b : Backend) {path : Text}
      → path_to_write sys user blob_id namespace b ≡ ok path
      → get_path sys b.path user blob_id namespace ≡ ok path
  unfolding path_to_write
  get_path_to_write user blob_id namespace b e = ground arith

  get_path_of_blob :
      (user blob_id namespace : Text) (b : Backend) {path : Text}
      → path_of_blob sys user blob_id namespace b ≡ ok path
      → get_path sys b.path user blob_id namespace ≡ ok path
  unfolding path_of_blob
  get_path_of_blob user blob_id namespace b e = ground arith

  read_blob-there :
      (user blob_id namespace content : Text) (b : Backend) {path : Text}
      → get_path sys b.path user blob_id namespace ≡ ok path
      → get path b.files ≡ some content
      → read_blob sys user blob_id namespace b ≡ ok content
  unfolding read_blob path_of_blob
  read_blob-there user blob_id namespace content b e held = ground arith

  path_of_blob-missing :
      (user blob_id namespace : Text) (b : Backend) {path : Text}
      → get_path sys b.path user blob_id namespace ≡ ok path
      → get path b.files ≡ none
      → path_of_blob sys user blob_id namespace b ≡ err blob_not_found
  unfolding path_of_blob
  path_of_blob-missing user blob_id namespace b e held = rw e (rw held refl)

  path_to_write-taken :
      (user blob_id namespace content : Text) (b : Backend) {path : Text}
      → get_path sys b.path user blob_id namespace ≡ ok path
      → get path b.files ≡ some content
      → path_to_write sys user blob_id namespace b ≡ err blob_exists
  unfolding path_to_write
  path_to_write-taken user blob_id namespace content b e held = ground arith

  write_blob_refused :
      (user blob_id namespace : Text) (producer : Producer) (now : ℕ) (b : Backend) {e : Error}
      → path_to_write sys user blob_id namespace b ≡ err e
      → write_blob sys user blob_id namespace producer now b ≡ (err e, b)
  unfolding write_blob
  write_blob_refused user blob_id namespace producer now b t = ground arith

  write_blob_allowed :
      (user blob_id namespace : Text) (producer : Producer) (now : ℕ) (b : Backend) {path : Text}
      → path_to_write sys user blob_id namespace b ≡ ok path
      → write_blob sys user blob_id namespace producer now b
        ≡ write_locked sys path user producer now b
  unfolding write_blob
  write_blob_allowed user blob_id namespace producer now b t = ground arith

  -- What a write has returned from is what is read: the blob has what the producer wrote, and its
  -- path is that of the write.
  pub read_blob-write_blob :
      (user blob_id namespace : Text) (producer : Producer) (now : ℕ) (b : Backend)
      {after : Backend}
      → write_blob sys user blob_id namespace producer now b ≡ (ok tt, after)
      → read_blob sys user blob_id namespace after ≡ ok producer.written
  read_blob-write_blob user blob_id namespace producer now b {after} wrote =
      go (path_to_write sys user blob_id namespace b) refl
    where
      go :
          (r : Result Text)
          → path_to_write sys user blob_id namespace b ≡ r
          → read_blob sys user blob_id namespace after ≡ ok producer.written
      go (err e) t =
          let same = sym (write_blob_refused user blob_id namespace producer now b t) ∙ wrote in cc
      go (ok path) t =
          let w =
            subst (WriteEnds path user producer b)
              (sym (write_blob_allowed user blob_id namespace producer now b t) ∙ wrote)
              (write_locked-Ends path user producer now b) in
          read_blob-there user blob_id namespace producer.written after
            (ap (λ root. get_path sys root user blob_id namespace) w.1.same_path
              ∙ get_path_to_write user blob_id namespace b t)
            (ground (arith, w.1.files path, text_eq_refl path))

  -- A write whose producer fails after the blob's file was opened leaves a blob: the part that was
  -- written is read as the blob's content, and no second write replaces it, since it raises
  -- BlobExists and leaves the backend as it is.
  pub write_blob_cut :
      (user blob_id namespace : Text) (producer again : Producer) (now later : ℕ) (b : Backend)
      {path : Text} {e : Error} {after : Backend}
      → path_to_write sys user blob_id namespace b ≡ ok path
      → write_blob sys user blob_id namespace producer now b ≡ (err e, after)
      → after.files ≢ b.files
      → (read_blob sys user blob_id namespace after ≡ ok producer.written)
        × (write_blob sys user blob_id namespace again later after ≡ (err blob_exists, after))
  write_blob_cut user blob_id namespace producer again now later b {path} {e} {after} t wrote
        changed =
      let ends =
        subst (WriteEnds path user producer b)
          (sym (write_blob_allowed user blob_id namespace producer now b t) ∙ wrote)
          (write_locked-Ends path user producer now b) in
      elim ends [
        | inl same ↦ absurd (changed same.files)
        | inr (_, w) ↦
            let found : get_path sys after.path user blob_id namespace ≡ ok path =
              ap (λ root. get_path sys root user blob_id namespace) w.same_path
              ∙ get_path_to_write user blob_id namespace b t in
            let held : get path after.files ≡ some producer.written =
              ground (arith, w.files path, text_eq_refl path) in
            (
              read_blob-there user blob_id namespace producer.written after found held,
              write_blob_refused user blob_id namespace again later after
                  (path_to_write-taken user blob_id namespace producer.written after found held),
            )
      ]

  get-delete_locked : (path : Text) (b : Backend) → get path (delete_locked sys path b).files ≡ none
  unfolding delete_locked
  get-delete_locked path b = ground (
    arith,
    get-remove (flags_of path) path (remove path (touch sys (deleted_of path) b.files)),
    get-remove path path (touch sys (deleted_of path) b.files),
    text_eq_refl path,
  )

  get_path-delete_locked :
      (user blob_id namespace : Text) (b : Backend) {path : Text}
      → get_path sys b.path user blob_id namespace ≡ ok path
      → get_path sys (delete_locked sys path b).path user blob_id namespace ≡ ok path
  unfolding delete_locked
  get_path-delete_locked user blob_id namespace b e = e

  delete_blob-there :
      (user blob_id namespace : Text) (b : Backend) {path : Text}
      → path_of_blob sys user blob_id namespace b ≡ ok path
      → delete_blob sys user blob_id namespace b ≡ (ok tt, delete_locked sys path b)
  unfolding delete_blob
  delete_blob-there user blob_id namespace b found = ground arith

  blob-missing :
      (user blob_id namespace : Text) (b : Backend)
      → path_of_blob sys user blob_id namespace b ≡ err blob_not_found
      → (read_blob sys user blob_id namespace b ≡ err blob_not_found)
        × (delete_blob sys user blob_id namespace b ≡ (err blob_not_found, b))
  unfolding delete_blob read_blob
  blob-missing user blob_id namespace b missing = (ground arith, ground arith)

  -- A blob that was deleted is not there: to read it or to delete it again raises BlobNotFound,
  -- and a second deletion changes nothing.
  pub delete_blob-gone :
      (user blob_id namespace : Text) (b : Backend) {path : Text} {after : Backend}
      → path_of_blob sys user blob_id namespace b ≡ ok path
      → delete_blob sys user blob_id namespace b ≡ (ok tt, after)
      → (read_blob sys user blob_id namespace after ≡ err blob_not_found)
        × (delete_blob sys user blob_id namespace after ≡ (err blob_not_found, after))
  delete_blob-gone user blob_id namespace b {path} {after} found deleted =
      let e : delete_locked sys path b ≡ after =
        ap (λ (r : Result (Unit {0}) × Backend). r.1)
          (sym (delete_blob-there user blob_id namespace b found) ∙ deleted) in
      blob-missing user blob_id namespace after (
        subst (λ a. path_of_blob sys user blob_id namespace a ≡ err blob_not_found) e
          (path_of_blob-missing user blob_id namespace (delete_locked sys path b)
            (get_path-delete_locked user blob_id namespace b
              (get_path_of_blob user blob_id namespace b found))
            (get-delete_locked path b)))
