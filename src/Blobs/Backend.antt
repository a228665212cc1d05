-- ===== src/Blobs/Backend.antt =====
-- The operations of `FilesystemBlobsBackend`. The lock of `isolated` holds for the body of an
-- operation only: the test whether the file is there comes before it, so that `write_blob` and
-- `delete_blob` are a test and a body. Sizes are in bytes where the source has KiB as floats.
use leap_soledad.Prelude.{
  ℕ, ◌+◌, ◌*◌, Bool, true, false, not, Option, none, some, List, [], ◌∷◌, ◌++◌, Text, text, text_eq,
  length, ltb, if◌then◌else◌,
}
use leap_soledad.Prelude.Dict.{Dict, get, put, remove, contains}
use leap_soledad.Prelude.Result
use leap_soledad.Prelude.Result.{
  Error, Result, ok, err, ◌>>=◌, ◌>>◌, or_raise, blob_not_found, blob_exists, quota_exceeded,
  invalid_flag, value_error, type_error,
}
use leap_soledad.Blobs.{Files, System, get_path}

-- `usage` has for a user the bytes used and the time when `du` was last asked; a user without an
-- entry has None for both. `quota` is in KiB.
pub record Backend : Type 0 where
  pub files : Files
  pub usage : Dict (Option ℕ × Option ℕ)
  pub quota : ℕ
  pub path : Text

-- The body of the request, as `startProducing` streams it: the length that it announces, the bytes
-- it has written when it ends, and the exception it ends with, if any.
pub record Producer : Type 0 where
  pub length : ℕ
  pub written : Text
  pub failure : Option Error

abbrev pub flags_of : Text → Text
flags_of path = path ++ text ".flags"

abbrev pub deleted_of : Text → Text
deleted_of path = path ++ text ".deleted"

-- `self.usage[user]`
unfoldable pub usage_of : Text → Backend → Option ℕ × Option ℕ
usage_of user b = elim (get user b.usage) [ none ↦ (none, none) | some entry ↦ entry ]

unfoldable pub update_usage : Text → ℕ → Backend → Backend
unfolding usage_of
update_usage user used b = record b { usage = put user (some used, (usage_of user b).1) b.usage }

abbrev pub usage_timeout : ℕ
usage_timeout = 30

-- Whether `du` has to be asked again.
unfoldable pub is_stale : ℕ → Option ℕ × Option ℕ → Result Bool
is_stale now (none, timestamp) = ok true
is_stale now (some used, none) = err type_error
is_stale now (some used, some timestamp) = ok (ltb (timestamp + usage_timeout) now)

module _ (sys : System) where
  -- `get_total_storage`: the bytes used
  unfoldable pub get_total_storage : ℕ → Text → Backend → Result ℕ × Backend
  unfolding is_stale usage_of get_path
  get_total_storage now user b = elim (is_stale now (usage_of user b)) [
    | err e ↦ (err e, b)
    | ok false ↦ (or_raise (usage_of user b).0 type_error, b)
    | ok true ↦ elim (get_path sys b.path user [] []) [
      | err e ↦ (err e, b)
      | ok path ↦
          let used = sys.disk_usage path b.files * 1024 in
          (ok used, record b { usage = put user (some used, some now) b.usage })
    ]
  ]

  -- The body of `_write_blob` once the bytes used are known: the file is opened, and the producer
  -- writes to it. Where the producer fails, what it has written so far stays in the file, and the
  -- usage is not counted.
  unfoldable pub write_within :
      Text → Text → Producer → Result ℕ × Backend → Result (Unit {0}) × Backend
  unfolding update_usage
  write_within path user producer (err e, b) = (err e, b)
  write_within path user producer (ok used, b) =
      let opened = record b { files = put path producer.written b.files } in
      if ltb (b.quota * 1024) (used + producer.length)
      then (err quota_exceeded, b)
      else elim producer.failure [
        | none ↦ (ok tt, update_usage user (used + producer.length) opened)
        | some e ↦ (err e, opened)
      ]

  -- `_write_blob`, under the lock
  unfoldable pub write_locked : Text → Text → Producer → ℕ → Backend → Result (Unit {0}) × Backend
  unfolding write_within get_total_storage
  write_locked path user producer now b =
      write_within path user producer (get_total_storage now user b)

  -- The test of `write_blob`, before the lock: the path of the new blob.
  unfoldable pub path_to_write : Text → Text → Text → Backend → Result Text
  path_to_write user blob_id namespace b = do
    path ← get_path sys b.path user blob_id namespace
    Result.raise_if (contains path b.files) blob_exists
    ok path

  unfoldable pub write_blob :
      Text → Text → Text → Producer → ℕ → Backend → Result (Unit {0}) × Backend
  unfolding path_to_write write_locked
  write_blob user blob_id namespace producer now b = elim (path_to_write user blob_id namespace b) [
    | err e ↦ (err e, b)
    | ok path ↦ write_locked path user producer now b
  ]

  -- The test of the other operations: the path of a blob that is there.
  unfoldable pub path_of_blob : Text → Text → Text → Backend → Result Text
  path_of_blob user blob_id namespace b = do
    path ← get_path sys b.path user blob_id namespace
    Result.raise_if (not (contains path b.files)) blob_not_found
    ok path

  -- What `read_blob` sends for the whole file.
  unfoldable pub read_blob : Text → Text → Text → Backend → Result Text
  unfolding path_of_blob
  read_blob user blob_id namespace b = do
    path ← path_of_blob user blob_id namespace b
    or_raise (get path b.files) blob_not_found

  unfoldable pub get_blob_size : Text → Text → Text → Backend → Result ℕ
  unfolding path_of_blob
  get_blob_size user blob_id namespace b = do
    path ← path_of_blob user blob_id namespace b
    content ← or_raise (get path b.files) blob_not_found
    ok (length content)

  -- `open(path, 'a')`: a file that is there stays as it is.
  unfoldable pub touch : Text → Files → Files
  touch path files = if contains path files then files else put path [] files

  -- `_delete_blob`: the marker, then the file and its flags go.
  unfoldable pub delete_locked : Text → Backend → Backend
  unfolding touch
  delete_locked path b = record b {
    files = remove (flags_of path) (remove path (touch (deleted_of path) b.files));
  }

  unfoldable pub delete_blob : Text → Text → Text → Backend → Result (Unit {0}) × Backend
  unfolding path_of_blob delete_locked
  delete_blob user blob_id namespace b = elim (path_of_blob user blob_id namespace b) [
    | err e ↦ (err e, b)
    | ok path ↦ (ok tt, delete_locked path b)
  ]

  -- `flag in ACCEPTED_FLAGS`
  abbrev is_accepted : Text → Bool
  is_accepted flag =
      if text_eq flag (text "PENDING")
      then true
      else if text_eq flag (text "PROCESSING")
      then true
      else if text_eq flag (text "PROCESSED")
      then true
      else text_eq flag (text "FAILED")

  unfoldable pub all_accepted : List Text → Bool
  all_accepted [] = true
  all_accepted (flag ∷ flags) =
      let rest = all_accepted flags in if is_accepted flag then rest else false

  unfoldable pub set_flags : Text → Text → List Text → Text → Backend → Result (Unit {0}) × Backend
  unfolding path_of_blob all_accepted
  set_flags user blob_id flags namespace b = elim (path_of_blob user blob_id namespace b) [
    | err e ↦ (err e, b)
    | ok path ↦
        if all_accepted flags
        then (ok tt, record b { files = put (flags_of path) (sys.dumps_flags flags) b.files })
        else (err invalid_flag, b)
  ]

  unfoldable pub get_flags : Text → Text → Text → Backend → Result (List Text)
  unfolding path_of_blob
  get_flags user blob_id namespace b = do
    path ← path_of_blob user blob_id namespace b
    elim (get (flags_of path) b.files) [
      | none ↦ ok []
      | some raw_flags ↦ or_raise (sys.loads_flags raw_flags) value_error
    ]
