-- ===== src/Blobs.antt =====
-- `FilesystemBlobsBackend` of src/leap/soledad/server/_blobs/fs_backend.py over a file system in
-- memory: a dict from paths to contents. Paths here, the operations in Blobs/Backend.
pub mod Backend
pub mod Laws
use leap_soledad.Prelude.{
  ℕ, Bool, true, false, ◌&&◌, ◌||◌, Option, none, some, List, [], ◌∷◌, ◌++◌, Text, text, leb, ◌==◌,
  not, take, if◌then◌else◌,
}
use leap_soledad.Prelude.Dict.{Dict}
use leap_soledad.Prelude.Result.{Result, ok, err, invalid_path, ◌>>=◌, ◌>>◌, raise_if}
use leap_soledad.Index.Lookup.{starts_with}

-- The files below the root, by path.
abbrev pub Files : Type 0
Files = Dict Text

-- The operating system and Python's library: `os.path.join`, `os.path.realpath`, the size that
-- `du -s -c` prints, in KiB, and `json` for a list of flags.
pub record System : Type 0 where
  pub join_path : List Text → Text
  pub realpath : Text → Text
  pub disk_usage : Text → Files → ℕ
  pub dumps_flags : List Text → Text
  pub loads_flags : Text → Option (List Text)

abbrev pub is_word_char : ℕ → Bool
is_word_char c =
    (leb b'a' c && leb c b'z')
    || (leb b'A' c && leb c b'Z')
    || (leb b'0' c && leb c b'9')
    || c == b'_'
    || c == b'-'

-- `VALID_STRINGS.match(s)`: one such character or more; `$` also matches before a last newline.
unfoldable pub matches_words : Text → Bool
matches_words [] = false
matches_words (c ∷ []) = is_word_char c
matches_words (c ∷ d ∷ []) = is_word_char c && (is_word_char d || d == 10)
matches_words (c ∷ d ∷ e ∷ s) = let rest = matches_words (d ∷ e ∷ s) in is_word_char c && rest

abbrev pub is_empty_text : Text → Bool
is_empty_text [] = true
is_empty_text (c ∷ s) = false

-- `_get_path_parts(blob_id, custom)` for a blob id that is not empty
unfoldable pub get_path_parts : Text → Text → List Text
get_path_parts blob_id custom =
    custom ∷ take 1 blob_id ∷ take 3 blob_id ∷ take 6 blob_id ∷ blob_id ∷ []

-- The list `parts` of `_get_path`.
unfoldable pub parts_of : Text → Text → Text → List Text
unfolding get_path_parts
parts_of user [] [] = user ∷ []
parts_of user [] (c ∷ namespace) = user ∷ (c ∷ namespace) ∷ []
parts_of user (b ∷ blob_id) [] = user ∷ get_path_parts (b ∷ blob_id) (text "default")
parts_of user (b ∷ blob_id) (c ∷ namespace) = user ∷ get_path_parts (b ∷ blob_id) (c ∷ namespace)

module _ (sys : System) (root : Text) where
  -- `_validate_path`, where `self.path` is `root`
  unfoldable pub validate_path : Text → Text → Text → Result Text
  validate_path desired_path user blob_id = do
    raise_if (not (matches_words user)) invalid_path
    raise_if (not (is_empty_text blob_id) && not (matches_words blob_id)) invalid_path
    raise_if (not (starts_with (sys.realpath desired_path) (sys.realpath root ++ (b'/' ∷ user))))
        invalid_path
    ok (sys.realpath desired_path)

  unfoldable pub get_path : Text → Text → Text → Result Text
  unfolding validate_path parts_of
  get_path user blob_id namespace =
      validate_path (sys.join_path (root ∷ parts_of user blob_id namespace)) user blob_id
