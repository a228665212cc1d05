-- ===== src/Examples/Disks.antt =====
-- The theorems on the blobs backend over a small disk.
use leap_soledad.Prelude.{◌≡◌, refl, none, some, [], ◌∷◌, Text, text, text_eq}
use leap_soledad.Prelude.Dict.{get, put}
use leap_soledad.Prelude.Split.{join}
use leap_soledad.Prelude.Result.{ok, err, blob_not_found, blob_exists, value_error}
use leap_soledad.Blobs.{System, get_path, matches_words}
use leap_soledad.Index.Lookup.{starts_with}
use leap_soledad.Blobs.Backend.{
  Backend, Producer, path_to_write, write_locked, write_blob, path_of_blob, read_blob, delete_blob,
}
use leap_soledad.Blobs.Laws.{
  WriteEnds, write_locked-Ends, read_blob-write_blob, write_blob_cut, delete_blob-gone,
}

abbrev disk : System
disk = record {
  join_path = join b'/';
  realpath = λ path. path;
  disk_usage = λ path files. 0;
  dumps_flags = λ flags. text "[]";
  loads_flags = λ s. some [];
}

abbrev fresh_disk : Backend
fresh_disk = record { files = []; usage = []; quota = 1; path = text "/b" }

abbrev cat_path : Text
cat_path = text "/b/u/default/c/cat/cat/cat"

-- The disk with one blob, at the second 100.
abbrev with_cat : Text → Backend
with_cat content = record fresh_disk {
  files = (cat_path, content) ∷ [];
  usage = (text "u", (some 3, some 100)) ∷ [];
}

-- A body that comes in full, and one whose connection is lost after its first byte.
abbrev whole : Producer
whole = record { length = 3; written = text "old"; failure = none }

abbrev lost : Producer
lost = record { length = 3; written = text "o"; failure = some value_error }

abbrev with_part : Backend
with_part = record fresh_disk {
  files = (cat_path, text "o") ∷ [];
  usage = (text "u", (some 0, some 100)) ∷ [];
}

write_locked-Ends_example :
    WriteEnds cat_path
      (text "u")
      lost
      fresh_disk
      (write_locked disk cat_path (text "u") lost 100 fresh_disk)
write_locked-Ends_example = write_locked-Ends disk cat_path (text "u") lost 100 fresh_disk

finds_path : path_to_write disk (text "u") (text "cat") [] fresh_disk ≡ ok cat_path
unfolding path_to_write get_path matches_words starts_with join get
finds_path = refl

writes_cat :
    write_blob disk (text "u") (text "cat") [] whole 100 fresh_disk ≡ (ok tt, with_cat (text "old"))
unfolding write_blob matches_words starts_with join get put text_eq
writes_cat = refl

read_blob-write_blob_example :
    read_blob disk (text "u") (text "cat") [] (with_cat (text "old")) ≡ ok (text "old")
read_blob-write_blob_example =
    read_blob-write_blob disk (text "u") (text "cat") [] whole 100 fresh_disk writes_cat

writes_part :
    write_blob disk (text "u") (text "cat") [] lost 100 fresh_disk ≡ (err value_error, with_part)
unfolding write_blob matches_words starts_with join get put text_eq
writes_part = refl

write_blob_cut_example :
    (read_blob disk (text "u") (text "cat") [] with_part ≡ ok (text "o"))
    × (write_blob disk (text "u") (text "cat") [] whole 101 with_part
        ≡ (err blob_exists, with_part))
write_blob_cut_example =
    write_blob_cut disk (text "u") (text "cat") [] lost whole 100 101 fresh_disk finds_path
      writes_part λ same. cc

abbrev without_cat : Backend
without_cat = (delete_blob disk (text "u") (text "cat") [] (with_cat (text "old"))).1

finds_cat : path_of_blob disk (text "u") (text "cat") [] (with_cat (text "old")) ≡ ok cat_path
unfolding path_of_blob get_path matches_words starts_with join get text_eq
finds_cat = refl

deletes_cat :
    delete_blob disk (text "u") (text "cat") [] (with_cat (text "old")) ≡ (ok tt, without_cat)
unfolding delete_blob get_path matches_words starts_with join get text_eq
deletes_cat = refl

delete_blob-gone_example :
    (read_blob disk (text "u") (text "cat") [] without_cat ≡ err blob_not_found)
    × (delete_blob disk (text "u") (text "cat") [] without_cat ≡ (err blob_not_found, without_cat))
delete_blob-gone_example =
    delete_blob-gone disk (text "u") (text "cat") [] (with_cat (text "old")) finds_cat deletes_cat
