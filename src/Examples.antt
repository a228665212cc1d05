-- ===== src/Examples.antt =====
-- A concrete instance of Python's library and a few databases, on which each theorem is applied.
pub mod Clocks
pub mod Documents
pub mod Stores
pub mod Incoming
pub mod Syncs
pub mod Servers
pub mod Disks
pub mod Wires
pub mod Uploads
pub mod Transfers
pub mod Backends
use leap_soledad.Prelude.{Bool, true, false, Option, none, some, [], ◌∷◌, ◌==◌, text, if◌then◌else◌}
use leap_soledad.Json.{Value, Python, null, dict, end}
use leap_soledad.Document.{Document}
use leap_soledad.Store.State.{Db, new_db}
use leap_soledad.Store.Reach.{Call, after, put}

abbrev is_empty_dict : Value → Bool
is_empty_dict (dict end) = true
is_empty_dict _ = false

-- A library that knows one JSON text, `{}`, and takes whatever starts with `{` for it.
abbrev pub python : Python
python = record {
  loads = λ s. elim s [ [] ↦ none | c ∷ s' ↦ if c == b'{' then some (dict end) else none ];
  dumps = λ v. text "{}";
  value_eq = λ v w. if is_empty_dict v then is_empty_dict w else false;
  lower = λ s. s;
  words = λ s. s ∷ [];
}

abbrev pub note : Document
note = record {
  doc_id = some (text "note");
  rev = none;
  json = some (text "{}");
  content = none;
  has_conflicts = false;
}

-- A database with one document, `note`, in its first revision.
abbrev pub one_note : Db
one_note = record (new_db (text "alice")) {
  docs = (text "note", (some (text "alice:1"), some (text "{}"))) ∷ [];
  transaction_log = (text "note", text "T-1") ∷ [];
}
