-- ===== src/Wire/Reader.antt =====
-- `_FencedReader` of src/leap/soledad/common/l2db/remote/http_app.py: the server's reading of the lines of a
-- request, up to its length.
pub mod Left
pub mod Getline
use leap_soledad.Prelude.{
  ℕ, zero, suc, ◌+◌, ◌-◌, min, Bool, true, false, Option, none, some, List, [], ◌∷◌, ◌++◌, Text,
  length, take, drop, ◌==◌, ltb, if◌then◌else◌,
}
use leap_soledad.Prelude.Result.{Result, ok, err, bad_request, out_of_fuel}

-- `file` is what the WSGI input has yet to give: `read(n)` gives the next n characters, fewer only
-- at its end.
pub record FencedReader : Type 0 where
  pub file : Text
  pub remaining : ℕ
  pub max_entry_size : ℕ
  pub kept : Option Text

-- `_FencedReader(rfile, total, max_entry_size)`
abbrev pub new_reader : Text → ℕ → ℕ → FencedReader
new_reader file total max_entry_size = record {
  file = file;
  remaining = total;
  max_entry_size = max_entry_size;
  kept = none;
}

abbrev pub read_file : ℕ → FencedReader → Text × FencedReader
read_file atmost r =
    if r.remaining == 0
    then ([], r)
    else (let n = min r.remaining atmost in
        let data_ = take n r.file in
        (data_, record r { file = drop n r.file; remaining = r.remaining - length data_ }))

abbrev pub kept_or_read : Option Text → ℕ → FencedReader → Text × FencedReader
kept_or_read (some kept) atmost r = (kept, record r { kept = none })
kept_or_read none atmost r = read_file atmost r

unfoldable pub read_chunk : ℕ → FencedReader → Text × FencedReader
read_chunk atmost r = kept_or_read r.kept atmost r

-- MAXCHUNK
abbrev pub max_chunk : ℕ
max_chunk = 8192

abbrev pub put_front : ℕ → Option (Text × Text) → Option (Text × Text)
put_front c none = none
put_front c (some (line, rest)) = some (c ∷ line, rest)

-- The text up to its first line feed and that, and the rest.
unfoldable pub cut_line : Text → Option (Text × Text)
cut_line [] = none
cut_line (c ∷ s) = if c == 10 then some (c ∷ [], s) else put_front c (cut_line s)

-- `rest or None`
abbrev pub rest_or_none : Text → Option Text
rest_or_none [] = none
rest_or_none (c ∷ s) = some (c ∷ s)

-- The end of a turn of the loop in `getline`, by where the chunk has a line feed; `line` is what
-- the parts so far join to, and `more` is the next turn.
abbrev pub take_chunk :
    Text
    → ℕ
    → Text
    → FencedReader
    → (Text → ℕ → FencedReader → Result (Text × FencedReader))
    → Option (Text × Text)
    → Result (Text × FencedReader)
take_chunk line size chunk r more (some (start, rest)) =
    if ltb r.max_entry_size (size + length start)
    then err bad_request
    else ok (line ++ start, record r { kept = rest_or_none rest })
take_chunk line size chunk r more none = elim (ltb r.max_entry_size (size + length chunk)) [
  | true ↦ err bad_request
  | false ↦ more (line ++ chunk) (size + length chunk) r
]

abbrev pub unless_ended :
    Text
    → ℕ
    → FencedReader
    → (Text → ℕ → FencedReader → Result (Text × FencedReader))
    → Text
    → Result (Text × FencedReader)
unless_ended line size r more [] = ok (line, r)
unless_ended line size r more (c ∷ chunk) =
    take_chunk line size (c ∷ chunk) r more (cut_line (c ∷ chunk))

unfoldable pub getline_loop : ℕ → Text → ℕ → FencedReader → Result (Text × FencedReader)
unfolding read_chunk cut_line
getline_loop zero line size r = err out_of_fuel
getline_loop (suc fuel) line size r =
    let (chunk, r') = read_chunk max_chunk r in unless_ended line size r' (getline_loop fuel) chunk

-- `getline()`: each turn but the first takes from what remains.
unfoldable pub getline : FencedReader → Result (Text × FencedReader)
unfolding getline_loop
getline r = getline_loop (r.remaining + 2) [] 0 r
