-- ===== src/Index/Lookup.antt =====
-- The queries of `InMemoryIndex`: an exact key, a prefix with wildcards, a range.
use leap_soledad.Prelude.{
  ℕ, ◌+◌, Bool, true, false, not, ◌&&◌, Option, none, some, List, [], ◌∷◌, ◌++◌, map, Text, text,
  text_eq, text_lt, if◌then◌else◌, ◌==◌, length, take, is_some,
}
use leap_soledad.Prelude.Dict.{get}
use leap_soledad.Prelude.Sorting.{sorted}
use leap_soledad.Prelude.Split.{join}
use leap_soledad.Prelude.Result.{
  Result, ok, err, invalid_value_for_index, invalid_globbing, ◌>>=◌, ◌>>◌, raise_if,
}
use leap_soledad.Index.{Index, Entries}

-- `s.startswith(prefix)`
unfoldable pub starts_with : Text → Text → Bool
starts_with s [] = true
starts_with [] (p ∷ prefix) = false
starts_with (c ∷ s) (p ∷ prefix) = if c == p then starts_with s prefix else false

-- `val.endswith('*')`
unfoldable pub ends_in_star : Text → Bool
ends_in_star [] = false
ends_in_star (c ∷ []) = c == b'*'
ends_in_star (c ∷ d ∷ s) = ends_in_star (d ∷ s)

-- `s.rstrip('*')`
abbrev pub onto_stripped : ℕ → Text → Text
onto_stripped c [] = if c == b'*' then [] else c ∷ []
onto_stripped c (d ∷ s) = c ∷ d ∷ s

unfoldable pub strip_stars : Text → Text
strip_stars [] = []
strip_stars (c ∷ s) = onto_stripped c (strip_stars s)

unfoldable pub get_prefix : List Text → Text
unfolding strip_stars
get_prefix value = strip_stars (join 1 value)

-- The loop of `_find_non_wildcards` from the position `idx` on.
unfoldable pub scan_wildcards : ℕ → Bool → ℕ → List Text → Result (Bool × ℕ)
unfolding ends_in_star
scan_wildcards idx is_wildcard last [] = ok (is_wildcard, last)
scan_wildcards idx is_wildcard last (val ∷ values) =
    let star = text_eq val (text "*") in
    let last' = if star then last else idx + 1 in
    let rest = scan_wildcards (idx + 1) (ends_in_star val) last' values in
    if is_wildcard && not star then err invalid_globbing else rest

-- `_find_non_wildcards(values)`: `none` is -1, where no value is a wildcard.
unfoldable pub find_non_wildcards : Index → List Text → Result (Option ℕ)
unfolding scan_wildcards
find_non_wildcards index values = do
  raise_if (not (length values == length index.definition)) invalid_value_for_index
  (is_wildcard, last) ← scan_wildcards 0 false 0 values
  ok (if is_wildcard then some last else none)

-- `_lookup_exact`
unfoldable pub lookup_exact : Index → List Text → List Text
lookup_exact index value = elim (get (join 1 value) index.values) [
  | none ↦ []
  | some doc_ids ↦ doc_ids
]

-- The loop of `_lookup_prefix` over the sorted items.
unfoldable pub ids_under : Text → Entries → List Text
unfolding starts_with
ids_under key_prefix [] = []
ids_under key_prefix ((key, doc_ids) ∷ items) =
    let rest = ids_under key_prefix items in
    if starts_with key key_prefix then doc_ids ++ rest else rest

unfoldable pub lookup_prefix : Index → List Text → List Text
unfolding ids_under get_prefix
lookup_prefix index value = ids_under (get_prefix value) (sorted index.values)

unfoldable pub lookup : Index → List Text → Result (List Text)
unfolding find_non_wildcards
lookup index values = do
  last ← find_non_wildcards index values
  elim last [
    | none ↦ ok (lookup_exact index values)
    | some n ↦ ok (lookup_prefix index (take n values))
  ]

-- One bound of `lookup_range`: its prefix, and whether it has no wildcard. A bound that is not
-- given, or empty, is `none`, and so is an empty prefix.
abbrev pub bound_of : Text → Option Text
bound_of [] = none
bound_of (c ∷ s) = some (c ∷ s)

unfoldable pub range_bound : Index → Option (List Text) → Result (Option Text × Bool)
unfolding find_non_wildcards get_prefix
range_bound index none = ok (none, false)
range_bound index (some []) = ok (none, false)
range_bound index (some (v ∷ values)) = do
  last ← find_non_wildcards index (v ∷ values)
  ok (bound_of (get_prefix (v ∷ values)), not (is_some last))

-- `start_values and start_values > key`
abbrev pub is_before : Option Text → Text → Bool
is_before none key = false
is_before (some start) key = text_lt key start

-- Whether the loop of `lookup_range` breaks at `key`.
unfoldable pub is_after : Option Text → Bool → Text → Bool
unfolding starts_with
is_after none exact key = false
is_after (some end_) exact key =
    text_lt end_ key && (if exact then true else not (starts_with key end_))

unfoldable pub ids_between : Option Text → Option Text → Bool → Entries → List Text
unfolding is_after
ids_between start end_ exact [] = []
ids_between start end_ exact ((key, doc_ids) ∷ items) =
    let rest = ids_between start end_ exact items in
    if is_before start key then rest else if is_after end_ exact key then [] else doc_ids ++ rest

unfoldable pub lookup_range : Index → Option (List Text) → Option (List Text) → Result (List Text)
unfolding range_bound ids_between
lookup_range index start_values end_values = do
  (start, _) ← range_bound index start_values
  (end_, exact) ← range_bound index end_values
  ok (ids_between start end_ exact (sorted index.values))

-- `keys()`
unfoldable pub keys : Index → List Text
keys index = map (λ e. e.0) index.values
