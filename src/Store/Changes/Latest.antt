-- ===== src/Store/Changes/Latest.antt =====
-- What `whats_changed` returns: the reversed walk with a set of seen ids gives the last entry of
-- each document, in the order of the log.
use mathlib.Core.List.{reverse, reverse-append, reverse-cons}
use leap_soledad.Prelude.{
  ℕ, suc, ◌+◌, ◌-◌, ◌≤◌, ◌<◌, ◌≡◌, refl, Bool, false, ◌||◌, some, List, [], ◌∷◌, ◌++◌, Text,
  text_eq, text_eq_iff, if◌then◌else◌, length, length-append, get_elem?, drop, All, All-weaken,
  Bool-cases, inl, inr, arith,
}
use leap_soledad.Store.Changes.{Change, seen_in, changes_loop, changes_of}

-- Whether an id has an entry in a list of entries.
unfoldable pub occurs : Text → List (Text × Text) → Bool
occurs doc_id [] = false
occurs doc_id (e ∷ entries) = text_eq e.0 doc_id || occurs doc_id entries

-- The entries after which their document does not change again, with their generations: the
-- reference that `changes_of` is compared with.
unfoldable pub latest : ℕ → List (Text × Text) → List Change
unfolding occurs
latest generation [] = []
latest generation (e ∷ entries) =
    let rest = latest (generation + 1) entries in
    if occurs e.0 entries then rest else (e.0, generation + 1, e.1) ∷ rest

-- The last item of the walk.
abbrev last_change : ℕ → List Text → List (Text × Text) → Text × Text → List Change
last_change generation seen entries e =
    if seen_in e.0 seen || occurs e.0 entries
    then []
    else (e.0, generation - length entries, e.1) ∷ []

changes_loop-append :
    (generation : ℕ) (seen : List Text) (entries : List (Text × Text)) (e : Text × Text)
    → changes_loop generation seen (entries ++ (e ∷ []))
      ≡ changes_loop generation seen entries ++ last_change generation seen entries e
unfolding changes_loop occurs
changes_loop-append generation seen [] e = ground arith
changes_loop-append generation seen ((d, t) ∷ entries) e = ground (
  arith,
  changes_loop-append (generation - 1) (if seen_in d seen then seen else d ∷ seen) entries e,
  text_eq_iff d e.0,
)

pub occurs-append :
    (doc_id : Text) (xs ys : List (Text × Text))
    → occurs doc_id (xs ++ ys) ≡ (occurs doc_id xs || occurs doc_id ys)
unfolding occurs
occurs-append doc_id [] ys = refl
occurs-append doc_id (x ∷ xs) ys = ground (arith, occurs-append doc_id xs ys)

occurs-reverse :
    (doc_id : Text) (xs : List (Text × Text)) → occurs doc_id (reverse xs) ≡ occurs doc_id xs
unfolding occurs
occurs-reverse doc_id [] = refl
occurs-reverse doc_id (x ∷ xs) =
    rw (reverse-append (x ∷ []) xs)
      (ground (arith, occurs-append doc_id (reverse xs) (x ∷ []), occurs-reverse doc_id xs))

length-reverse : (xs : List (Text × Text)) → length (reverse xs) ≡ length xs
length-reverse [] = refl
length-reverse (x ∷ xs) =
    rw reverse-cons (omega (arith, length-append (reverse xs) (x ∷ []), length-reverse xs))

last_change-first :
    (generation : ℕ) (e : Text × Text) (entries : List (Text × Text)) (n : ℕ)
    → n ≡ length entries
    → reverse (last_change (generation + suc n) [] (reverse entries) e)
      ≡ (if occurs e.0 entries then [] else (e.0, generation + 1, e.1) ∷ [])
unfolding seen_in
last_change-first generation e entries n h = rw (occurs-reverse, length-reverse) (ground arith)

-- The walk backwards through the log, with its list of seen documents, gives the changes that a
-- walk forwards gives which takes an entry where no later one is of the same document.
pub changes_of-eq-latest :
    (generation : ℕ) (entries : List (Text × Text))
    → changes_of generation entries ≡ latest generation entries
unfolding changes_of changes_loop latest
changes_of-eq-latest generation [] = refl
changes_of-eq-latest generation (e ∷ entries) =
    let shift : generation + suc (length entries) ≡ generation + 1 + length entries = omega arith in
    rw reverse-cons (
      rw changes_loop-append (
        rw reverse-append (
          rw (last_change-first generation e entries (length entries) refl)
            (rw shift (rw (changes_of-eq-latest (generation + 1) entries) (ground arith))))))

-- A change names an entry of the log after the old generation, and the last one of its document.
pub record IsLastChange (log : List (Text × Text)) (old : ℕ) (c : Change) : Type 0 where
  pub after : old < c.1
  pub entry : get_elem? log (c.1 - 1) ≡ some (c.0, c.2)
  pub last : occurs c.0 (drop c.1 log) ≡ false

-- The same, with positions counted from the old generation.
abbrev pub IsLastIn : List (Text × Text) → ℕ → Change → Type 0
IsLastIn entries old c =
    (old < c.1)
    × (get_elem? entries (c.1 - old - 1) ≡ some (c.0, c.2))
    × (occurs c.0 (drop (c.1 - old) entries) ≡ false)

IsLastIn-cons :
    (e : Text × Text) (entries : List (Text × Text)) (old : ℕ) (c : Change)
    → IsLastIn entries (old + 1) c
    → IsLastIn (e ∷ entries) old c
IsLastIn-cons e entries old c (after, entry, last) =
    let shift : c.1 - old ≡ suc (c.1 - (old + 1)) = omega arith in
    let shift' : c.1 - old - 1 ≡ suc (c.1 - (old + 1) - 1) = omega arith in
    (omega arith, rw shift' entry, rw shift last)

pub latest-IsLastIn :
    (old : ℕ) (entries : List (Text × Text)) → All (IsLastIn entries old) (latest old entries)
unfolding latest
latest-IsLastIn old [] = tt
latest-IsLastIn old (e ∷ entries) = add_first (
    All-weaken (IsLastIn entries (old + 1)) (IsLastIn (e ∷ entries) old) (latest (old + 1) entries)
      (IsLastIn-cons e entries old) (latest-IsLastIn (old + 1) entries))
  where
    first : get_elem? (e ∷ entries) (old + 1 - old - 1) ≡ some (e.0, e.1)
    first = let z : old + 1 - old - 1 ≡ 0 = omega arith in rw z

    here : occurs e.0 entries ≡ false → occurs e.0 (drop (old + 1 - old) (e ∷ entries)) ≡ false
    here last = let z : old + 1 - old ≡ 1 = omega arith in rw z last

    add_first :
        All (IsLastIn (e ∷ entries) old) (latest (old + 1) entries)
        → All (IsLastIn (e ∷ entries) old) (latest old (e ∷ entries))
    add_first rest = elim (Bool-cases (occurs e.0 entries)) [
      | inl again ↦ rw again rest
      | inr last ↦ rw last ((omega arith, first, here last), rest)
    ]

-- The ids of a list of changes.
abbrev pub names_doc : Text → List Change → Bool
names_doc doc_id [] = false
names_doc doc_id (c ∷ changes) = text_eq c.0 doc_id || names_doc doc_id changes

pub names_doc-latest :
    (doc_id : Text) (old : ℕ) (entries : List (Text × Text))
    → names_doc doc_id (latest old entries) ≡ occurs doc_id entries
unfolding latest occurs
names_doc-latest doc_id old [] = refl
names_doc-latest doc_id old (e ∷ entries) =
    ground (arith, names_doc-latest doc_id (old + 1) entries, text_eq_iff e.0 doc_id)

-- The generations rise from one change to the next.
abbrev pub IsAscending : ℕ → List Change → Type 0
IsAscending old [] = Unit
IsAscending old (c ∷ changes) = (old < c.1) × IsAscending c.1 changes

IsAscending-weaken :
    (m n : ℕ) (changes : List Change) → m ≤ n → IsAscending n changes → IsAscending m changes
IsAscending-weaken m n [] h a = tt
IsAscending-weaken m n (c ∷ changes) h a = (omega arith, a.1)

pub latest-IsAscending :
    (old : ℕ) (entries : List (Text × Text)) → IsAscending old (latest old entries)
unfolding latest
latest-IsAscending old [] = tt
latest-IsAscending old (e ∷ entries) = elim (Bool-cases (occurs e.0 entries)) [
  | inl again ↦
      rw again
        (IsAscending-weaken old (old + 1) _ (omega arith) (latest-IsAscending (old + 1) entries))
  | inr last ↦ rw last (omega arith, latest-IsAscending (old + 1) entries)
]

-- No document is named by two of the changes.
abbrev pub NamesOnce : List Change → Type 0
NamesOnce [] = Unit
NamesOnce (c ∷ changes) = (names_doc c.0 changes ≡ false) × NamesOnce changes

pub latest-NamesOnce : (old : ℕ) (entries : List (Text × Text)) → NamesOnce (latest old entries)
unfolding latest
latest-NamesOnce old [] = tt
latest-NamesOnce old (e ∷ entries) = elim (Bool-cases (occurs e.0 entries)) [
  | inl again ↦ rw again (latest-NamesOnce (old + 1) entries)
  | inr last ↦ rw last (rw names_doc-latest last, latest-NamesOnce (old + 1) entries)
]
