-- ===== src/VectorClock/Merge.antt =====
-- `increment` and `maximize`: the next revision, and the least upper bound of two revisions.
use leap_soledad.Prelude.{
  ℕ, ◌+◌, ◌≤◌, ◌≡◌, refl, ◌∙◌, true, false, Option, none, some, [], ◌∷◌, Text, max, arith, text_eq,
  text_eq_iff, text_eq_refl, Bool-cases, Option-cases, if◌then◌else◌, ◌⊎◌, inl, inr,
}
use leap_soledad.Prelude.Dict.{get, get-put, put-IsDict, IsDict}
use leap_soledad.VectorClock.{Clock, counter_or_zero, increment, raise_to, maximize}
use leap_soledad.VectorClock.Order.{Dominates, IsNewer}

-- The counter of a replica after `increment`.
pub get-increment :
    (u j : Text) (a : Clock)
    → get j (increment u a)
      ≡ (if text_eq u j then some (counter_or_zero (get u a) + 1) else get j a)
unfolding increment
get-increment u j a = get-put u j _ a

pub increment-IsDict : (u : Text) (a : Clock) → IsDict a → IsDict (increment u a)
unfolding increment
increment-IsDict u a h = put-IsDict u _ a h

-- A clock that a replica increments is newer than it was, and no other replica's counter moves.
pub increment-IsNewer : (u : Text) (a : Clock) → IsNewer (increment u a) a
increment-IsNewer u a = record {
  dominates = record { at = λ k w e. at k w e (Bool-cases (text_eq u k)) };
  exceeds = record {
    key = u;
    value = counter_or_zero (get u a) + 1;
    held = rw get-increment (rw text_eq_refl);
    above = λ w e. rw e (omega arith);
  };
}
  where
    at :
        (k : Text) (w : ℕ)
        → get k a ≡ some w
        → (text_eq u k ≡ true) ⊎ (text_eq u k ≡ false)
        → (v : ℕ) × (get k (increment u a) ≡ some v) × (w ≤ v)
    at k w e (inl same) =
        (counter_or_zero (get u a) + 1, rw get-increment (rw same), ground (arith, text_eq_iff u k))
    at k w e (inr other) = (w, rw get-increment (rw (other, e)), omega arith)

-- The larger of two counters, where a replica that is not listed has none.
abbrev pub join : Option ℕ → Option ℕ → Option ℕ
join none y = y
join (some v) none = some v
join (some v) (some w) = some (max v w)

get-raise_to :
    (u j : Text) (c : ℕ) (a : Clock)
    → get j (raise_to u c a) ≡ (if text_eq u j then join (get u a) (some c) else get j a)
unfolding raise_to
get-raise_to u j c a = elim (Option-cases (get u a)) [
  | inl e ↦ rw (e, raise_to) (rw get-put)
  | inr (w, e) ↦ ground (arith, get-put u j c a, text_eq_iff u j)
]

raise_to-IsDict : (u : Text) (c : ℕ) (a : Clock) → IsDict a → IsDict (raise_to u c a)
unfolding raise_to
raise_to-IsDict u c a h = ground (arith, put-IsDict u c a h)

pub maximize-IsDict : (a b : Clock) → IsDict a → IsDict (maximize a b)
unfolding maximize
maximize-IsDict a [] h = h
maximize-IsDict a ((u, c) ∷ b) h = maximize-IsDict (raise_to u c a) b (raise_to-IsDict u c a h)

-- After `a.maximize(b)` each replica has the larger of its counters in `a` and in `b`. The keys
-- of the dict `b` are distinct.
pub get-maximize :
    (j : Text) (a b : Clock) → IsDict b → get j (maximize a b) ≡ join (get j a) (get j b)
unfolding maximize get
get-maximize j a [] h = ground arith
get-maximize j a ((u, c) ∷ b) h =
    get-maximize j (raise_to u c a) b h.1 ∙ ground (arith, get-raise_to u j c a, text_eq_iff u j)

join_left : (x y : Option ℕ) (w : ℕ) → x ≡ some w → (v : ℕ) × (join x y ≡ some v) × (w ≤ v)
join_left none y w e = cc
join_left (some x) none w e = (x, refl, ground arith)
join_left (some x) (some y) w e = (max x y, refl, ground arith)

join_right : (x y : Option ℕ) (w : ℕ) → y ≡ some w → (v : ℕ) × (join x y ≡ some v) × (w ≤ v)
join_right none y w e = (w, e, omega arith)
join_right (some x) none w e = cc
join_right (some x) (some y) w e = (max x y, refl, ground arith)

join_least : (x y : Option ℕ) (w : ℕ) → join x y ≡ some w → (x ≡ some w) ⊎ (y ≡ some w)
join_least none y w e = inr e
join_least (some x) none w e = inl e
join_least (some x) (some y) w e = ground arith

module _ (a b : Clock) (h : IsDict b) where
  pub maximize-Dominates_left : Dominates (maximize a b) a
  maximize-Dominates_left = record {
    at = λ k w e. rw (get-maximize k a b h) (join_left (get k a) (get k b) w e);
  }

  pub maximize-Dominates_right : Dominates (maximize a b) b
  maximize-Dominates_right = record {
    at = λ k w e. rw (get-maximize k a b h) (join_right (get k a) (get k b) w e);
  }

  pub maximize_least : (c : Clock) → Dominates c a → Dominates c b → Dominates c (maximize a b)
  maximize_least c da db = record {
    at = λ k w e. elim (join_least (get k a) (get k b) w (rw (get-maximize k a b h) at e)) [
      | inl e' ↦ da.at k w e'
      | inr e' ↦ db.at k w e'
    ];
  }

-- `maximize` is the least upper bound: the result dominates both clocks, and whatever dominates
-- both dominates it. The keys of the dict `b` are distinct.
pub maximize_lub :
    (a b : Clock)
    → IsDict b
    → Dominates (maximize a b) a
      × Dominates (maximize a b) b
      × ((c : Clock) → Dominates c a → Dominates c b → Dominates c (maximize a b))
maximize_lub a b h =
    (maximize-Dominates_left a b h, maximize-Dominates_right a b h, maximize_least a b h)
