-- ===== src/VectorClock/Decides.antt =====
-- `is_newer` decides `IsNewer`, whatever the order in which the dicts are walked.
use leap_soledad.Prelude.{
  ℕ, ◌≤◌, ◌<◌, ◌≡◌, refl, ◌∙◌, ◌↔◌, ◌⊎◌, inl, inr, Bool, true, false, none, some, [], ◌∷◌, Text,
  arith, ltb, text_eq, text_eq_iff, Bool-cases, Option-cases, if◌then◌else◌,
}
use leap_soledad.Prelude.Dict.{get, remove, get-remove, IsDict}
use leap_soledad.VectorClock.{Clock, newer_loop, is_newer}
use leap_soledad.VectorClock.Order.{
  Dominates, Exceeds, IsNewer, get-head, Exceeds-new, Exceeds-raised, Exceeds-later, Exceeds-remove,
  Dominates-new, Dominates-keyed,
}

module _ (k : Text) (v : ℕ) (a b : Clock) (newer : Bool) where
  newer_loop-miss : get k b ≡ none → newer_loop ((k, v) ∷ a) b newer ≡ newer_loop a b true
  unfolding newer_loop
  newer_loop-miss h = rw (h, newer_loop)

  newer_loop-hit :
      (w : ℕ)
      → get k b ≡ some w
      → newer_loop ((k, v) ∷ a) b newer
        ≡ (if ltb v w then false else newer_loop a (remove k b) (if ltb w v then true else newer))
  unfolding newer_loop
  newer_loop-hit w h = rw (h, newer_loop)

newer_loop_sound :
    (a b : Clock) (newer : Bool)
    → IsDict a
    → newer_loop a b newer ≡ true
    → Dominates a b × ((newer ≡ true) ⊎ Exceeds a b)
newer_loop_sound [] [] newer h e = unfold newer_loop get in (record { at = λ k w x. cc }, inl e)
newer_loop_sound [] (o ∷ b) newer h e = unfold newer_loop in cc
newer_loop_sound ((k, v) ∷ a) b newer h e = elim (Option-cases (get k b)) [
  | inl miss ↦
      let (d, _) = newer_loop_sound a b true h.1 (cc (newer_loop-miss k v a b newer miss)) in
      (Dominates-new k v a b h.0 miss d, inr (Exceeds-new k v a b h.0 miss))
  | inr (w, hit) ↦
      let after : newer_loop a (remove k b) (if ltb w v then true else newer) ≡ true =
        ground (arith, newer_loop-hit k v a b newer w hit) in
      let le : w ≤ v = ground (arith, newer_loop-hit k v a b newer w hit) in
      let (d, x) = newer_loop_sound a (remove k b) (if ltb w v then true else newer) h.1 after in
      (Dominates-keyed k v a b h.0 w hit le d, later w hit x (Bool-cases (ltb w v)))
]
  where
    later :
        (w : ℕ)
        → get k b ≡ some w
        → ((if ltb w v then true else newer) ≡ true) ⊎ Exceeds a (remove k b)
        → (ltb w v ≡ true) ⊎ (ltb w v ≡ false)
        → (newer ≡ true) ⊎ Exceeds ((k, v) ∷ a) b
    later w hit x (inl lt) = inr (Exceeds-raised k v a b h.0 w hit (ground arith))
    later w hit (inl same) (inr ge) = inl (ground arith)
    later w hit (inr x) (inr ge) = inr (Exceeds-later k v a b h.0 (Exceeds-remove k v a b h.0 x))

-- Dropping the head of the walk, once its key is settled.
module _ (k : Text) (v : ℕ) (a b : Clock) where
  get-head-ne : (j : Text) → text_eq k j ≡ false → get j ((k, v) ∷ a) ≡ get j a
  unfolding get
  get-head-ne j h = rw h

  Dominates-drop : get k b ≡ none → Dominates ((k, v) ∷ a) b → Dominates a b
  Dominates-drop miss d = record {
    at = λ j w e.
        let ne : text_eq k j ≡ false = ground (arith, text_eq_iff k j) in
        let (u, held, le) = d.at j w e in (u, cc (held, get-head-ne j ne), le);
  }

  Dominates-removed : Dominates ((k, v) ∷ a) b → Dominates a (remove k b)
  Dominates-removed d = record {
    at = λ j w e.
        let ne : text_eq k j ≡ false = ground (arith, get-remove k j b) in
        let (u, held, le) = d.at j w (ground (arith, get-remove k j b)) in
        (u, cc (held, get-head-ne j ne), le);
  }

  Dominates-at : (w : ℕ) → get k b ≡ some w → Dominates ((k, v) ∷ a) b → w ≤ v
  Dominates-at w hit d = let (u, held, le) = d.at k w hit in ground (arith, held, get-head k v a)

  Exceeds-removed :
      (w : ℕ) → get k b ≡ some w → v ≤ w → Exceeds ((k, v) ∷ a) b → Exceeds a (remove k b)
  Exceeds-removed w hit ge x = at (Bool-cases (text_eq k x.key))
    where
      at : (text_eq k x.key ≡ true) ⊎ (text_eq k x.key ≡ false) → Exceeds a (remove k b)
      at (inl same) =
          let e : k ≡ x.key = (text_eq_iff k x.key).0 same in
          let held : get k ((k, v) ∷ a) ≡ some x.value = cc (e, x.held) in
          let lt : w < x.value = x.above w (cc (e, hit)) in absurd (ground (arith, get-head k v a))
      at (inr other) = record {
        key = x.key;
        value = x.value;
        held = cc (x.held, get-head-ne x.key other);
        above = λ y e. x.above y (ground (arith, get-remove k x.key b));
      }

Dominates-empty : (b : Clock) → Dominates [] b → b ≡ []
unfolding get
Dominates-empty [] d = refl
Dominates-empty ((k, w) ∷ b) d = let (u, held, le) = d.at k w (get-head k w b) in cc

not-Exceeds-empty : (b : Clock) → ¬ Exceeds [] b
unfolding get
not-Exceeds-empty b x = cc x.held

newer_loop_complete :
    (a b : Clock) (newer : Bool)
    → Dominates a b
    → (newer ≡ true) ⊎ Exceeds a b
    → newer_loop a b newer ≡ true
newer_loop_complete [] b newer d (inr x) = absurd (not-Exceeds-empty b x)
newer_loop_complete [] b newer d (inl e) = rw (Dominates-empty b d) (unfold newer_loop in e)
newer_loop_complete ((k, v) ∷ a) b newer d x = elim (Option-cases (get k b)) [
  | inl miss ↦
      newer_loop-miss k v a b newer miss
      ∙ newer_loop_complete a b true (Dominates-drop k v a b miss d) (inl refl)
  | inr (w, hit) ↦
      let le : w ≤ v = Dominates-at k v a b w hit d in
      let rest =
        newer_loop_complete a (remove k b) (if ltb w v then true else newer)
          (Dominates-removed k v a b d) (later w hit x (Bool-cases (ltb w v))) in
      ground (arith, newer_loop-hit k v a b newer w hit)
]
  where
    later :
        (w : ℕ)
        → get k b ≡ some w
        → (newer ≡ true) ⊎ Exceeds ((k, v) ∷ a) b
        → (ltb w v ≡ true) ⊎ (ltb w v ≡ false)
        → ((if ltb w v then true else newer) ≡ true) ⊎ Exceeds a (remove k b)
    later w hit x (inl lt) = inl (ground arith)
    later w hit (inl same) (inr ge) = inl (ground arith)
    later w hit (inr y) (inr ge) = inr (Exceeds-removed k v a b w hit (ground arith) y)

Dominates-nil : (a : Clock) → Dominates a []
unfolding get
Dominates-nil a = record { at = λ k w e. cc }

is_newer_sound : (a b : Clock) → IsDict a → is_newer a b ≡ true → IsNewer a b
is_newer_sound [] b h e = unfold is_newer in cc
is_newer_sound ((k, v) ∷ a) [] h e = record {
  dominates = Dominates-nil ((k, v) ∷ a);
  exceeds = Exceeds-new k v a [] h.0 (unfold get in refl);
}
is_newer_sound ((k, v) ∷ a) (o ∷ b) h e =
    ofLoop (newer_loop_sound ((k, v) ∷ a) (o ∷ b) false h (unfold is_newer in e))
  where
    ofLoop :
        Dominates ((k, v) ∷ a) (o ∷ b) × ((false ≡ true) ⊎ Exceeds ((k, v) ∷ a) (o ∷ b))
        → IsNewer ((k, v) ∷ a) (o ∷ b)
    ofLoop (d, inl absurdity) = cc
    ofLoop (d, inr x) = record { dominates = d; exceeds = x }

pub is_newer_complete : (a b : Clock) → IsNewer a b → is_newer a b ≡ true
is_newer_complete [] b n = absurd (not-Exceeds-empty b n.exceeds)
is_newer_complete (x ∷ a) [] n = unfold is_newer in refl
is_newer_complete (x ∷ a) (o ∷ b) n =
    unfold is_newer in newer_loop_complete (x ∷ a) (o ∷ b) false n.dominates (inr n.exceeds)

-- `a.is_newer(b)` answers True exactly when `a` has every counter of `b`, none of them smaller,
-- and some counter that `b` lacks or has smaller. The keys of the dict `a` are distinct.
pub is_newer_iff : (a b : Clock) → IsDict a → (is_newer a b ≡ true) ↔ IsNewer a b
is_newer_iff a b h = (is_newer_sound a b h, is_newer_complete a b)
