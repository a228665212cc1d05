-- ===== src/VectorClock/Order.antt =====
-- What `is_newer` decides: a strict partial order on clocks.
use leap_soledad.Prelude.{
  ℕ, ◌≤◌, ◌<◌, ◌≡◌, ◌⊎◌, inl, inr, true, false, none, some, ◌∷◌, Text, arith, text_eq, text_eq_iff,
  text_eq_refl, Bool-cases,
}
use leap_soledad.Prelude.Dict.{get, remove, get-remove}
use leap_soledad.VectorClock.{Clock}

-- Every counter of `b` is matched or passed by one of `a`.
pub record Dominates (a b : Clock) : Type 0 where
  pub at : (k : Text) (w : ℕ) → get k b ≡ some w → (v : ℕ) × (get k a ≡ some v) × (w ≤ v)

-- Some counter of `a` is missing in `b`, or larger than there.
pub record Exceeds (a b : Clock) : Type 0 where
  pub key : Text
  pub value : ℕ
  pub held : get key a ≡ some value
  pub above : (w : ℕ) → get key b ≡ some w → w < value

pub record IsNewer (a b : Clock) : Type 0 where
  pub dominates : Dominates a b
  pub exceeds : Exceeds a b

pub get-head : (k : Text) (v : ℕ) (a : Clock) → get k ((k, v) ∷ a) ≡ some v
unfolding get
get-head k v a = rw text_eq_refl

get-tail :
    (k j : Text) (v u : ℕ) (a : Clock)
    → get k a ≡ none
    → get j a ≡ some u
    → get j ((k, v) ∷ a) ≡ some u
unfolding get
get-tail k j v u a h e = ground (arith, text_eq_iff k j)

some-inj : (v w : ℕ) → some v ≡ some w → v ≡ w
some-inj v w e = cc

module _ (k : Text) (v : ℕ) (a b : Clock) (fresh : get k a ≡ none) where
  pub Exceeds-new : get k b ≡ none → Exceeds ((k, v) ∷ a) b
  Exceeds-new h = record { key = k; value = v; held = get-head k v a; above = λ w e. cc }

  pub Exceeds-raised : (w : ℕ) → get k b ≡ some w → w < v → Exceeds ((k, v) ∷ a) b
  Exceeds-raised w h lt = record {
    key = k;
    value = v;
    held = get-head k v a;
    above = λ x e. ground arith;
  }

  pub Exceeds-later : Exceeds a b → Exceeds ((k, v) ∷ a) b
  Exceeds-later x = record {
    key = x.key;
    value = x.value;
    held = get-tail k x.key v x.value a fresh x.held;
    above = x.above;
  }

  pub Exceeds-remove : Exceeds a (remove k b) → Exceeds a b
  Exceeds-remove x = record {
    key = x.key;
    value = x.value;
    held = x.held;
    above = λ w e. x.above w (ground (arith, get-remove k x.key b, text_eq_iff k x.key, x.held));
  }

  pub Dominates-new : get k b ≡ none → Dominates a b → Dominates ((k, v) ∷ a) b
  Dominates-new h d = record {
    at = λ j w e. let (u, held, le) = d.at j w e in (u, get-tail k j v u a fresh held, le);
  }

  pub Dominates-keyed :
      (w : ℕ) → get k b ≡ some w → w ≤ v → Dominates a (remove k b) → Dominates ((k, v) ∷ a) b
  Dominates-keyed w h le d = record { at = λ j x e. at j x e (Bool-cases (text_eq k j)) }
    where
      at :
          (j : Text) (x : ℕ)
          → get j b ≡ some x
          → (text_eq k j ≡ true) ⊎ (text_eq k j ≡ false)
          → (u : ℕ) × (get j ((k, v) ∷ a) ≡ some u) × (x ≤ u)
      at j x e (inl same) =
          (v, rw (← (text_eq_iff k j).0 same) (get-head k v a), ground (arith, text_eq_iff k j))
      at j x e (inr other) =
          let (u, held, l) = d.at j x (rw get-remove (rw other e)) in
          (u, get-tail k j v u a fresh held, l)

-- A clock is not newer than itself, nor than one that dominates it.
pub not-IsNewer_of_Dominates : (a b : Clock) → IsNewer a b → ¬ Dominates b a
not-IsNewer_of_Dominates a b n d =
    let x = n.exceeds in
    let (w, held, le) = d.at x.key x.value x.held in let lt = x.above w held in omega arith

pub Dominates-refl : (a : Clock) → Dominates a a
Dominates-refl a = record { at = λ k w e. (w, e, omega arith) }

pub Dominates-trans : (a b c : Clock) → Dominates a b → Dominates b c → Dominates a c
Dominates-trans a b c d e = record {
  at = λ k w h.
      let (v, held, le) = e.at k w h in
      let (u, held', le') = d.at k v held in (u, held', omega arith);
}

pub IsNewer-trans : (a b c : Clock) → IsNewer a b → Dominates b c → IsNewer a c
IsNewer-trans a b c n d = record {
  dominates = Dominates-trans a b c n.dominates d;
  exceeds = record {
    key = n.exceeds.key;
    value = n.exceeds.value;
    held = n.exceeds.held;
    above = λ w e.
        let (v, held, le) = d.at n.exceeds.key w e in
        let lt = n.exceeds.above v held in omega arith;
  };
}
