-- ===== src/VectorClock/Plain.antt =====
-- A clock that was read from a text prints and reads back, and so does every clock made from it.
use leap_soledad.Prelude.{
  ℕ, ◌≡◌, ◌≢◌, ◌∙◌, ap, subst, Bool-cases, inl, inr, Option, none, some, List, [], ◌∷◌, Text,
  text_eq, arith, All,
}
use leap_soledad.Prelude.Dict.{put, IsDict}
use leap_soledad.Prelude.Split.{split, Lacks, split-Lacks, split-All}
use leap_soledad.Prelude.Decimal.{read}
use leap_soledad.Prelude.Sorting.{sorted, get-sorted}
use leap_soledad.Prelude.Result.{Result, ok, err, ok_of_bind}
use leap_soledad.VectorClock.{Clock, increment, raise_to, maximize}
use leap_soledad.VectorClock.Order.{Dominates, IsNewer}
use leap_soledad.VectorClock.Rev.{replica_info, expand_loop, expand}
use leap_soledad.VectorClock.RoundTrip.{HasPlainUid, IsPlain}

pub put-IsPlain :
    (u : Text) (c : ℕ) (d : Clock) → HasPlainUid (u, c) → IsPlain d → IsPlain (put u c d)
unfolding put
put-IsPlain u c [] h hd = (h, tt)
put-IsPlain u c ((j, w) ∷ d) h hd = elim (Bool-cases (text_eq j u)) [
  | inl same ↦ rw same hd
  | inr other ↦ rw other (hd.0, put-IsPlain u c d h hd.1)
]

pub increment-IsPlain :
    (u : Text) (d : Clock) → HasPlainUid (u, 0) → IsPlain d → IsPlain (increment u d)
unfolding increment
increment-IsPlain u d h hd = put-IsPlain u _ d h hd

raise_to-IsPlain :
    (u : Text) (c : ℕ) (d : Clock) → HasPlainUid (u, c) → IsPlain d → IsPlain (raise_to u c d)
unfolding raise_to
raise_to-IsPlain u c d h hd = ground (arith, put-IsPlain u c d h hd)

pub maximize-IsPlain : (d e : Clock) → IsPlain d → IsPlain e → IsPlain (maximize d e)
unfolding maximize
maximize-IsPlain d [] hd he = hd
maximize-IsPlain d ((u, c) ∷ e) hd he =
    maximize-IsPlain (raise_to u c d) e (raise_to-IsPlain u c d he.0 hd) he.1

pub put-ne-nil : (u : Text) (c : ℕ) (d : Clock) → put u c d ≢ []
unfolding put
put-ne-nil u c [] = ground arith
put-ne-nil u c (e ∷ d) = ground arith

pub increment-ne-nil : (u : Text) (d : Clock) → increment u d ≢ []
unfolding increment
increment-ne-nil u d = put-ne-nil u _ d

replica_info-uid :
    (P : Text → Type 0) (parts : List Text) {e : Text × ℕ}
    → All P parts
    → replica_info parts ≡ ok e
    → P e.0
unfolding replica_info
replica_info-uid P (u ∷ c ∷ []) {e} h q =
    let (n, _, made) = ok_of_bind (read c) (λ (n : ℕ). ok (u, n)) q in
    subst P (ap (λ (r : Result (Text × ℕ)). uid r) made) h.0
  where
    uid : Result (Text × ℕ) → Text
    uid (ok p) = p.0
    uid (err x) = e.0
replica_info-uid P [] h q = cc
replica_info-uid P (u ∷ []) h q = cc
replica_info-uid P (u ∷ c ∷ x ∷ parts) h q = cc

expand_loop-IsPlain :
    (a : Clock) (parts : List Text) {b : Clock}
    → IsPlain a
    → All (Lacks b'|') parts
    → expand_loop a parts ≡ ok b
    → IsPlain b
unfolding expand_loop
expand_loop-IsPlain a [] h hs q = ground arith
expand_loop-IsPlain a (part ∷ parts) h hs q =
    let (info, here, rest) =
      ok_of_bind (replica_info (split b':' part))
        (λ (info : Text × ℕ). expand_loop (put info.0 info.1 a) parts) q in
    expand_loop-IsPlain (put info.0 info.1 a) parts
      (put-IsPlain info.0 info.1 a
        (
          replica_info-uid (Lacks b'|') (split b':' part) (split-All (λ c. c ≢ b'|') b':' part hs.0)
              here,
          replica_info-uid (Lacks b':') (split b':' part) (split-Lacks b':' part) here,
        )
        h)
      hs.1 rest

-- No uid in a clock that was read holds a separator.
pub expand-IsPlain : (value : Option Text) {a : Clock} → expand value ≡ ok a → IsPlain a
unfolding expand
expand-IsPlain none q = ground arith
expand-IsPlain (some value) q =
    expand_loop-IsPlain [] (split b'|' value) tt (split-Lacks b'|' value) q

-- Sorting changes what no comparison sees.
pub Dominates-sorted : (a b : Clock) → IsDict a → Dominates a b → Dominates (sorted a) b
Dominates-sorted a b h d = record { at = λ k w q. rw (get-sorted k a h) (d.at k w q) }

pub IsNewer-sorted : (a b : Clock) → IsDict a → IsNewer a b → IsNewer (sorted a) b
IsNewer-sorted a b h n = record {
  dominates = Dominates-sorted a b h n.dominates;
  exceeds = record {
    key = n.exceeds.key;
    value = n.exceeds.value;
    held = get-sorted n.exceeds.key a h ∙ n.exceeds.held;
    above = n.exceeds.above;
  };
}
