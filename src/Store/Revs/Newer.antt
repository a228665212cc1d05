-- ===== src/Store/Revs/Newer.antt =====
-- The revisions that a replica allocates are newer than those they are made from.
use leap_soledad.Prelude.{◌≡◌, subst, true, Option, some, List, [], ◌∷◌, Text, All}
use leap_soledad.Prelude.Dict.{IsDict}
use leap_soledad.Prelude.Sorting.{sorted, sorted-IsDict}
use leap_soledad.Prelude.Result.{ok, ok_of_bind, ok_injective, ◌>>=◌}
use leap_soledad.VectorClock.{Clock, is_newer, increment, maximize}
use leap_soledad.VectorClock.Order.{Dominates, Dominates-refl, Dominates-trans, IsNewer-trans}
use leap_soledad.VectorClock.Decides.{is_newer_iff}
use leap_soledad.VectorClock.Merge.{
  increment-IsDict, increment-IsNewer, maximize-IsDict, maximize-Dominates_left,
  maximize-Dominates_right,
}
use leap_soledad.VectorClock.Rev.{expand, as_str, expand-IsDict}
use leap_soledad.VectorClock.RoundTrip.{HasPlainUid, IsPlain, expand-as_str}
use leap_soledad.VectorClock.Plain.{
  increment-IsPlain, maximize-IsPlain, increment-ne-nil, expand-IsPlain, IsNewer-sorted,
}
use leap_soledad.Store.Revs.{allocate_doc_rev, maximize_all, ensure_maximal_rev}

-- Both revisions are well formed, and `is_newer` puts the first above the second.
pub record IsNewerRev (new : Text) (old : Option Text) : Type 0 where
  pub new_vcr : Clock
  pub old_vcr : Clock
  pub new_reads : expand (some new) ≡ ok new_vcr
  pub old_reads : expand old ≡ ok old_vcr
  pub newer : is_newer new_vcr old_vcr ≡ true

-- An incremented clock, printed, against a clock that it was at or above before.
printed_newer :
    (u : Text) (a b : Clock) (old : Option Text)
    → HasPlainUid (u, 0)
    → IsDict a
    → IsPlain a
    → Dominates a b
    → expand old ≡ ok b
    → IsNewerRev (as_str (increment u a)) old
printed_newer u a b old plain h p d reads = record {
  new_vcr = sorted (increment u a);
  old_vcr = b;
  new_reads =
      expand-as_str (increment u a) (increment-IsDict u a h) (increment-IsPlain u a plain p)
        (increment-ne-nil u a);
  old_reads = reads;
  newer =
      (is_newer_iff (sorted (increment u a)) b
          (sorted-IsDict (increment u a) (increment-IsDict u a h))).1
        (IsNewer-sorted (increment u a) b (increment-IsDict u a h)
          (IsNewer-trans (increment u a) a b (increment-IsNewer u a) d));
}

-- The revision that `_allocate_doc_rev` makes from an old one is newer than it. The replica's uid
-- holds neither `|` nor `:`.
pub allocate_doc_rev_newer :
    (replica_uid : Text) (old : Option Text) {new : Text}
    → HasPlainUid (replica_uid, 0)
    → allocate_doc_rev replica_uid old ≡ ok new
    → IsNewerRev new old
unfolding allocate_doc_rev
allocate_doc_rev_newer u old plain made =
    let (a, reads, e) = ok_of_bind (expand old) (λ (a : Clock). ok (as_str (increment u a))) made in
    subst (λ r. IsNewerRev r old) (ok_injective e)
      (printed_newer u a a old plain (expand-IsDict old reads) (expand-IsPlain old reads)
        (Dominates-refl a) reads)

-- A clock that is at or above that of a revision.
abbrev Covers : Clock → Text → Type 0
Covers m rev = (c : Clock) × (expand (some rev) ≡ ok c) × Dominates m c

maximize_all-Covers :
    (a : Clock) (revs : List Text) {m : Clock}
    → IsDict a
    → IsPlain a
    → maximize_all a revs ≡ ok m
    → IsDict m × IsPlain m × Dominates m a × All (Covers m) revs
unfolding maximize_all
maximize_all-Covers a [] {m} h p q =
    subst (λ x. IsDict x × IsPlain x × Dominates x a × Unit {0}) (ok_injective q)
      (h, p, Dominates-refl a, tt)
maximize_all-Covers a (rev ∷ revs) {m} h p q =
    let (c, reads, rest) =
      ok_of_bind (expand (some rev)) (λ (c : Clock). maximize_all (maximize a c) revs) q in
    let hc = expand-IsDict (some rev) reads in
    let (hm, pm, dm, all) =
      maximize_all-Covers (maximize a c) revs (maximize-IsDict a c h)
        (maximize-IsPlain a c p (expand-IsPlain (some rev) reads)) rest in
    (
      hm,
      pm,
      Dominates-trans m (maximize a c) a dm (maximize-Dominates_left a c hc),
      ((c, reads, Dominates-trans m (maximize a c) c dm (maximize-Dominates_right a c hc)), all),
    )

-- The revision that `_ensure_maximal_rev` makes is newer than the current one and than each of
-- the others. The replica's uid holds neither `|` nor `:`.
pub ensure_maximal_rev_newer :
    (replica_uid : Text) (cur_rev : Option Text) (extra_revs : List Text) {new : Text}
    → HasPlainUid (replica_uid, 0)
    → ensure_maximal_rev replica_uid cur_rev extra_revs ≡ ok new
    → IsNewerRev new cur_rev × All (λ rev. IsNewerRev new (some rev)) extra_revs
unfolding ensure_maximal_rev
ensure_maximal_rev_newer u cur extras {new} plain made =
    let (a, reads, e) =
      ok_of_bind (expand cur)
        (λ (a : Clock). maximize_all a extras >>= λ m. ok (as_str (increment u m))) made in
    let (m, merged, e') =
      ok_of_bind (maximize_all a extras) (λ (m : Clock). ok (as_str (increment u m))) e in
    let (hm, pm, dm, all) =
      maximize_all-Covers a extras (expand-IsDict cur reads) (expand-IsPlain cur reads) merged in
    (
      subst (λ r. IsNewerRev r cur) (ok_injective e')
          (printed_newer u m a cur plain hm pm dm reads),
      each m hm pm (ok_injective e') extras all,
    )
  where
    each :
        (m : Clock)
        → IsDict m
        → IsPlain m
        → as_str (increment u m) ≡ new
        → (revs : List Text) → All (Covers m) revs
        → All (λ rev. IsNewerRev new (some rev)) revs
    each m hm pm e [] all = tt
    each m hm pm e (rev ∷ revs) ((c, reads, d), all) = (
      subst (λ r. IsNewerRev r (some rev)) e (printed_newer u m c (some rev) plain hm pm d reads),
      each m hm pm e revs all,
    )
