-- ===== src/Server/Staging.antt =====
-- `SyncResource.post_put` of src/leap/soledad/server/sync.py: incoming documents are gathered, and
-- inserted as a batch when they are large or when the last one has come. An entry has its document
-- built: the constructor, which refuses a content that is no JSON object, comes before `post_put`
-- here.
use leap_soledad.Prelude.{
  ℕ, ◌+◌, ◌*◌, ◌≤◌, ◌≡◌, refl, ◌∙◌, ap, ap₂, Bool, true, false, ◌||◌, List, [], ◌∷◌, ◌++◌, ltb,
  ◌==◌, arith, All, append_assoc, if◌then◌else◌,
}
use leap_soledad.Prelude.Result.{Result, ok, err}
use leap_soledad.Document.{text_size}
use leap_soledad.Server.Exchange.{Backend, Entry, Exchange, batched_insert_from_source}

abbrev pub entry_cache_size : ℕ
entry_cache_size = 8192 * 1024

-- The resource's exchange, `_staging` and `_staging_size`.
pub record Staging (S : Type 0) : Type 0 where
  pub exch : Exchange S
  pub staging : List Entry
  pub staging_size : ℕ

-- `len(content or '')`
abbrev pub content_size : Entry → ℕ
content_size e = text_size e.doc.json

abbrev pub is_last : Entry → Bool
is_last e = e.doc_idx == e.number_of_docs

module _ {S : Type 0} (b : Backend S) where
  -- What follows the insertion of a batch: the staging is emptied, unless an exception was raised.
  abbrev pub flushed : Staging S → Result (Unit {0}) × Exchange S → Result (Unit {0}) × Staging S
  flushed x (ok u, exch) = (ok tt, record { exch = exch; staging = []; staging_size = 0 })
  flushed x (err e, exch) = (err e, record x { exch = exch })

  unfoldable pub post_put : Entry → Staging S → Result (Unit {0}) × Staging S
  post_put e x =
      let x' : Staging S = record x {
        staging = x.staging ++ (e ∷ []);
        staging_size = x.staging_size + content_size e;
      } in
      if ltb entry_cache_size (x.staging_size + content_size e) || is_last e
      then flushed x' (batched_insert_from_source b (x.staging ++ (e ∷ [])) x.exch)
      else (ok tt, x')

  -- Requests one after the other; the first that raises ends them.
  abbrev and_post :
      Result (Unit {0}) × Staging S
      → (Staging S → Result (Unit {0}) × Staging S)
      → Result (Unit {0}) × Staging S
  and_post (ok u, x) more = more x
  and_post (err e, x) more = (err e, x)

  abbrev pub posts : List Entry → Staging S → Result (Unit {0}) × Staging S
  posts [] x = (ok tt, x)
  posts (e ∷ es) x = and_post (post_put e x) (posts es)

  abbrev pub total_size : List Entry → ℕ
  total_size [] = 0
  total_size (e ∷ es) = content_size e + total_size es

  -- The staging with one more entry.
  abbrev pub staged : Entry → Staging S → Staging S
  staged e x = record x {
    staging = x.staging ++ (e ∷ []);
    staging_size = x.staging_size + content_size e;
  }

  post_put-last :
      (e : Entry) (x : Staging S)
      → is_last e ≡ true
      → post_put e x
        ≡ flushed (staged e x) (batched_insert_from_source b (x.staging ++ (e ∷ [])) x.exch)
  unfolding post_put
  post_put-last e x last = ground arith

  post_put-early :
      (e : Entry) (x : Staging S)
      → is_last e ≡ false
      → x.staging_size + content_size e ≤ entry_cache_size
      → post_put e x ≡ (ok tt, staged e x)
  unfolding post_put
  post_put-early e x before fits = ground arith

  and_post-end : (r : Result (Unit {0}) × Staging S) → and_post r (posts []) ≡ r
  and_post-end (ok u, x) = refl
  and_post-end (err e, x) = refl

  -- All of `entries`, of that size, inserted as one batch.
  abbrev pub one_batch : List Entry → ℕ → Staging S → Result (Unit {0}) × Staging S
  one_batch entries size x =
      flushed (record x { staging = entries; staging_size = size })
        (batched_insert_from_source b entries x.exch)

  -- A session's documents that fit the cache together, the last of them marked as the last, are
  -- inserted as one batch in the order in which they came, after what was staged before them. The
  -- size of the last one does not matter.
  pub posts-one_batch :
      (es : List Entry) (e : Entry) (x : Staging S)
      → All (λ e. is_last e ≡ false) es
      → is_last e ≡ true
      → x.staging_size + total_size es ≤ entry_cache_size
      → posts (es ++ (e ∷ [])) x
        ≡ one_batch (x.staging ++ (es ++ (e ∷ []))) (x.staging_size + total_size (es ++ (e ∷ []))) x
  posts-one_batch [] e x before last fits =
      and_post-end (post_put e x)
      ∙ post_put-last e x last
      ∙ ap (λ n. one_batch (x.staging ++ (e ∷ [])) n x) (omega arith)
  posts-one_batch (d ∷ es) e x before last fits =
      let fits_now : x.staging_size + content_size d ≤ entry_cache_size = omega (arith, fits) in
      let fits_then : x.staging_size + content_size d + total_size es ≤ entry_cache_size =
        omega (arith, fits) in
      ap (λ r. and_post r (posts (es ++ (e ∷ [])))) (post_put-early d x before.0 fits_now)
      ∙ posts-one_batch es e (staged d x) before.1 last fits_then
      ∙ ap₂ (λ l n. one_batch l n x) (append_assoc x.staging (d ∷ []) (es ++ (e ∷ [])))
          (omega arith)
