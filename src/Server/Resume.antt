-- ===== src/Server/Resume.antt =====
-- A session of the server that is resumed: its changes are computed once.
use leap_soledad.Prelude.{
  ℕ, ◌≡◌, ◌≢◌, refl, ap, ◌∙◌, Option, none, some, List, [], ◌∷◌, Text, arith, get_elem?, length,
  ltb, if◌then◌else◌, suc, zero,
}
use leap_soledad.Prelude.Result.{Result, ok, err, attribute_error}
use leap_soledad.Store.Changes.{Change}
use leap_soledad.Sync.Exchange.{unseen}
use leap_soledad.Server.SyncState.{
  Info, SyncState, put_dict_info, put_changes_to_return, first_info, sync_info,
  next_change_to_return, seen_ids,
}
use leap_soledad.Server.Exchange.{
  Backend, Exchange, new_exchange, find_with, find_changes_to_return, return_docs,
}

-- The list of changes in the cache, where there is one, is not empty: it is only appended to.
abbrev pub HasInfo : SyncState → Type 0
HasInfo s = s.infos ≢ some []

abbrev pub IsOk {ℓ} : {A : Type ℓ} → Result A → Type 0
IsOk (ok a) = Unit
IsOk (err e) = ⊥

module _ {S : Type 0} (b : Backend S) where
  find-known :
      (y : Exchange S) (info : Info) (infos : List Info)
      → y.state.infos ≡ some (info ∷ infos)
      → find_changes_to_return b y ≡ (
        ok (info.gen, length info.changes_to_return),
        record y { new_info = some (info.gen, info.trans_id) },
      )
  unfolding find_changes_to_return sync_info first_info
  find-known y info infos e = rw e refl

  find-new :
      (x : Exchange S)
      → x.state.infos ≡ none
      → find_changes_to_return b x ≡ (let (found, x') = find_with b none x in (ok found, x'))
  unfolding find_changes_to_return sync_info first_info
  find-new x e = rw e refl

  infos-put_changes_to_return :
      (gen : ℕ) (trans_id : Text) (changes : List Change) (s : SyncState)
      → s.infos ≡ none
      → (put_changes_to_return gen trans_id changes s).infos
        ≡ some (record { gen = gen; trans_id = trans_id; changes_to_return = changes } ∷ [])
  unfolding put_changes_to_return put_dict_info
  infos-put_changes_to_return gen trans_id changes s e = rw e refl

  -- A second exchange of a session, whatever its database has become, answers with the generation
  -- and the number of changes that the first one answered with, and leaves the session as it is.
  -- The list of changes in the session's cache is not empty where it is there.
  pub find_changes_to_return-again :
      (x y : Exchange S)
      → HasInfo x.state
      → y.state ≡ (find_changes_to_return b x).1.state
      → IsOk (find_changes_to_return b x).0
        × ((find_changes_to_return b y).0 ≡ (find_changes_to_return b x).0)
        × ((find_changes_to_return b y).1.state ≡ y.state)
  unfolding find_with put_changes_to_return
  find_changes_to_return-again x y h e = go x.state.infos refl
    where
      go :
          (infos : Option (List Info))
          → x.state.infos ≡ infos
          → IsOk (find_changes_to_return b x).0
            × ((find_changes_to_return b y).0 ≡ (find_changes_to_return b x).0)
            × ((find_changes_to_return b y).1.state ≡ y.state)
      go none known =
          let (gen, trans_id, changes) = b.whats_changed x.source_last_known_generation x.db in
          let to_return = unseen (seen_ids x.state) changes in
          let info : Info = record {
            gen = gen;
            trans_id = trans_id;
            changes_to_return = to_return;
          } in
          let kept : y.state.infos ≡ some (info ∷ []) =
            ap (λ s. s.infos) (e ∙ ap (λ r. r.1.state) (find-new x known))
            ∙ infos-put_changes_to_return gen trans_id to_return x.state known in
          rw (find-new x known) (rw (find-known y info [] kept) (tt, refl, refl))
      go (some []) known = absurd (h known)
      go (some (info ∷ infos)) known =
          let kept : y.state.infos ≡ some (info ∷ infos) =
            ap (λ s. s.infos) (e ∙ ap (λ r. r.1.state) (find-known x info infos known)) ∙ known in
          rw (find-known x info infos known) (rw (find-known y info infos kept) (tt, refl, refl))

  -- A new exchange of a session whose changes were computed before, by another exchange, can not
  -- return the documents: the attribute that `return_docs` reads was never set on it.
  pub return_docs_resumed :
      (db : S) (source_replica_uid : Text) (last_known : ℕ) (s : SyncState) (info : Info)
      (infos : List Info)
      → s.infos ≡ some (info ∷ infos)
      → return_docs b (find_changes_to_return b (new_exchange db source_replica_uid last_known s)).1
        ≡ err attribute_error
  unfolding return_docs
  return_docs_resumed db source_replica_uid last_known s info infos known =
      rw (find-known (new_exchange db source_replica_uid last_known s) info infos known) refl

  get_elem?-short :
      (i : ℕ) (xs : List Change)
      → (if ltb i (length xs) then get_elem? xs i else none) ≡ get_elem? xs i
  get_elem?-short i [] = ground arith
  get_elem?-short zero (x ∷ xs) = ground arith
  get_elem?-short (suc i) (x ∷ xs) = ground (arith, get_elem?-short i xs)

  -- Once the changes of a new session have been found, the session hands them out by position,
  -- with the generation and the transaction id that the backend was at; past the last one it hands
  -- out None.
  pub next_change_to_return-found :
      (x : Exchange S) (received : ℕ)
      → x.state.infos ≡ none
      → (let (gen, trans_id, changes) = b.whats_changed x.source_last_known_generation x.db in
          next_change_to_return received (find_changes_to_return b x).1.state
          ≡ ok (some (gen, trans_id, get_elem? (unseen (seen_ids x.state) changes) received)))
  unfolding next_change_to_return first_info find_with unseen
  next_change_to_return-found x received new =
      let (gen, trans_id, changes) = b.whats_changed x.source_last_known_generation x.db in
      let to_return = unseen (seen_ids x.state) changes in
      rw (find-new x new) (
        rw (infos-put_changes_to_return gen trans_id to_return x.state new)
          (ap (λ c. ok (some (gen, trans_id, c))) (get_elem?-short received to_return)))
