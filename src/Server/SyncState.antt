-- ===== src/Server/SyncState.antt =====
-- `ServerSyncState` of src/leap/soledad/server/state.py: what the server keeps of one sync session
-- in its cache. `_storage` is the cache of the session, with the two keys that the class uses;
-- the cache itself (beaker) and its expiry are not modelled.
use leap_soledad.Prelude.{
  ℕ, Option, none, some, List, [], ◌∷◌, ◌++◌, Text, length, get_elem?, ltb, if◌then◌else◌,
}
use leap_soledad.Prelude.Dict.{Dict, put}
use leap_soledad.Prelude.Result.{Result, ok, err, index_error}
use leap_soledad.Store.Changes.{Change}

-- What `put_changes_to_return` puts.
pub record Info : Type 0 where
  pub gen : ℕ
  pub trans_id : Text
  pub changes_to_return : List Change

-- A key that is not in the cache is `none`.
pub record SyncState : Type 0 where
  pub seen_id : Option (List (Text × ℕ))
  pub infos : Option (List Info)

-- The storage of a new session.
abbrev pub new_session : SyncState
new_session = record { seen_id = none; infos = none }

-- `_put_dict_info` on the list of one key
unfoldable pub put_dict_info : {A : Type 0} → A → Option (List A) → Option (List A)
put_dict_info value none = some (value ∷ [])
put_dict_info value (some info_list) = some (info_list ++ (value ∷ []))

unfoldable pub put_seen_id : Text → ℕ → SyncState → SyncState
unfolding put_dict_info
put_seen_id seen_id gen s = record s { seen_id = put_dict_info (seen_id, gen) s.seen_id }

-- `dict(pairs)` on top of a dict: a later pair replaces an earlier one
unfoldable pub dict_of : Dict ℕ → List (Text × ℕ) → Dict ℕ
dict_of d [] = d
dict_of d ((k, v) ∷ pairs) = dict_of (put k v d) pairs

-- The list of a key, or the empty list where the key is not there.
abbrev pub or_empty : Option (List (Text × ℕ)) → List (Text × ℕ)
or_empty none = []
or_empty (some pairs) = pairs

unfoldable pub seen_ids : SyncState → Dict ℕ
unfolding dict_of
seen_ids s = dict_of [] (or_empty s.seen_id)

unfoldable pub put_changes_to_return : ℕ → Text → List Change → SyncState → SyncState
unfolding put_dict_info
put_changes_to_return gen trans_id changes s = record s {
  infos =
      put_dict_info (record { gen = gen; trans_id = trans_id; changes_to_return = changes })
        s.infos;
}

-- `self._storage.get('changes_to_return')[0]`, where the key is there
unfoldable pub first_info : SyncState → Result (Option Info)
first_info s = elim s.infos [
  | none ↦ ok none
  | some [] ↦ err index_error
  | some (info ∷ infos) ↦ ok (some info)
]

-- The generation, the transaction id and the number of changes; `none` for the tuple of Nones.
unfoldable pub info_of : Option Info → Option (ℕ × Text × ℕ)
info_of none = none
info_of (some info) = some (info.gen, info.trans_id, length info.changes_to_return)

unfoldable pub sync_info : SyncState → Result (Option (ℕ × Text × ℕ))
unfolding info_of
sync_info s = elim (first_info s) [ err e ↦ err e | ok info ↦ ok (info_of info) ]

unfoldable pub change_of : ℕ → Option Info → Option (ℕ × Text × Option Change)
change_of received none = none
change_of received (some info) = some (
  info.gen,
  info.trans_id,
  if ltb received (length info.changes_to_return)
      then get_elem? info.changes_to_return received
      else none,
)

unfoldable pub next_change_to_return : ℕ → SyncState → Result (Option (ℕ × Text × Option Change))
unfolding change_of
next_change_to_return received s = elim (first_info s) [
  | err e ↦ err e
  | ok info ↦ ok (change_of received info)
]
