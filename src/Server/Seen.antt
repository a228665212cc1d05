-- ===== src/Server/Seen.antt =====
-- The documents that a session has seen.
use leap_soledad.Prelude.{
  ℕ, ◌≡◌, refl, Option, none, some, List, [], ◌∷◌, ◌++◌, Text, text_eq, if◌then◌else◌,
}
use leap_soledad.Prelude.Dict.{Dict, get, put, get-put}
use leap_soledad.Server.SyncState.{
  SyncState, put_dict_info, put_seen_id, dict_of, or_empty, seen_ids,
}

dict_of-append :
    (d : Dict ℕ) (ps qs : List (Text × ℕ)) → dict_of d (ps ++ qs) ≡ dict_of (dict_of d ps) qs
unfolding dict_of
dict_of-append d [] qs = refl
dict_of-append d ((k, v) ∷ ps) qs = dict_of-append (put k v d) ps qs

or_empty-put_dict_info :
    (e : Text × ℕ) (o : Option (List (Text × ℕ)))
    → or_empty (put_dict_info e o) ≡ or_empty o ++ (e ∷ [])
unfolding put_dict_info
or_empty-put_dict_info e none = refl
or_empty-put_dict_info e (some pairs) = refl

-- After `put_seen_id` the session's `seen_ids` has the document at the generation, in place of
-- what it had for that document, and every other document as before.
pub seen_ids-put_seen_id :
    (doc_id j : Text) (gen : ℕ) (s : SyncState)
    → get j (seen_ids (put_seen_id doc_id gen s))
      ≡ (if text_eq doc_id j then some gen else get j (seen_ids s))
unfolding seen_ids put_seen_id dict_of
seen_ids-put_seen_id doc_id j gen s = rw (or_empty-put_dict_info (doc_id, gen) s.seen_id) (
    rw (dict_of-append [] (or_empty s.seen_id) ((doc_id, gen) ∷ []))
      (get-put doc_id j gen (dict_of [] (or_empty s.seen_id))))
