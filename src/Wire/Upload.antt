-- ===== src/Wire/Upload.antt =====
-- The body of a request that the client sends.
pub mod Fields
pub mod Invoked
use leap_soledad.Prelude.{
  ℕ, zero, suc, ◌+◌, ◌≤◌, ◌<◌, ◌≡◌, ◌≢◌, refl, ◌∙◌, ap, sym, subst, Bool, true, false, Option, none,
  some, List, [], ◌∷◌, ◌++◌, Text, text, text_eq, length, arith, append-nil, append_assoc,
  if◌then◌else◌, ◌==◌, All, take, drop, min,
}
use leap_soledad.Prelude.Split.{Lacks}
use leap_soledad.Wire.Chunks.{concat}
use leap_soledad.Wire.Responder.{Sent, content_text, crlf}
use leap_soledad.Wire.Body.{
  RequestBody, new_body, insert_info, joined, content_line, entries_to_str, pop, Turn, runs, paused,
  stopped, produce_one, close, start_producing, sent_of,
}

-- The entries of documents.
abbrev pub entry_texts : List Sent → List Text
entry_texts [] = []
entry_texts (s ∷ ss) = (s.info ++ content_line (some s.content)) ∷ entry_texts ss

-- What is written when `ready` says whether something has been written.
abbrev pub opening : Bool → Text → Text
opening ready headers = if ready then b'[' ∷ (crlf ++ headers) else []

abbrev pub closed : Text
closed = 13 ∷ 10 ∷ b']' ∷ []

joined-one :
    (o e x : Text) (es : List Text)
    → x ≡ joined es ++ closed
    → (o ++ (joined (e ∷ []) ++ [])) ++ x ≡ o ++ (joined (e ∷ es) ++ closed)
joined-one o e x es h =
    append_assoc o (joined (e ∷ []) ++ []) x
    ∙ ap (λ y. o ++ (y ++ x)) (append-nil (joined (e ∷ [])))
    ∙ ap (λ y. o ++ (b',' ∷ 13 ∷ 10 ∷ (y ++ x))) (append-nil e)
    ∙ ap (λ y. o ++ (b',' ∷ 13 ∷ 10 ∷ y))
        (ap (λ y. e ++ y) h ∙ sym (append_assoc e (joined es) closed))

written_before : (n : ℕ) → (n + 1 == 0) ≡ false
written_before n = ground arith

-- The body of a request, whatever the chunks that it is written in and the pauses between them: the
-- header, the documents before a stop, and the end.
pub concat-start_producing :
    (turns : List Turn) (ss : List Sent) (headers : Text) (n : ℕ)
    → concat (start_producing turns ss (record { headers = headers; entries = []; consumed = n }))
      ≡ opening (n == 0) headers ++ (joined (entry_texts (sent_of turns ss)) ++ closed)
unfolding start_producing pop insert_info entries_to_str
concat-start_producing turns [] headers n = append-nil _
concat-start_producing [] (s ∷ ss) headers n =
    joined-one (opening (n == 0) headers) _ _ (entry_texts (sent_of [] ss)) (
      concat-start_producing [] ss headers (n + 1)
      ∙ ap (λ b. opening b headers ++ (joined (entry_texts (sent_of [] ss)) ++ closed))
          (written_before n))
concat-start_producing (paused ∷ turns) (s ∷ ss) headers n =
    concat-start_producing turns (s ∷ ss) headers n
concat-start_producing (stopped ∷ turns) (s ∷ ss) headers n = append-nil _
concat-start_producing (runs ∷ turns) (s ∷ ss) headers n =
    joined-one (opening (n == 0) headers) _ _ (entry_texts (sent_of turns ss)) (
      concat-start_producing turns ss headers (n + 1)
      ∙ ap (λ b. opening b headers ++ (joined (entry_texts (sent_of turns ss)) ++ closed))
          (written_before n))
