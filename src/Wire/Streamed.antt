-- ===== src/Wire/Streamed.antt =====
-- What the server writes for a sync, and its lines.
use leap_soledad.Prelude.{
  ◌≡◌, ◌≢◌, refl, ◌∙◌, ap, sym, true, false, List, [], ◌∷◌, ◌++◌, Text, text, text_eq, arith,
  append-nil, append_assoc, All, All-append,
}
use leap_soledad.Prelude.Split.{Lacks}
use leap_soledad.Prelude.Result.{ok, ◌>>=◌}
use leap_soledad.Wire.{check_and_strip_comma}
use leap_soledad.Wire.Lines.{split_lines, lines_then, split_lines-line}
use leap_soledad.Wire.Responder.{
  Responder, Sent, after_entry, content_text, started_responder, stream_entry, send_doc, send_docs,
  post_get, end_stream,
}

-- The lines of documents, in order.
abbrev pub entries_of : List Sent → List Text
entries_of [] = []
entries_of (s ∷ ss) = s.info ∷ content_text s.content ∷ entries_of ss

-- What the server writes from its first entry on, and the end of the stream.
abbrev pub stream_text : Text → List Text → Text
stream_text e [] = e ++ (13 ∷ 10 ∷ b']' ∷ 13 ∷ 10 ∷ [])
stream_text e (f ∷ es) = e ++ (b',' ∷ 13 ∷ 10 ∷ stream_text f es)

abbrev pub more_text : List Text → Text
more_text [] = []
more_text (e ∷ es) = b',' ∷ 13 ∷ 10 ∷ (e ++ more_text es)

-- `r` with more written.
abbrev wrote : Text → Responder → Responder
wrote s r = record r { written = r.written ++ s }

send_doc-written :
    (s : Sent) (r : Responder)
    → r.stream_state ≡ after_entry
    → send_doc s r
      ≡ ok (wrote (b',' ∷ 13 ∷ 10 ∷ content_text s.content) (wrote (b',' ∷ 13 ∷ 10 ∷ s.info) r))
unfolding send_doc stream_entry
send_doc-written s r h = rw h refl

send_docs-written :
    (ss : List Sent) (r : Responder)
    → r.stream_state ≡ after_entry
    → send_docs ss r ≡ ok (wrote (more_text (entries_of ss)) r)
unfolding send_docs
send_docs-written [] r h = rw (append-nil r.written) refl
send_docs-written (s ∷ ss) r h =
    let first = b',' ∷ 13 ∷ 10 ∷ s.info in
    let second = b',' ∷ 13 ∷ 10 ∷ content_text s.content in
    ap (λ r'. r' >>= send_docs ss) (send_doc-written s r h)
    ∙ send_docs-written ss (wrote second (wrote first r)) h
    ∙ ap (λ w. ok (record r { written = w }))
        (append_assoc (r.written ++ first) second (more_text (entries_of ss))
          ∙ append_assoc r.written first (second ++ more_text (entries_of ss)))

stream_text-more :
    (e : Text) (es : List Text)
    → e ++ (more_text es ++ (13 ∷ 10 ∷ b']' ∷ 13 ∷ 10 ∷ [])) ≡ stream_text e es
stream_text-more e [] = refl
stream_text-more e (f ∷ es) =
    ap (λ t. e ++ (b',' ∷ 13 ∷ 10 ∷ t))
      (append_assoc f (more_text es) (13 ∷ 10 ∷ b']' ∷ 13 ∷ 10 ∷ []) ∙ stream_text-more f es)

-- What `post_get` writes.
pub post_get-written :
    (header : Text) (ss : List Sent)
    → post_get header ss started_responder
      ≡ ok (record {
        started = true;
        no_initial_obj = true;
        stream_state = after_entry;
        written = b'[' ∷ 13 ∷ 10 ∷ stream_text header (entries_of ss);
      })
unfolding post_get
post_get-written header ss =
    let started : Responder = record {
      started = true;
      no_initial_obj = true;
      stream_state = after_entry;
      written = b'[' ∷ 13 ∷ 10 ∷ header;
    } in
    ap (λ r. r >>= end_stream) (send_docs-written ss started refl)
    ∙ ap
        (λ w. ok (record {
          started = true;
          no_initial_obj = true;
          stream_state = after_entry;
          written = b'[' ∷ 13 ∷ 10 ∷ w;
        }))
        (append_assoc header (more_text (entries_of ss)) (13 ∷ 10 ∷ b']' ∷ 13 ∷ 10 ∷ [])
          ∙ stream_text-more header (entries_of ss))

-- An entry goes on one line, and is neither taken for the end nor loses a comma.
pub record IsLine (e : Text) : Type 0 where
  pub no_break : Lacks 10 e
  pub no_comma : (check_and_strip_comma e).0 ≡ e
  pub no_end : text_eq e (text "]") ≡ false

abbrev pub comma_lines : Text → List Text → List Text
comma_lines e [] = e ∷ text "]" ∷ []
comma_lines e (f ∷ es) = (e ++ (b',' ∷ [])) ∷ comma_lines f es

pub split_lines-stream_text :
    (e : Text) (es : List Text)
    → Lacks 10 e
    → All (Lacks 10) es
    → split_lines (stream_text e es) ≡ (comma_lines e es, [])
split_lines-stream_text e [] n ns =
    split_lines-line e (b']' ∷ 13 ∷ 10 ∷ []) n ∙ (unfold split_lines in refl)
split_lines-stream_text e (f ∷ es) n ns =
    ap split_lines (sym (append_assoc e (b',' ∷ []) (13 ∷ 10 ∷ stream_text f es)))
    ∙ split_lines-line (e ++ (b',' ∷ [])) (stream_text f es)
        (All-append (λ c. c ≢ 10) e (b',' ∷ []) n ((λ h. omega arith), tt))
    ∙ ap (lines_then ((e ++ (b',' ∷ [])) ∷ [])) (split_lines-stream_text f es ns.0 ns.1)

pub check_and_strip_comma-comma : (e : Text) → (check_and_strip_comma (e ++ (b',' ∷ []))).0 ≡ e
unfolding check_and_strip_comma
check_and_strip_comma-comma [] = refl
check_and_strip_comma-comma (c ∷ []) = refl
check_and_strip_comma-comma (c ∷ d ∷ e) = ap (◌∷◌ c) (check_and_strip_comma-comma (d ∷ e))

pub split_lines-nil : split_lines [] ≡ ([], [])
unfolding split_lines
split_lines-nil = refl
