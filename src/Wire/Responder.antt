-- ===== src/Wire/Responder.antt =====
-- The streaming part of `HTTPResponder` (src/leap/soledad/common/l2db/remote/http_app.py), and
-- `SyncResource.post_get` (src/leap/soledad/server/sync.py), which answers with the documents.
use leap_soledad.Prelude.{
  Bool, true, ◌&&◌, Option, none, some, List, [], ◌∷◌, ◌++◌, Text, text, if◌then◌else◌,
}
use leap_soledad.Prelude.Result.{Result, ok, err, assertion_error, ◌>>=◌}

-- `_stream_state`: -1, 0 and 1
pub data StreamState : Type 0 where
  no_stream before_entries after_entry : StreamState

-- `written` is what has gone to `_write`.
pub record Responder : Type 0 where
  pub started : Bool
  pub no_initial_obj : Bool
  pub stream_state : StreamState
  pub written : Text

-- A responder after `start_response(200)`.
abbrev pub started_responder : Responder
started_responder = record {
  started = true;
  no_initial_obj = true;
  stream_state = no_stream;
  written = [];
}

abbrev pub crlf : Text
crlf = 13 ∷ 10 ∷ []

unfoldable pub start_stream : Responder → Result Responder
start_stream r =
    if r.started && r.no_initial_obj
    then ok (record r { stream_state = before_entries; written = r.written ++ text "[" })
    else err assertion_error

-- `stream_entry(entry)` with an entry that is text: a dict is dumped before.
unfoldable pub stream_entry : Text → Responder → Result Responder
stream_entry entry r = elim r.stream_state [
  | no_stream ↦ err assertion_error
  | before_entries ↦
      ok (record r { stream_state = after_entry; written = r.written ++ (crlf ++ entry) })
  | after_entry ↦ ok (record r { written = r.written ++ (b',' ∷ (crlf ++ entry)) })
]

unfoldable pub end_stream : Responder → Result Responder
end_stream r = elim r.stream_state [
  | no_stream ↦ err assertion_error
  | _ ↦ ok (record r { written = r.written ++ (crlf ++ (b']' ∷ crlf)) })
]

-- A document that `send_doc` streams: its entry, dumped, and what its content reader reads; `none`
-- for a document without content.
pub record Sent : Type 0 where
  pub info : Text
  pub content : Option Text

abbrev pub content_text : Option Text → Text
content_text none = []
content_text (some content) = content

-- `send_doc(doc, gen, trans_id)`
unfoldable pub send_doc : Sent → Responder → Result Responder
unfolding stream_entry
send_doc s r = do r' ← stream_entry s.info r; stream_entry (content_text s.content) r'

unfoldable pub send_docs : List Sent → Responder → Result Responder
unfolding send_doc
send_docs [] r = ok r
send_docs (s ∷ ss) r = do r' ← send_doc s r; send_docs ss r'

-- `post_get()` behind `start_response(200)`, with the header dumped.
unfoldable pub post_get : Text → List Sent → Responder → Result Responder
unfolding start_stream stream_entry send_docs end_stream
post_get header docs r = do
  r1 ← start_stream r
  r2 ← stream_entry header r1
  r3 ← send_docs docs r2
  end_stream r3
