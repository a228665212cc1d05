-- ===== src/Wire/Body.antt =====
-- What the client sends: `RequestBody` (src/leap/soledad/client/http_target/support.py), and its
-- producer `DocStreamProducer` (src/leap/soledad/client/http_target/send_protocol.py).
use leap_soledad.Prelude.{
  ℕ, ◌+◌, min, Bool, true, false, Option, none, some, List, [], ◌∷◌, ◌++◌, Text, text, length, take,
  drop, ◌==◌, if◌then◌else◌,
}
use leap_soledad.Wire.Responder.{Sent, content_text, crlf}

-- `headers` is the text that the headers are dumped to.
pub record RequestBody : Type 0 where
  pub headers : Text
  pub entries : List Text
  pub consumed : ℕ

-- `RequestBody(**header_dict)`
abbrev pub new_body : Text → RequestBody
new_body headers = record { headers = headers; entries = []; consumed = 0 }

-- The content of an entry, where it has one, on a new line. `none` inside is Python's None.
abbrev pub content_line : Option (Option Text) → Text
content_line none = []
content_line (some content) = b',' ∷ (crlf ++ content_text content)

-- `insert_info(**entry_dict)`, with the entry dumped.
unfoldable pub insert_info : Text → Option (Option Text) → RequestBody → RequestBody
insert_info dumped content body = record body {
  entries = body.entries ++ ((dumped ++ content_line content) ∷ []);
}

-- `''.join(',\r\n' + entry for entry in entries)`
abbrev pub joined : List Text → Text
joined [] = []
joined (entry ∷ entries) = b',' ∷ (crlf ++ (entry ++ joined entries))

unfoldable pub entries_to_str : Text → List Text → Bool → Bool → Text
entries_to_str headers entries start end =
    (if start then b'[' ∷ (crlf ++ headers) else [])
    ++ (joined entries ++ (if end then crlf ++ text "]" else []))

unfoldable pub pop : ℕ → Bool → RequestBody → Text × RequestBody
unfolding entries_to_str
pop amount leave_open body =
    let n = min (length body.entries) amount in
    let entries = take n body.entries in
    let rest = drop n body.entries in
    let end = if leave_open then false else length rest == 0 in
    (
      entries_to_str body.headers entries (body.consumed == 0) end,
      record body { entries = rest; consumed = body.consumed + n },
    )

-- What a turn of the loop of `startProducing` finds: the flags `pause` and `stop`.
pub data Turn : Type 0 where
  runs paused stopped : Turn

-- `consumer.write(self.body.pop(0))`
abbrev pub close : RequestBody → List Text
close body = (pop 0 false body).0 ∷ []

-- A call of the list, `_prepare_one_doc`, and the write that follows it.
abbrev pub produce_one : Sent → RequestBody → Text × RequestBody
produce_one s body = pop 1 true (insert_info s.info (some s.content) body)

-- `startProducing`: what is written to the consumer, chunk by chunk. The turns are those up to the
-- last with a flag set.
unfoldable pub start_producing : List Turn → List Sent → RequestBody → List Text
unfolding pop insert_info
start_producing turns [] body = close body
start_producing [] (s ∷ ss) body =
    let (chunk, body') = produce_one s body in chunk ∷ start_producing [] ss body'
start_producing (paused ∷ turns) (s ∷ ss) body = start_producing turns (s ∷ ss) body
start_producing (stopped ∷ turns) (s ∷ ss) body = close body
start_producing (runs ∷ turns) (s ∷ ss) body =
    let (chunk, body') = produce_one s body in chunk ∷ start_producing turns ss body'

-- The documents that are sent before a stop.
abbrev pub sent_of : List Turn → List Sent → List Sent
sent_of turns [] = []
sent_of [] (s ∷ ss) = s ∷ sent_of [] ss
sent_of (paused ∷ turns) (s ∷ ss) = sent_of turns (s ∷ ss)
sent_of (stopped ∷ turns) (s ∷ ss) = []
sent_of (runs ∷ turns) (s ∷ ss) = s ∷ sent_of turns ss
