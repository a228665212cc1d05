-- ===== src/Wire/Receiver.antt =====
-- `DocStreamReceiver` of src/leap/soledad/client/http_target/fetch_protocol.py: the client's reading of the
-- stream that the server answers with.
use leap_soledad.Prelude.{
  ℕ, ◌+◌, ◌%◌, Bool, true, false, Option, none, some, List, [], ◌∷◌, ◌++◌, Text, text, text_eq,
  ◌==◌, ◌||◌, if◌then◌else◌,
}
use leap_soledad.Prelude.Int.{negsuc}
use leap_soledad.Prelude.Strip.{strip}
use leap_soledad.Prelude.Result.{
  Result, ok, err, broken_sync_stream, value_error, type_error, attribute_error, or_raise, raise_if,
  ◌>>=◌, ◌>>◌,
}
use leap_soledad.Json.{
  Value, Values, Fields, Python, null, int, str, list, dict, nil, cons, end, field,
}
use leap_soledad.Index.Lookup.{starts_with}
use leap_soledad.Wire.{check_and_strip_comma}
use leap_soledad.Wire.Lines.{split_lines}

-- A call of the document reader: the parsed information, the content, and the total.
abbrev pub Received : Type 0
Received = Value × Option Text × Value

-- What `lineReceived` reads and writes; `docs` are the calls of the document reader so far.
pub record Protocol : Type 0 where
  pub line : ℕ
  pub properly_finished : Bool
  pub metadata : Text
  pub total : Value
  pub current_doc : Value
  pub docs : List Received

-- The receiver with its buffer.
pub record Receiver : Type 0 where
  pub protocol : Protocol
  pub buffer : Text

-- `DocStreamReceiver(...)`
abbrev pub new_receiver : Receiver
new_receiver = record {
  protocol = record {
    line = 0;
    properly_finished = false;
    metadata = [];
    total = null;
    current_doc = null;
    docs = [];
  };
  buffer = [];
}

-- `part in s` for texts
unfoldable pub is_part : Text → Text → Bool
unfolding starts_with
is_part part [] = starts_with [] part
is_part part (c ∷ s) = let rest = is_part part s in starts_with (c ∷ s) part || rest

-- `key in value` for a parsed value
abbrev pub has_field : Text → Fields → Bool
has_field key end = false
has_field key (field k v fields) = if text_eq k key then true else has_field key fields

abbrev pub has_text : Text → Values → Bool
has_text key nil = false
has_text key (cons (str s) values) = if text_eq s key then true else has_text key values
has_text key (cons _ values) = has_text key values

unfoldable pub contains_key : Text → Value → Result Bool
unfolding is_part
contains_key key (dict fields) = ok (has_field key fields)
contains_key key (list values) = ok (has_text key values)
contains_key key (str s) = ok (is_part key s)
contains_key key _ = err type_error

-- `json.loads(line).get('number_of_changes', -1)`
abbrev get_or : Text → Value → Fields → Value
get_or key default_value end = default_value
get_or key default_value (field k v fields) =
    if text_eq k key then v else get_or key default_value fields

unfoldable pub number_of_changes : Value → Value → Result Value
number_of_changes missing (dict fields) = ok (get_or (text "number_of_changes") missing fields)
number_of_changes missing _ = err attribute_error

-- `line.strip() or None`
abbrev pub text_or_none : Text → Option Text
text_or_none [] = none
text_or_none (c ∷ s) = some (c ∷ s)

-- Where a line stands in the stream.
pub data Place : Type 0 where
  start_line metadata_line info_line content_line : Place

abbrev pub place : ℕ → Place
place line =
    if line == 0
    then start_line
    else if line == 1
    then metadata_line
    else if line % 2 == 0
    then info_line
    else content_line

-- The count of lines goes up unless an exception was raised.
abbrev pub counted : Result (Unit {0}) × Protocol → Result (Unit {0}) × Protocol
counted (ok u, p) = (ok tt, record p { line = p.line + 1 })
counted (err e, p) = (err e, p)

abbrev pub and_lines :
    Result (Unit {0}) × Protocol
    → (Protocol → Result (Unit {0}) × Protocol)
    → Result (Unit {0}) × Protocol
and_lines (ok u, p) more = more p
and_lines (err e, p) more = (err e, p)

-- `'\n' in data`
abbrev pub has_line_feed : Text → Bool
has_line_feed [] = false
has_line_feed (c ∷ s) = if c == 10 then true else has_line_feed s

-- The chunks of a response as they come, up to an exception.
abbrev pub and_data :
    Result (Unit {0}) × Receiver
    → (Receiver → Result (Unit {0}) × Receiver)
    → Result (Unit {0}) × Receiver
and_data (ok u, r) more = more r
and_data (err e, r) more = (err e, r)

-- `raise` if the parsed information of a document has an error
unfoldable pub check_info : Value → Result (Unit {0})
unfolding contains_key
check_info value = do failed ← contains_key (text "error") value; raise_if failed broken_sync_stream

module _ (py : Python) where
  -- The number of changes that a line of metadata gives: -1 where it has none.
  unfoldable pub total_of : Text → Result Value
  unfolding number_of_changes is_part
  total_of line = do
    raise_if (is_part (text "error") line) broken_sync_stream
    value ← or_raise (py.loads line) value_error
    number_of_changes (int (negsuc 0)) value

  -- The branches of `lineReceived` behind those for the end of the stream.
  unfoldable pub receive_at : Place → Text → Protocol → Result (Unit {0}) × Protocol
  receive_at start_line line p =
      (raise_if (if text_eq line (text "[") then false else true) broken_sync_stream, p)
  receive_at metadata_line line p = elim (total_of line) [
    | err e ↦ (err e, record p { metadata = line })
    | ok total ↦ (ok tt, record p { metadata = line; total = total })
  ]
  receive_at info_line line p = elim (py.loads line) [
    | none ↦ (err value_error, p)
    | some value ↦ (check_info value, record p { current_doc = value })
  ]
  receive_at content_line line p = (
    ok tt,
    record p { docs = p.docs ++ ((p.current_doc, text_or_none (strip line), p.total) ∷ []) },
  )

  -- `lineReceived(line)`, and the count of lines after it
  unfoldable pub line_received : Text → Protocol → Result (Unit {0}) × Protocol
  unfolding receive_at
  line_received line p =
      if p.properly_finished
      then (err broken_sync_stream, p)
      else if text_eq line (text "]")
      then counted (ok tt, record p { properly_finished = true })
      else counted (receive_at (place p.line) line p)

  -- The loop of `dataReceived` over the lines, up to an exception.
  unfoldable pub lines_received : List Text → Protocol → Result (Unit {0}) × Protocol
  unfolding line_received check_and_strip_comma
  lines_received [] p = (ok tt, p)
  lines_received (line ∷ lines) p =
      and_lines (line_received (check_and_strip_comma line).0 p) (lines_received lines)

  unfoldable pub data_received : Text → Receiver → Result (Unit {0}) × Receiver
  unfolding lines_received split_lines
  data_received data_ r =
      let (lines, last) = split_lines (r.buffer ++ data_) in
      let (result, p) = lines_received lines r.protocol in
      if has_line_feed data_
      then (result, record { protocol = p; buffer = last })
      else (ok tt, record r { buffer = r.buffer ++ data_ })

  unfoldable pub all_received : List Text → Receiver → Result (Unit {0}) × Receiver
  unfolding data_received
  all_received [] r = (ok tt, r)
  all_received (chunk ∷ chunks) r = and_data (data_received chunk r) (all_received chunks)

-- `finish()`
unfoldable pub finish : Receiver → Result Text
finish r = if r.protocol.properly_finished then ok r.buffer else err broken_sync_stream

-- `connectionLost(reason)` where the deferred has not been called: `done` says that the reason is
-- ResponseDone. The result is what becomes the body of the response.
unfoldable pub connection_lost : Bool → Receiver → Result Text
unfolding finish
connection_lost true r = ok r.protocol.metadata
connection_lost false r = finish r
