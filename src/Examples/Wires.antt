-- ===== src/Examples/Wires.antt =====
-- The theorems on the streams of documents, on a stream of one document.
use leap_soledad.Prelude.{
  ℕ, ◌≡◌, refl, ◌≢◌, some, [], ◌∷◌, text_eq, true, ◌<◌, List, Text, text, arith,
}
use leap_soledad.Json.{int, dict, end}
use leap_soledad.Prelude.Int.{negsuc}
use leap_soledad.Wire.Receiver.{new_receiver, data_received, all_received}
use leap_soledad.Wire.Responder.{
  Responder, Sent, StreamState, after_entry, post_get, started_responder,
}
use leap_soledad.Wire.Chunks.{concat, outcome, all_received-concat}
use leap_soledad.Wire.Streamed.{IsLine}
use leap_soledad.Wire.Fetch.{IsSent, EndedWith, received, all_received-post_get}
use leap_soledad.Examples.{python}

abbrev answer : List Text
answer =
    text "["
    ∷ (13 ∷ 10 ∷ text "{}")
    ∷ (text ",")
    ∷ (13 ∷ 10 ∷ text "{a}")
    ∷ (b',' ∷ 13 ∷ 10 ∷ text "{b")
    ∷ (text "}")
    ∷ (13 ∷ 10 ∷ b']' ∷ 13 ∷ [])
    ∷ (10 ∷ [])
    ∷ []

all_received-concat_example :
    outcome (all_received python answer new_receiver)
    ≡ outcome (data_received python (concat answer) new_receiver)
all_received-concat_example =
    all_received-concat python answer new_receiver
      (unfold leap_soledad.Wire.Lines.split_lines in refl)

abbrev sent : Sent
sent = record { info = text "{a}"; content = some (text "{b}") }

not_break : (c : ℕ) → 10 < c → c ≢ 10
not_break c h e = omega arith

two-IsLine : IsLine (text "{}")
unfolding leap_soledad.Wire.check_and_strip_comma text_eq
two-IsLine = record {
  no_break = (not_break _ (omega arith), (not_break _ (omega arith), tt));
  no_comma = refl;
  no_end = refl;
}

three-IsLine : (c : ℕ) → 10 < c → IsLine (b'{' ∷ c ∷ b'}' ∷ [])
unfolding leap_soledad.Wire.check_and_strip_comma text_eq
three-IsLine c h = record {
  no_break = (not_break _ (omega arith), (not_break c h, (not_break _ (omega arith), tt)));
  no_comma = refl;
  no_end = refl;
}

sent-IsSent : IsSent python sent
unfolding leap_soledad.Wire.Receiver.check_info
sent-IsSent = record {
  value = dict end;
  loads_info = refl;
  no_error = refl;
  info_line = three-IsLine b'a' (omega arith);
  content_line = three-IsLine b'b' (omega arith);
}

abbrev written : Responder
written = record {
  started = true;
  no_initial_obj = true;
  stream_state = after_entry;
  written = concat answer;
}

all_received-post_get_example :
    EndedWith python
      (received python (int (negsuc 0)) (sent ∷ []) (sent-IsSent, tt))
      (text "{}")
      (outcome (all_received python answer new_receiver))
all_received-post_get_example =
    all_received-post_get python (text "{}") (sent ∷ []) (int (negsuc 0)) answer written two-IsLine
      (unfold leap_soledad.Wire.Receiver.total_of in refl) (sent-IsSent, tt)
      (unfold leap_soledad.Wire.Responder.post_get in refl) refl
