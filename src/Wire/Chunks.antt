-- ===== src/Wire/Chunks.antt =====
-- The reading of a stream does not depend on how the network cuts it.
use leap_soledad.Prelude.{
  ◌≡◌, refl, ◌∙◌, ap, sym, false, List, [], ◌∷◌, ◌++◌, Text, arith, append-nil, append_assoc,
  Bool-cases, inl, inr,
}
use leap_soledad.Prelude.Split.{Lacks}
use leap_soledad.Prelude.Result.{Result, ok, err}
use leap_soledad.Json.{Python}
use leap_soledad.Wire.{check_and_strip_comma}
use leap_soledad.Wire.Lines.{split_lines, split_lines-append, split_lines-last, split_lines-Lacks}
use leap_soledad.Wire.Receiver.{
  Protocol, Receiver, line_received, has_line_feed, and_lines, lines_received, data_received,
  and_data, all_received,
}

-- `b''.join(chunks)`
abbrev pub concat : List Text → Text
concat [] = []
concat (chunk ∷ chunks) = chunk ++ concat chunks

-- What the stream has come to: the exception if there is one, and the state of the protocol.
abbrev pub outcome : Result (Unit {0}) × Receiver → Result (Unit {0}) × Protocol
outcome (result, r) = (result, r.protocol)

-- No line ends in the buffer.
abbrev EndsNoLine : Receiver → Type 0
EndsNoLine r = split_lines r.buffer ≡ ([], r.buffer)

Lacks-line_feed : (s : Text) → has_line_feed s ≡ false → Lacks 10 s
Lacks-line_feed [] h = tt
Lacks-line_feed (c ∷ s) h = (ground arith, Lacks-line_feed s (ground arith))

module _ (py : Python) where
  pub lines_received-append :
      (ls ms : List Text) (p : Protocol)
      → lines_received py (ls ++ ms) p ≡ and_lines (lines_received py ls p) (lines_received py ms)
  unfolding lines_received
  lines_received-append [] ms p = refl
  lines_received-append (l ∷ ls) ms p =
      go (line_received py (check_and_strip_comma l).0 p) (lines_received-append ls ms)
    where
      go :
          (r : Result (Unit {0}) × Protocol)
          → ((q : Protocol)
              → lines_received py (ls ++ ms) q
                ≡ and_lines (lines_received py ls q) (lines_received py ms))
          → and_lines r (lines_received py (ls ++ ms))
            ≡ and_lines (and_lines r (lines_received py ls)) (lines_received py ms)
      go (ok u, q) ih = ih q
      go (err e, q) ih = refl

  -- Data is read as if it had been looked at for lines each time.
  data_received-split :
      (s : Text) (r : Receiver)
      → EndsNoLine r
      → data_received py s r ≡ (
          let (lines, last) = split_lines (r.buffer ++ s) in
          let (result, p) = lines_received py lines r.protocol in
          (result, record { protocol = p; buffer = last }))
  unfolding data_received
  data_received-split s r h = elim (Bool-cases (has_line_feed s)) [
    | inl lf ↦ rw lf refl
    | inr none_ ↦ rw none_ (rw (split_lines-Lacks r.buffer s (Lacks-line_feed s none_) h) refl)
  ]

  pub outcome-data_received :
      (s : Text) (r : Receiver)
      → EndsNoLine r
      → outcome (data_received py s r)
        ≡ lines_received py (split_lines (r.buffer ++ s)).0 r.protocol
  outcome-data_received s r h = ap outcome (data_received-split s r h)

  -- However the network cuts a response into chunks, the receiver comes to the same exception or
  -- to none, and to the same documents, metadata and end, as if the response had come at once. No
  -- line ends in the buffer before.
  pub all_received-concat :
      (chunks : List Text) (r : Receiver)
      → EndsNoLine r
      → outcome (all_received py chunks r) ≡ outcome (data_received py (concat chunks) r)
  unfolding all_received
  all_received-concat [] r h = sym (
      outcome-data_received [] r h
      ∙ ap (λ l. lines_received py (split_lines l).0 r.protocol) (append-nil r.buffer)
      ∙ ap (λ (q : List Text × Text). lines_received py q.0 r.protocol) h
      ∙ (unfold lines_received in refl))
  all_received-concat (chunk ∷ chunks) r h =
      ap (λ q. outcome (and_data q (all_received py chunks))) (data_received-split chunk r h)
      ∙ go (lines_received py ls r.protocol) (all_received-concat chunks)
      ∙ sym (lines_received-append ls ms r.protocol)
      ∙ ap (λ (q : List Text × Text). lines_received py q.0 r.protocol)
          (sym (
            ap split_lines (sym (append_assoc r.buffer chunk (concat chunks)))
            ∙ split_lines-append (r.buffer ++ chunk) (concat chunks)))
      ∙ sym (outcome-data_received (chunk ++ concat chunks) r h)
    where
      ls : List Text
      ls = (split_lines (r.buffer ++ chunk)).0

      last : Text
      last = (split_lines (r.buffer ++ chunk)).1

      ms : List Text
      ms = (split_lines (last ++ concat chunks)).0

      go :
          (q : Result (Unit {0}) × Protocol)
          → ((r : Receiver)
              → EndsNoLine r
              → outcome (all_received py chunks r) ≡ outcome (data_received py (concat chunks) r))
          → outcome
              (and_data (q.0, record { protocol = q.1; buffer = last }) (all_received py chunks))
            ≡ and_lines q (lines_received py ms)
      go (ok u, p) ih =
          let r' : Receiver = record { protocol = p; buffer = last } in
          ih r' (split_lines-last (r.buffer ++ chunk))
          ∙ outcome-data_received (concat chunks) r' (split_lines-last (r.buffer ++ chunk))
      go (err e, p) ih = refl
