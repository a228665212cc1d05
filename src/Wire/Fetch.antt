-- ===== src/Wire/Fetch.antt =====
-- The client reads what the server streams.
use leap_soledad.Prelude.{
  ℕ, ◌+◌, ◌%◌, ◌<◌, ◌≡◌, refl, ◌∙◌, ap, sym, subst, true, false, List, [], ◌∷◌, ◌++◌, Text, text,
  text_eq, arith, append-nil, append_assoc, All, some,
}
use leap_soledad.Prelude.Split.{Lacks}
use leap_soledad.Prelude.Strip.{strip}
use leap_soledad.Prelude.Result.{Result, ok, err, ok_injective}
use leap_soledad.Json.{Python, Value}
use leap_soledad.Wire.{check_and_strip_comma}
use leap_soledad.Wire.Lines.{split_lines, lines_then, split_lines-line}
use leap_soledad.Wire.Responder.{Responder, Sent, content_text, started_responder, post_get}
use leap_soledad.Wire.Receiver.{
  Protocol, Received, new_receiver, place, metadata_line, info_line, content_line, text_or_none,
  total_of, check_info, receive_at, line_received, and_lines, lines_received, all_received,
}
use leap_soledad.Wire.Chunks.{
  concat, outcome, all_received-concat, outcome-data_received, lines_received-append,
}
use leap_soledad.Wire.Streamed.{
  entries_of, stream_text, IsLine, comma_lines, post_get-written, split_lines-stream_text,
  check_and_strip_comma-comma, split_lines-nil,
}

module _ (py : Python) where
  -- A comma at the end of a line makes no difference.
  lines_received-comma_lines :
      (e : Text) (es : List Text)
      → IsLine e
      → All IsLine es
      → (p : Protocol)
      → lines_received py (comma_lines e es) p ≡ lines_received py ((e ∷ es) ++ (text "]" ∷ [])) p
  unfolding lines_received
  lines_received-comma_lines e [] n ns p = refl
  lines_received-comma_lines e (f ∷ es) n ns p =
      ap (λ l. and_lines (line_received py l p) (lines_received py (comma_lines f es)))
        (check_and_strip_comma-comma e ∙ sym n.no_comma)
      ∙ go (line_received py (check_and_strip_comma e).0 p)
          (lines_received-comma_lines f es ns.0 ns.1)
    where
      go :
          (r : Result (Unit {0}) × Protocol)
          → ((q : Protocol)
              → lines_received py (comma_lines f es) q
                ≡ lines_received py ((f ∷ es) ++ (text "]" ∷ [])) q)
          → and_lines r (lines_received py (comma_lines f es))
            ≡ and_lines r (lines_received py ((f ∷ es) ++ (text "]" ∷ [])))
      go (ok u, q) ih = ih q
      go (err e, q) ih = refl

  -- The information of a document is a line, parses to `value`, and is no error; its content is a
  -- line.
  pub record IsSent (s : Sent) : Type 0 where
    pub value : Value
    pub loads_info : py.loads s.info ≡ some value
    pub no_error : check_info value ≡ ok tt
    pub info_line : IsLine s.info
    pub content_line : IsLine (content_text s.content)

  -- The calls of the document reader.
  abbrev pub received : (total : Value) (ss : List Sent) → All IsSent ss → List Received
  received total [] hs = []
  received total (s ∷ ss) hs =
      (hs.0.value, text_or_none (strip (content_text s.content)), total) ∷ received total ss hs.1

  -- Where the stream has ended well, with these documents and this metadata.
  pub record EndedWith (docs : List Received) (metadata : Text) (q : Result (Unit {0}) × Protocol)
      : Type 0 where
    pub returned : q.0 ≡ ok tt
    pub all_docs : q.1.docs ≡ docs
    pub same_metadata : q.1.metadata ≡ metadata
    pub closed : q.1.properly_finished ≡ true

  place_even : (n : ℕ) → 1 < n → n % 2 ≡ 0 → place n ≡ info_line
  place_even n h e = ground arith

  place_odd : (n : ℕ) → 1 < n → n % 2 ≡ 1 → place n ≡ content_line
  place_odd n h e = ground arith

  line_received-info :
      (info : Text) (value : Value) (p : Protocol)
      → p.properly_finished ≡ false
      → place p.line ≡ info_line
      → text_eq info (text "]") ≡ false
      → py.loads info ≡ some value
      → check_info value ≡ ok tt
      → line_received py info p ≡ (ok tt, record p { current_doc = value; line = p.line + 1 })
  unfolding line_received receive_at
  line_received-info info value p open_ at no_end loads_info no_error = ground arith

  line_received-end :
      (p : Protocol)
      → p.properly_finished ≡ false
      → line_received py (text "]") p
        ≡ (ok tt, record p { properly_finished = true; line = p.line + 1 })
  unfolding line_received text_eq
  line_received-end p open_ = ground arith

  line_received-content :
      (content : Text) (p : Protocol)
      → p.properly_finished ≡ false
      → place p.line ≡ content_line
      → text_eq content (text "]") ≡ false
      → line_received py content p ≡ (
        ok tt,
        record p {
          docs = p.docs ++ ((p.current_doc, text_or_none (strip content), p.total) ∷ []);
          line = p.line + 1;
        },
      )
  unfolding line_received receive_at
  line_received-content content p open_ at no_end = rw open_ (rw no_end (rw at refl))

  docs_received :
      (ss : List Sent) (hs : All IsSent ss) (p : Protocol)
      → p.properly_finished ≡ false
      → 1 < p.line
      → p.line % 2 ≡ 0
      → EndedWith
          (p.docs ++ received p.total ss hs)
          p.metadata
          (lines_received py (entries_of ss ++ (text "]" ∷ [])) p)
  unfolding lines_received
  docs_received [] hs p open_ l even =
      let e : line_received py (text "]") p
          ≡ (ok tt, record p { properly_finished = true; line = p.line + 1 }) =
        line_received-end p open_ in
      subst (λ q. EndedWith (p.docs ++ []) p.metadata (and_lines q (λ x. (ok tt, x)))) (sym e)
        (record {
          returned = refl;
          all_docs = sym (append-nil p.docs);
          same_metadata = refl;
          closed = refl;
        })
  docs_received (s ∷ ss) hs p open_ l even =
      let h = hs.0 in
      let content = content_text s.content in
      let p1 : Protocol = record p { current_doc = h.value; line = p.line + 1 } in
      let x : Received = (h.value, text_or_none (strip content), p.total) in
      let p2 : Protocol = record p1 { docs = p.docs ++ (x ∷ []); line = p1.line + 1 } in
      let D = p.docs ++ (x ∷ received p.total ss hs.1) in
      let rest = entries_of ss ++ (text "]" ∷ []) in
      let e1 : line_received py (check_and_strip_comma s.info).0 p ≡ (ok tt, p1) =
        ap (λ l. line_received py l p) h.info_line.no_comma
        ∙ line_received-info s.info h.value p open_ (place_even p.line l even) h.info_line.no_end
            h.loads_info h.no_error in
      let e2 : line_received py (check_and_strip_comma content).0 p1 ≡ (ok tt, p2) =
        ap (λ l. line_received py l p1) h.content_line.no_comma
        ∙ line_received-content content p1 open_
            (place_odd (p.line + 1) (omega arith) (omega arith)) h.content_line.no_end in
      subst
        (λ q. EndedWith D p.metadata (
          and_lines q (λ x.
            and_lines (line_received py (check_and_strip_comma content).0 x)
              (lines_received py rest))))
        (sym e1)
        (subst (λ q. EndedWith D p.metadata (and_lines q (lines_received py rest))) (sym e2)
          (subst (λ d. EndedWith d p.metadata (lines_received py rest p2))
            (append_assoc p.docs (x ∷ []) (received p.total ss hs.1))
            (docs_received ss hs.1 p2 open_ (omega arith) (omega arith))))

  All-lines : (ss : List Sent) → All IsSent ss → All IsLine (entries_of ss)
  All-lines [] hs = tt
  All-lines (s ∷ ss) hs = (hs.0.info_line, (hs.0.content_line, All-lines ss hs.1))

  line_received-header :
      (header : Text) (total : Value) (p : Protocol)
      → p.properly_finished ≡ false
      → place p.line ≡ metadata_line
      → text_eq header (text "]") ≡ false
      → total_of py header ≡ ok total
      → line_received py header p
        ≡ (ok tt, record p { metadata = header; total = total; line = p.line + 1 })
  unfolding line_received receive_at
  line_received-header header total p open_ at no_end total_is = ground arith

  line_received-start :
      lines_received py (text "[" ∷ []) new_receiver.protocol
      ≡ (ok tt, record new_receiver.protocol { line = 1 })
  unfolding lines_received line_received receive_at text_eq check_and_strip_comma
  line_received-start = refl

  Lacks-lines : (es : List Text) → All IsLine es → All (Lacks 10) es
  Lacks-lines [] hs = tt
  Lacks-lines (e ∷ es) hs = (hs.0.no_break, Lacks-lines es hs.1)

  -- The text of a stream, read at once.
  read-stream_text :
      (header : Text) (ss : List Sent) (total : Value)
      → IsLine header
      → total_of py header ≡ ok total
      → (hs : All IsSent ss)
      → EndedWith (received total ss hs) header (
          lines_received py
            (split_lines (b'[' ∷ 13 ∷ 10 ∷ stream_text header (entries_of ss))).0
            new_receiver.protocol)
  unfolding lines_received
  read-stream_text header ss total line total_is hs =
      let es = entries_of ss in
      let E = EndedWith (received total ss hs) header in
      let p1 : Protocol = record new_receiver.protocol { line = 1 } in
      let p2 : Protocol = record p1 { metadata = header; total = total; line = 2 } in
      let e0 : split_lines (b'[' ∷ 13 ∷ 10 ∷ stream_text header es)
          ≡ (text "[" ∷ comma_lines header es, []) =
        split_lines-line (text "[") (stream_text header es) ((λ h. omega arith), tt)
        ∙ ap (lines_then (text "[" ∷ []))
            (split_lines-stream_text header es line.no_break (Lacks-lines es (All-lines ss hs))) in
      let e1 : line_received py (check_and_strip_comma header).0 p1 ≡ (ok tt, p2) =
        ap (λ l. line_received py l p1) line.no_comma
        ∙ line_received-header header total p1 refl refl line.no_end total_is in
      subst (λ (q : List Text × Text). E (lines_received py q.0 new_receiver.protocol)) (sym e0)
        (subst E
          (sym (
            lines_received-append py (text "[" ∷ []) (comma_lines header es) new_receiver.protocol
            ∙ ap (λ q. and_lines q (lines_received py (comma_lines header es))) line_received-start
            ∙ lines_received-comma_lines header es line (All-lines ss hs) p1))
          (subst (λ q. E (and_lines q (lines_received py (es ++ (text "]" ∷ []))))) (sym e1)
            (docs_received ss hs p2 refl (omega arith) refl)))

  -- What the server streams, the client reads: however the network cuts the response, the receiver
  -- raises nothing, has called the document reader with the parsed information and the stripped
  -- content of each document, in order, keeps the header as its metadata, and has seen the end.
  -- The header and each document are lines of their own, and parse to what is no error.
  pub all_received-post_get :
      (header : Text) (ss : List Sent) (total : Value) (chunks : List Text) (r : Responder)
      → IsLine header
      → total_of py header ≡ ok total
      → (hs : All IsSent ss) → post_get header ss started_responder ≡ ok r
      → concat chunks ≡ r.written
      → EndedWith (received total ss hs) header (outcome (all_received py chunks new_receiver))
  all_received-post_get header ss total chunks r line total_is hs written cut =
      let e : r.written ≡ b'[' ∷ 13 ∷ 10 ∷ stream_text header (entries_of ss) =
        ap (λ (q : Responder). q.written)
          (ok_injective (sym written ∙ post_get-written header ss)) in
      subst (EndedWith (received total ss hs) header)
        (sym (
          all_received-concat py chunks new_receiver split_lines-nil
          ∙ outcome-data_received py (concat chunks) new_receiver split_lines-nil
          ∙ ap (λ t. lines_received py (split_lines t).0 new_receiver.protocol) (cut ∙ e)))
        (read-stream_text header ss total line total_is hs)
