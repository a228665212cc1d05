-- ===== src/Wire/Upload/Invoked.antt =====
-- The server reads what the client sends.
use leap_soledad.Prelude.{
  ℕ, zero, suc, ◌+◌, ◌≤◌, ◌<◌, ◌≡◌, refl, ◌∙◌, ap, sym, subst, Bool, true, false, List, [], ◌∷◌,
  ◌++◌, Text, text, text_eq, length, length-append, arith, append_assoc, All,
}
use leap_soledad.Prelude.Strip.{lstrip, rstrip}
use leap_soledad.Prelude.Result.{Result, ok, err}
use leap_soledad.Prelude.Action.{Action, and_then, ◌>>◌}
use leap_soledad.Wire.Chunks.{concat}
use leap_soledad.Wire.Responder.{Sent, content_text}
use leap_soledad.Wire.Receiver.{text_or_none}
use leap_soledad.Wire.Body.{new_body, Turn, runs, paused, stopped, start_producing, sent_of}
use leap_soledad.Wire.Reader.{FencedReader, new_reader, cut_line}
use leap_soledad.Wire.Reader.Left.{left, first_line, HasKept}
use leap_soledad.Wire.Invocation.{Resource, finish_put, put_loop, invoke}
use leap_soledad.Wire.Stripped.{strip-comma, check_and_strip_comma-true, not_end, not_empty}
use leap_soledad.Wire.Upload.{concat-start_producing}
use leap_soledad.Wire.Upload.Fields.{
  IsField, IsSendable, nonempty, tail_of, rest_text, joined-rest_text, read_line,
  check_and_strip_comma-field, read_field, take-length,
}

module _ {S : Type 0} (R : Resource S) where
  -- The calls of the resource for documents, in order.
  abbrev pub put_all : List Sent → Action S (Unit {0})
  put_all [] = R.post_end
  put_all (s ∷ ss) = R.post_put (text_or_none (content_text s.content)) s.info >> put_all ss

  finish_put-end :
      (limit : ℕ) (r : FencedReader)
      → HasKept r
      → left r ≡ []
      → (x : S) → finish_put R false r x ≡ R.post_end x
  unfolding finish_put cut_line
  finish_put-end limit r has e x =
      let q = read_line r [] [] has (ap first_line e) (omega arith) in rw q.read refl

  put_loop-end :
      (fuel : ℕ) (r : FencedReader)
      → 1 ≤ r.max_entry_size
      → HasKept r
      → left r ≡ text "]"
      → (x : S) → put_loop R (suc fuel) false r x ≡ R.post_end x
  unfolding put_loop cut_line rstrip lstrip text_eq
  put_loop-end fuel r fits has e x =
      let q = read_line r (text "]") [] has (ap first_line e) fits in
      rw q.read (finish_put-end r.max_entry_size q.reader q.has_kept q.rest_left x)

  -- A document is read from two lines and put.
  put_loop-step :
      (fuel limit : ℕ) (s : Sent) (b : Bool) (rest : Text) (r : FencedReader)
      → IsSendable limit s
      → r.max_entry_size ≡ limit
      → HasKept r
      → left r ≡ (s.info ++ tail_of true) ++ ((content_text s.content ++ tail_of b) ++ rest)
      → (r' : FencedReader) × (left r' ≡ rest)
        × (r'.max_entry_size ≡ limit)
        × HasKept r'
        × ((x : S)
            → put_loop R (suc fuel) true r x
              ≡ (R.post_put (text_or_none (content_text s.content)) s.info >> put_loop R fuel b r')
                  x)
  unfolding put_loop
  put_loop-step fuel limit s b rest r f m has e =
      let p = read_field limit s.info _ true r f.info_field m has e in
      let q =
        read_field limit (content_text s.content) rest b p.reader f.content_field (p.same_limit ∙ m)
          p.has_kept p.rest_left in
      (
        q.reader,
        q.rest_left,
        q.same_limit ∙ p.same_limit ∙ m,
        q.has_kept,
        λ x.
            rw
              (
                p.read,
                strip-comma s.info f.info_field.front,
                not_end s.info,
                not_empty s.info,
                q.read,
                check_and_strip_comma-true s.info,
                check_and_strip_comma-field limit (content_text s.content) b f.content_field,
              )
              refl,
      )

  put_loop-rest_text :
      (limit : ℕ) (ss : List Sent) (fuel : ℕ) (r : FencedReader)
      → All (IsSendable limit) ss
      → 1 ≤ limit
      → length ss < fuel
      → r.max_entry_size ≡ limit
      → HasKept r
      → left r ≡ rest_text ss
      → (x : S) → put_loop R fuel (nonempty ss) r x ≡ put_all ss x
  put_loop-rest_text limit ss zero r fs one lt m has e x = absurd (omega arith)
  put_loop-rest_text limit [] (suc fuel) r fs one lt m has e x =
      put_loop-end fuel r (omega (arith, m)) has e x
  put_loop-rest_text limit (s ∷ ss) (suc fuel) r fs one lt m has e x =
      let (r', rest_is, m', has', step) =
        put_loop-step fuel limit s (nonempty ss) (rest_text ss) r fs.0 m has e in
      step x
      ∙ then_all (R.post_put (text_or_none (content_text s.content)) s.info x)
          (put_loop R fuel (nonempty ss) r')
          (put_loop-rest_text limit ss fuel r' fs.1 one (omega arith) m' has' rest_is)
    where
      then_all :
          (res : Result (Unit {0}) × S) (k : Action S (Unit {0}))
          → ((x : S) → k x ≡ put_all ss x)
          → and_then res (λ u. k) ≡ and_then res (λ u. put_all ss)
      then_all (ok u, y) k h = h y
      then_all (err b, y) k h = refl

  All-sent_of :
      (P : Sent → Type 0) (turns : List Turn) (ss : List Sent) → All P ss → All P (sent_of turns ss)
  All-sent_of P turns [] h = tt
  All-sent_of P [] (s ∷ ss) h = (h.0, All-sent_of P [] ss h.1)
  All-sent_of P (paused ∷ turns) (s ∷ ss) h = All-sent_of P turns (s ∷ ss) h
  All-sent_of P (stopped ∷ turns) (s ∷ ss) h = tt
  All-sent_of P (runs ∷ turns) (s ∷ ss) h = (h.0, All-sent_of P turns ss h.1)

  length-rest_text : (ss : List Sent) → length ss < length (rest_text ss) + 1
  length-rest_text [] = omega arith
  length-rest_text (s ∷ ss) =
      let c = content_text s.content ++ tail_of (nonempty ss) in
      omega (
        arith,
        length-rest_text ss,
        length-append (s.info ++ tail_of true) (c ++ rest_text ss),
        length-append s.info (tail_of true),
        length-append c (rest_text ss),
      )

  -- The body, in one text.
  invoke-body :
      (limit : ℕ) (headers : Text) (ss : List Sent) (r : FencedReader)
      → IsField limit headers
      → All (IsSendable limit) ss
      → r.max_entry_size ≡ limit
      → HasKept r
      → left r ≡ b'[' ∷ 13 ∷ 10 ∷ ((headers ++ tail_of (nonempty ss)) ++ rest_text ss)
      → (x : S) → invoke R true r x ≡ (R.post_args headers >> put_all ss) x
  unfolding invoke cut_line rstrip lstrip text_eq
  invoke-body limit headers ss r f fs m has e x =
      let p =
        read_line r (b'[' ∷ 13 ∷ 10 ∷ []) ((headers ++ tail_of (nonempty ss)) ++ rest_text ss) has
          (ap first_line e) (omega (arith, f.fits, m)) in
      let q =
        read_field limit headers (rest_text ss) (nonempty ss) p.reader f (p.same_limit ∙ m)
          p.has_kept p.rest_left in
      rw (p.read, q.read, check_and_strip_comma-field limit headers (nonempty ss) f)
        (then_loop (R.post_args headers x)
          (put_loop R (length (left q.reader) + 1) (nonempty ss) q.reader)
          (put_loop-rest_text limit ss _ q.reader fs (omega (arith, f.fits))
            (subst (λ t. length ss < length t + 1) (sym q.rest_left) (length-rest_text ss))
            (q.same_limit ∙ p.same_limit ∙ m) q.has_kept q.rest_left))
    where
      then_loop :
          (res : Result (Unit {0}) × S) (k : Action S (Unit {0}))
          → ((x : S) → k x ≡ put_all ss x)
          → and_then res (λ u. k) ≡ and_then res (λ u. put_all ss)
      then_loop (ok u, y) k h = h y
      then_loop (err b, y) k h = refl

  -- The server puts the documents that the client sends, in order, after the arguments and before
  -- the end, whatever the chunks of the body and the pauses; where the client is stopped, it puts
  -- those before the stop, and the end all the same. Each text is sent on a line of its own and
  -- fits the server's limit.
  pub invoke-start_producing :
      (limit : ℕ) (turns : List Turn) (headers : Text) (ss : List Sent) (body : Text)
      → IsField limit headers
      → All (IsSendable limit) ss
      → concat (start_producing turns ss (new_body headers)) ≡ body
      → (x : S)
      → invoke R true (new_reader body (length body) limit) x
        ≡ (R.post_args headers >> put_all (sent_of turns ss)) x
  invoke-start_producing limit turns headers ss body f fs cut x =
      invoke-body limit headers (sent_of turns ss) (new_reader body (length body) limit) f
        (All-sent_of (IsSendable limit) turns ss fs) refl (λ h. cc)
        (take-length body
          ∙ sym cut
          ∙ concat-start_producing turns ss headers 0
          ∙ ap (λ t. b'[' ∷ 13 ∷ 10 ∷ (headers ++ t)) (joined-rest_text (sent_of turns ss))
          ∙ ap (λ t. b'[' ∷ 13 ∷ 10 ∷ t)
              (sym (
                append_assoc headers (tail_of (nonempty (sent_of turns ss)))
                  (rest_text (sent_of turns ss)))))
        x
