-- ===== src/Wire/Invocation.antt =====
-- `HTTPInvocationByMethodWithBody.__call__` of src/leap/soledad/server/__init__.py, for a request whose
-- content type is application/x-soledad-sync-put or application/x-soledad-sync-get: the dispatch of
-- the lines to the methods of the resource. The content length has been tested.
use leap_soledad.Prelude.{
  ℕ, zero, suc, ◌+◌, Bool, true, false, not, ◌||◌, Option, [], ◌∷◌, Text, text, text_eq, length,
}
use leap_soledad.Prelude.Strip.{strip}
use leap_soledad.Prelude.Result.{bad_request, out_of_fuel}
use leap_soledad.Prelude.Action.{Action, raise, lift, raise_if, ◌>>=◌, ◌>>◌}
use leap_soledad.Wire.{check_and_strip_comma}
use leap_soledad.Wire.Receiver.{text_or_none}
use leap_soledad.Wire.Reader.{FencedReader, getline}
use leap_soledad.Wire.Reader.Left.{left}

-- The methods of the resource (`post_args`, `post_put`, `post_get` and `post_end`), with the
-- decoding of their arguments by `http_method`.
pub record Resource (S : Type 0) : Type 0 where
  pub post_args : Text → Action S (Unit {0})
  pub post_put : Option Text → Text → Action S (Unit {0})
  pub post_get : Action S (Unit {0})
  pub post_end : Action S (Unit {0})

abbrev pub is_empty_text : Text → Bool
is_empty_text [] = true
is_empty_text (c ∷ s) = false

module _ {S : Type 0} (R : Resource S) where
  -- What follows the end of the incoming documents.
  unfoldable pub finish_put : Bool → FencedReader → Action S (Unit {0})
  unfolding getline
  finish_put comma reader = do
    raise_if comma bad_request
    (more, reader') ← lift (getline reader)
    raise_if (not (is_empty_text more)) bad_request
    R.post_end

  -- One incoming document: its entry, which has been read, and its content on the next line.
  abbrev pub put_one :
      (Bool → FencedReader → Action S (Unit {0})) → Bool → Text → FencedReader → Action S (Unit {0})
  put_one more comma entry reader = do
    raise_if (is_empty_text entry || not comma) bad_request
    (content, reader') ← lift (getline reader)
    R.post_put (text_or_none (check_and_strip_comma (strip content)).0)
        (check_and_strip_comma entry).0
    more (check_and_strip_comma (strip content)).1 reader'

  -- By whether the entry is the end of the incoming documents.
  abbrev pub put_or_finish :
      (Bool → FencedReader → Action S (Unit {0}))
      → Bool
      → Text
      → FencedReader
      → Bool
      → Action S (Unit {0})
  put_or_finish more comma entry reader true = finish_put comma reader
  put_or_finish more comma entry reader false = put_one more comma entry reader

  -- The loop over the incoming documents; each turn reads a line that is not empty.
  unfoldable pub put_loop : ℕ → Bool → FencedReader → Action S (Unit {0})
  unfolding getline finish_put check_and_strip_comma
  put_loop zero comma reader = raise out_of_fuel
  put_loop (suc fuel) comma reader = do
    (line, reader') ← lift (getline reader)
    put_or_finish (put_loop fuel) comma (strip line) reader' (text_eq (strip line) (text "]"))

  -- What follows the header, by whether the type is application/x-soledad-sync-put: as many turns as
  -- there are characters left, and one more.
  abbrev pub documents : Bool → Bool → FencedReader → Action S (Unit {0})
  documents true comma reader = put_loop (length (left reader) + 1) comma reader
  documents false comma reader = R.post_get

  -- A sync request: `incoming` says that its type is application/x-soledad-sync-put.
  unfoldable pub invoke : Bool → FencedReader → Action S (Unit {0})
  unfolding getline put_loop check_and_strip_comma
  invoke incoming reader = do
    (opening, reader1) ← lift (getline reader)
    raise_if (not (text_eq (strip opening) (text "["))) bad_request
    (line, reader2) ← lift (getline reader1)
    R.post_args (check_and_strip_comma (strip line)).0
    documents incoming (check_and_strip_comma (strip line)).1 reader2
