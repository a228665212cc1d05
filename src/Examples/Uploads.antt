-- ===== src/Examples/Uploads.antt =====
-- The theorems on what the client sends, for two documents and a server that notes its calls.
use leap_soledad.Prelude.{
  ℕ, ◌+◌, ◌<◌, ◌≡◌, ◌≢◌, refl, true, none, some, Option, [], ◌∷◌, ◌++◌, List, Text, text, text_eq,
  length, arith,
}
use leap_soledad.Prelude.Result.{ok}
use leap_soledad.Prelude.Action.{◌>>◌}
use leap_soledad.Wire.Responder.{Sent}
use leap_soledad.Wire.Body.{Turn, runs, paused, new_body, start_producing, sent_of}
use leap_soledad.Wire.Chunks.{concat}
use leap_soledad.Wire.Reader.{FencedReader, new_reader, getline}
use leap_soledad.Wire.Reader.Left.{left, first_line}
use leap_soledad.Wire.Reader.Getline.{Reads, getline-Reads}
use leap_soledad.Wire.Invocation.{Resource, invoke}
use leap_soledad.Wire.Upload.Fields.{IsField}
use leap_soledad.Wire.Upload.Invoked.{put_all, invoke-start_producing}

-- A reader that has kept `a` and a line feed of the request.
abbrev reader : FencedReader
reader = record {
  file = text "bc";
  remaining = 1;
  max_entry_size = 5;
  kept = some (b'a' ∷ 10 ∷ []);
}

getline-Reads_example : Reads 5 (first_line (left reader)) (getline reader)
getline-Reads_example = getline-Reads reader (λ h. cc)

-- The calls that the server has noted.
data Noted : Type 0 where
  args : Text → Noted
  document : Option Text → Text → Noted
  done : Noted

abbrev resource : Resource (List Noted)
resource = record {
  post_args = λ line calls. (ok tt, calls ++ (args line ∷ []));
  post_put = λ content entry calls. (ok tt, calls ++ (document content entry ∷ []));
  post_get = λ calls. (ok tt, calls);
  post_end = λ calls. (ok tt, calls ++ (done ∷ []));
}

abbrev both : List Sent
both =
    record { info = text "{1}"; content = some (text "{a}") }
    ∷ record { info = text "{2}"; content = none }
    ∷ []

abbrev turns : List Turn
turns = paused ∷ runs ∷ paused ∷ []

no_break : (c : ℕ) → 10 < c → c ≢ 10
no_break c h e = omega arith

three-IsField : (c : ℕ) → 10 < c → IsField 10 (b'{' ∷ c ∷ b'}' ∷ [])
unfolding leap_soledad.Prelude.Strip.rstrip leap_soledad.Wire.check_and_strip_comma
three-IsField c h = record {
  no_break = (no_break _ (omega arith), (no_break c h, (no_break _ (omega arith), tt)));
  front = refl;
  back = refl;
  no_comma = refl;
  fits = omega arith;
}

nothing-IsField : IsField 10 []
unfolding leap_soledad.Prelude.Strip.rstrip leap_soledad.Wire.check_and_strip_comma
nothing-IsField = record {
  no_break = tt;
  front = refl;
  back = refl;
  no_comma = refl;
  fits = omega arith;
}

invoke-start_producing_example :
    invoke resource true
      (new_reader
        (concat (start_producing turns both (new_body (text "{h}"))))
        (length (concat (start_producing turns both (new_body (text "{h}")))))
        10)
      []
    ≡ (resource.post_args (text "{h}") >> put_all resource (sent_of turns both)) []
invoke-start_producing_example =
    invoke-start_producing resource 10 turns (text "{h}") both _ (three-IsField b'h' (omega arith))
      (
        record {
          info_field = three-IsField b'1' (omega arith);
          content_field = three-IsField b'a' (omega arith);
        },
        (
          record { info_field = three-IsField b'2' (omega arith); content_field = nothing-IsField },
          tt,
        ),
      )
      refl []
