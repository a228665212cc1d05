-- ===== src/Examples/Documents.antt =====
-- The theorems on documents and index expressions at concrete ones.
use leap_soledad.Prelude.{◌≡◌, refl, true, text}
use leap_soledad.Json.{is_object}
use leap_soledad.Document.{is_valid_json}
use leap_soledad.Document.Content.{ReadsContent, get_content_keeps}
use leap_soledad.Query.Parser.{parse}
use leap_soledad.Query.Parser.Total.{EndsWell, parse-EndsWell}
use leap_soledad.Examples.{python, note}

note_valid : is_valid_json python note.json ≡ true
unfolding is_valid_json is_object
note_valid = refl

get_content_keeps_example : ReadsContent python note
get_content_keeps_example = get_content_keeps python note refl note_valid

parse-EndsWell_example : EndsWell (parse (text "combine(lower(a.b), number(c, 5))"))
parse-EndsWell_example = parse-EndsWell (text "combine(lower(a.b), number(c, 5))")
