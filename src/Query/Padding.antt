-- ===== src/Query/Padding.antt =====
-- `"%0Nd" % v`, zero padded to a width, with the sign in front.
use leap_soledad.Prelude.{ℕ, suc, ◌-◌, ◌++◌, ◌∷◌, [], zero, Text, length}
use leap_soledad.Prelude.Int.{ℤ, pos, negsuc}
use leap_soledad.Prelude.Decimal.{show}

abbrev pub zeros : ℕ → Text
zeros zero = []
zeros (suc n) = b'0' ∷ zeros n

unfoldable pub pad : ℕ → Text → Text
pad width digits = zeros (width - length digits) ++ digits

unfoldable pub pad_int : ℕ → ℤ → Text
unfolding pad
pad_int width (pos n) = pad width (show n)
pad_int width (negsuc n) = b'-' ∷ pad (width - 1) (show (suc n))
