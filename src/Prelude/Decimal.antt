-- ===== src/Prelude/Decimal.antt =====
-- `'%d' % n` of a natural number, and `int(s)` of a text of decimal digits. Python's `int` takes
-- signs and blanks too: such a text raises ValueError here.
use mathlib.Core.Path.{◌≡◌, refl, ◌∙◌}
use mathlib.Core.Logic.{◌≢◌}
use mathlib.Core.Bool.{◌&&◌}
use mathlib.Core.List.{List, [], ◌∷◌, ◌++◌}
use Prim.Native.Nat.{ℕ, zero, suc, ◌+◌, ◌-◌, ◌*◌, ◌/◌, ◌%◌, ◌<◌, ◌≤◌}
use native.Mathlib.Omega.{arith}
use leap_soledad.Prelude.Tests.{ltb, leb, if◌then◌else◌}
use leap_soledad.Prelude.Lists.{All, All-append}
use leap_soledad.Prelude.Texts.{Text}
use leap_soledad.Prelude.Result.{Result, ok, err, value_error, ◌>>=◌}

-- The digits of `n`, with fuel: `n + 1` rounds are more than it takes.
show_fuel : ℕ → ℕ → Text
show_fuel zero n = []
show_fuel (suc fuel) n =
    let front = show_fuel fuel (n / 10) in
    if ltb n 10 then (48 + n) ∷ [] else front ++ ((48 + n % 10) ∷ [])

unfoldable pub show : ℕ → Text
unfolding show_fuel
show n = show_fuel (suc n) n

read_digits : ℕ → Text → Result ℕ
read_digits n [] = ok n
read_digits n (c ∷ s) =
    let rest = read_digits (n * 10 + (c - 48)) s in
    if leb 48 c && leb c 57 then rest else err value_error

unfoldable pub read : Text → Result ℕ
unfolding read_digits
read [] = err value_error
read (c ∷ s) = read_digits 0 (c ∷ s)

read_digits-append :
    (n : ℕ) (s t : Text) → read_digits n (s ++ t) ≡ (read_digits n s >>= λ m. read_digits m t)
unfolding read_digits
read_digits-append n [] t = refl
read_digits-append n (c ∷ s) t = ground (arith, read_digits-append (n * 10 + (c - 48)) s t)

read-show_fuel : (fuel n : ℕ) → n < fuel → read_digits 0 (show_fuel fuel n) ≡ ok n
unfolding show_fuel read_digits
read-show_fuel zero n h = absurd (omega arith)
read-show_fuel (suc fuel) n h = ground (
  arith,
  read_digits-append 0 (show_fuel fuel (n / 10)) ((48 + n % 10) ∷ []),
  read-show_fuel fuel (n / 10),
)

abbrev pub IsDigit : ℕ → Type 0
IsDigit c = (48 ≤ c) × (c ≤ 57)

show_fuel-IsDigit : (fuel n : ℕ) → All IsDigit (show_fuel fuel n)
unfolding show_fuel
show_fuel-IsDigit zero n = tt
show_fuel-IsDigit (suc fuel) n = ground (
  arith,
  All-append IsDigit (show_fuel fuel (n / 10)) ((48 + n % 10) ∷ [])
      (show_fuel-IsDigit fuel (n / 10)),
)

read_nonempty : (s : Text) → s ≢ [] → read s ≡ read_digits 0 s
unfolding read
read_nonempty [] h = absurd (h refl)
read_nonempty (c ∷ s) h = refl

append-ne-nil {ℓ} : {A : Type ℓ} (xs : List A) (a : A) → (xs ++ (a ∷ [])) ≢ []
append-ne-nil [] a e = cc
append-ne-nil (x ∷ xs) a e = cc

show-ne-nil : (n : ℕ) → show n ≢ []
unfolding show
show-ne-nil n = ground (arith, append-ne-nil (show_fuel n (n / 10)) (48 + n % 10))

-- Reading a printed number gives it back.
pub read-show : (n : ℕ) → read (show n) ≡ ok n
read-show n =
    read_nonempty (show n) (show-ne-nil n) ∙ unfold show in read-show_fuel (suc n) n (omega arith)

-- Every character of a printed number is a digit.
pub show-IsDigit : (n : ℕ) → All IsDigit (show n)
unfolding show
show-IsDigit n = show_fuel-IsDigit (suc n) n
