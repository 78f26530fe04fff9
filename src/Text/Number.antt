-- ===== src/Text/Number.antt =====
-- `str(n)` and `int(s)`. Of the decimal digits of Unicode, `int` here knows those of ASCII.
pub mod RoundTrip
use minitopo.Base.{ℕ, zero, suc, ◌+◌, ◌-◌, ◌*◌, ◌/◌, ◌%◌, ◌≤◌, ◌<◌, Char, code, String, ◌≡◌, refl}
use minitopo.Base.{
  Bool, true, false, ◌&&◌, ◌||◌, Option, none, some, arith, eqb, ltb, leb, if◌then◌else◌,
}
use minitopo.Base.{Bool-cases, inl, inr}
use minitopo.Base.Int.{ℤ, pos, negsuc}
use minitopo.Text.{◌<>◌, strip, has}

abbrev digit : ℕ → String
digit zero = "0"
digit (suc zero) = "1"
digit (suc (suc zero)) = "2"
digit (suc (suc (suc zero))) = "3"
digit (suc (suc (suc (suc zero)))) = "4"
digit (suc (suc (suc (suc (suc zero))))) = "5"
digit (suc (suc (suc (suc (suc (suc zero)))))) = "6"
digit (suc (suc (suc (suc (suc (suc (suc zero))))))) = "7"
digit (suc (suc (suc (suc (suc (suc (suc (suc zero)))))))) = "8"
digit _ = "9"

-- The digits of `n` in front of `rest`. A fuel above `n` is enough.
digits_before : ℕ → ℕ → String → String
unfolding ◌<>◌
digits_before zero n rest = rest
digits_before (suc f) n rest =
    let more = digits_before f (n / 10) (digit (n % 10) <> rest) in
    if ltb n 10 then digit n <> rest else more

unfoldable pub show_ℕ : ℕ → String
unfolding digits_before
show_ℕ n = digits_before (suc n) n ""

-- `str(n)`
unfoldable pub show : ℤ → String
unfolding show_ℕ ◌<>◌
show (pos n) = show_ℕ n
show (negsuc n) = "-" <> show_ℕ (suc n)

-- The digits after a number `n` that has been read; one `_` may stand between two digits.
read_digits : ℕ → Bool → String → Option ℕ
read_digits n after_digit String.[] = if after_digit then some n else none
read_digits n after_digit (String.◌∷◌ c s) =
    let is_digit = leb 48 (code c) && leb (code c) 57 in
    let rest = read_digits (if is_digit then n * 10 + (code c - 48) else n) is_digit s in
    if is_digit || (eqb (code c) b'_' && after_digit) then rest else none

abbrev negate : Option ℕ → Option ℤ
negate none = none
negate (some zero) = some (pos 0)
negate (some (suc n)) = some (negsuc n)

abbrev positive : Option ℕ → Option ℤ
positive none = none
positive (some n) = some (pos n)

signed : String → Option ℤ
unfolding read_digits
signed String.[] = none
signed (String.◌∷◌ c s) =
    if eqb (code c) b'-'
    then negate (read_digits 0 false s)
    else if eqb (code c) b'+'
    then positive (read_digits 0 false s)
    else positive (read_digits 0 false (String.◌∷◌ c s))

-- `int(s)`; none is a `ValueError`
unfoldable pub read_int : String → Option ℤ
unfolding signed strip
read_int s = signed (strip s)
