-- ===== src/Text/Number/RoundTrip.antt =====
-- What `str` writes, `int` reads back.
use minitopo.Base.{ℕ, zero, suc, ◌+◌, ◌*◌, ◌/◌, ◌%◌, ◌<◌, code, String, ◌≡◌, refl, ◌∙◌}
use minitopo.Base.{Bool, true, false, ◌&&◌, some, arith, eqb, ltb, leb}
use minitopo.Base.{Bool-cases, inl, inr, ap}
use minitopo.Base.Int.{ℤ, pos, negsuc}
use minitopo.Text.{◌<>◌, strip, lstrip, rstrip, is_space, has, every}
use minitopo.Text.Number.{
  digit, digits_before, show_ℕ, show, read_digits, positive, negate, signed, read_int,
}

abbrev pub is_digit : ℕ → Bool
is_digit c = leb 48 c && leb c 57

every-digit :
    (n : ℕ) (rest : String) → every is_digit rest ≡ true → every is_digit (digit n <> rest) ≡ true
unfolding every ◌<>◌
every-digit zero rest h = h
every-digit (suc zero) rest h = h
every-digit (suc (suc zero)) rest h = h
every-digit (suc (suc (suc zero))) rest h = h
every-digit (suc (suc (suc (suc zero)))) rest h = h
every-digit (suc (suc (suc (suc (suc zero))))) rest h = h
every-digit (suc (suc (suc (suc (suc (suc zero)))))) rest h = h
every-digit (suc (suc (suc (suc (suc (suc (suc zero))))))) rest h = h
every-digit (suc (suc (suc (suc (suc (suc (suc (suc zero)))))))) rest h = h
every-digit _ rest h = h

every-digits_before :
    (f n : ℕ) (rest : String)
    → every is_digit rest ≡ true
    → every is_digit (digits_before f n rest) ≡ true
unfolding digits_before
every-digits_before zero n rest h = h
every-digits_before (suc f) n rest h = ground (
  arith,
  every-digit n rest h,
  every-digits_before f (n / 10) (digit (n % 10) <> rest) (every-digit (n % 10) rest h),
)

every-show_ℕ : (n : ℕ) → every is_digit (show_ℕ n) ≡ true
unfolding show_ℕ every
every-show_ℕ n = every-digits_before (suc n) n "" refl

-- A text of digits holds no other character.
has-digits : (c : ℕ) (s : String) → is_digit c ≡ false → every is_digit s ≡ true → has c s ≡ false
unfolding has every
has-digits c String.[] p h = refl
has-digits c (String.◌∷◌ d s) p h = ground (arith, has-digits c s p)

digit-is_space : (c : ℕ) → is_digit c ≡ true → is_space c ≡ false
unfolding is_space
digit-is_space c h = ground arith

-- No white space, nothing to strip.
rstrip-solid : (s : String) → every is_digit s ≡ true → rstrip s ≡ s
unfolding every rstrip
rstrip-solid String.[] h = refl
rstrip-solid (String.◌∷◌ c String.[]) h = ground (arith, digit-is_space (code c))
rstrip-solid (String.◌∷◌ c (String.◌∷◌ d s)) h =
    rw (rstrip-solid (String.◌∷◌ d s) (ground arith)) refl

zero_times : (n : ℕ) → 0 * 10 + n ≡ n
zero_times n = omega arith

read-digit :
    (a : ℕ) (b : Bool) (d : ℕ) (rest : String)
    → d < 10
    → read_digits a b (digit d <> rest) ≡ read_digits (a * 10 + d) true rest
unfolding read_digits ◌<>◌
read-digit a b zero rest h = ground arith
read-digit a b (suc zero) rest h = ground arith
read-digit a b (suc (suc zero)) rest h = ground arith
read-digit a b (suc (suc (suc zero))) rest h = ground arith
read-digit a b (suc (suc (suc (suc zero)))) rest h = ground arith
read-digit a b (suc (suc (suc (suc (suc zero))))) rest h = ground arith
read-digit a b (suc (suc (suc (suc (suc (suc zero)))))) rest h = ground arith
read-digit a b (suc (suc (suc (suc (suc (suc (suc zero))))))) rest h = ground arith
read-digit a b (suc (suc (suc (suc (suc (suc (suc (suc zero)))))))) rest h = ground arith
read-digit a b (suc (suc (suc (suc (suc (suc (suc (suc (suc zero))))))))) rest h = ground arith
read-digit a b (suc (suc (suc (suc (suc (suc (suc (suc (suc (suc d)))))))))) rest h =
    absurd (omega arith)

read-digits_before :
    (f n : ℕ) (b : Bool) (rest : String)
    → n < f
    → read_digits 0 b (digits_before f n rest) ≡ read_digits n true rest
unfolding digits_before
read-digits_before zero n b rest h = elim h [ ]
read-digits_before (suc f) n b rest h = elim (Bool-cases (ltb n 10)) [
  | inl small ↦ rw small (read-digit 0 b n rest (ground arith) ∙ rw (zero_times n))
  | inr large ↦ rw large (
      read-digits_before f (n / 10) b (digit (n % 10) <> rest) (ground arith)
      ∙ read-digit (n / 10) true (n % 10) rest (omega arith)
      ∙ ap (λ m. read_digits m true rest) (omega arith))
]

-- A text of digits is read as a number without a sign.
signed-digits : (s : String) → every is_digit s ≡ true → signed s ≡ positive (read_digits 0 false s)
unfolding signed every
signed-digits String.[] h = refl
signed-digits (String.◌∷◌ c s) h = ground arith

lstrip-solid : (s : String) → every is_digit s ≡ true → lstrip s ≡ s
unfolding every lstrip
lstrip-solid String.[] h = refl
lstrip-solid (String.◌∷◌ c s) h = ground (arith, digit-is_space (code c))

-- Natural numbers survive the round trip.
read_int-show_ℕ : (n : ℕ) → read_int (show_ℕ n) ≡ some (pos n)
unfolding read_int
read_int-show_ℕ n =
    rw
      (
        lstrip-solid (show_ℕ n) (every-show_ℕ n),
        rstrip-solid (show_ℕ n) (every-show_ℕ n),
        signed-digits (show_ℕ n) (every-show_ℕ n),
      )
      (unfold show_ℕ in rw (read-digits_before (suc n) n false "" (omega arith)) refl)

rstrip-minus : (s : String) → every is_digit s ≡ true → rstrip ("-" <> s) ≡ "-" <> s
unfolding ◌<>◌ rstrip is_space
rstrip-minus String.[] h = refl
rstrip-minus (String.◌∷◌ c s) h = rw (rstrip-solid (String.◌∷◌ c s) h) refl

signed-minus : (s : String) → signed ("-" <> s) ≡ negate (read_digits 0 false s)
unfolding signed ◌<>◌
signed-minus s = refl

lstrip-minus : (s : String) → lstrip ("-" <> s) ≡ "-" <> s
unfolding lstrip ◌<>◌ is_space
lstrip-minus s = refl

strip-minus : (n : ℕ) → strip ("-" <> show_ℕ n) ≡ "-" <> show_ℕ n
unfolding strip
strip-minus n = ap rstrip (lstrip-minus (show_ℕ n)) ∙ rstrip-minus (show_ℕ n) (every-show_ℕ n)

read_digits-show_ℕ : (n : ℕ) → read_digits 0 false (show_ℕ n) ≡ some n
unfolding show_ℕ read_digits
read_digits-show_ℕ n = read-digits_before (suc n) n false "" (omega arith)

read_int-minus : (n : ℕ) → read_int ("-" <> show_ℕ n) ≡ negate (some n)
unfolding read_int
read_int-minus n =
    ap signed (strip-minus n) ∙ signed-minus (show_ℕ n) ∙ ap negate (read_digits-show_ℕ n)

-- All integers survive the round trip.
pub read_int-show : (z : ℤ) → read_int (show z) ≡ some z
unfolding show
read_int-show (pos n) = read_int-show_ℕ n
read_int-show (negsuc n) = read_int-minus (suc n)

-- The text of an integer holds digits and at most a minus sign.
pub has-show : (c : ℕ) (z : ℤ) → is_digit c ≡ false → eqb c b'-' ≡ false → has c (show z) ≡ false
unfolding show has ◌<>◌
has-show c (pos n) p q = has-digits c (show_ℕ n) p (every-show_ℕ n)
has-show c (negsuc n) p q = ground (arith, has-digits c (show_ℕ (suc n)) p (every-show_ℕ (suc n)))
