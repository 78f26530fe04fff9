-- ===== src/Text/Strip.antt =====
-- `strip` on a text without white space, and on a line of it.
use minitopo.Base.{ℕ, Char, code, String, ◌≡◌, refl, ◌∙◌, ap, Bool, true, false, not, arith}
use minitopo.Text.{◌<>◌, strip, lstrip, rstrip, is_space, every, cons_unless_blank}

abbrev pub solid : ℕ → Bool
solid c = not (is_space c)

cons_unless_blank-solid :
    (c : Char) (s : String) → is_space (code c) ≡ false → cons_unless_blank c s ≡ String.◌∷◌ c s
unfolding cons_unless_blank
cons_unless_blank-solid c String.[] h = ground arith
cons_unless_blank-solid c (String.◌∷◌ d s) h = refl

rstrip-line : (s : String) → every solid s ≡ true → rstrip (s <> "\n") ≡ s
unfolding rstrip every ◌<>◌
rstrip-line String.[] h = unfold is_space in refl
rstrip-line (String.◌∷◌ c s) h =
    ap (cons_unless_blank c) (rstrip-line s (ground arith))
    ∙ cons_unless_blank-solid c s (ground arith)

lstrip-line :
    (c : Char) (s : String)
    → every solid (String.◌∷◌ c s) ≡ true
    → lstrip (String.◌∷◌ c s <> "\n") ≡ String.◌∷◌ c s <> "\n"
unfolding lstrip every ◌<>◌
lstrip-line c s h = ground arith

-- A line is stripped of its "\n".
pub strip-line :
    (c : Char) (s : String)
    → every solid (String.◌∷◌ c s) ≡ true
    → strip (String.◌∷◌ c s <> "\n") ≡ String.◌∷◌ c s
unfolding strip
strip-line c s h = ap rstrip (lstrip-line c s h) ∙ rstrip-line (String.◌∷◌ c s) h
