-- ===== src/Text.antt =====
-- The operations of Python's `str` and `int` that the program calls, over the native texts.
pub mod Split
pub mod Strip
pub mod Number
pub mod Lines
pub mod Sort
pub mod Slices
use minitopo.Base.{
  ℕ, ◌+◌, Char, code, String, Bool, true, false, ◌&&◌, ◌||◌, List, ◌∷◌, if◌then◌else◌,
}
use minitopo.Base.{eqb, ltb, leb}
use mathlib.Core.List.{[]}

-- Concatenation by clauses, so that it computes at a known head.
infixr 65 ◌<>◌
unfoldable pub ◌<>◌ : String → String → String
String.[] <> t = t
(String.◌∷◌ c s) <> t = String.◌∷◌ c (s <> t)

-- `s.startswith(t)`
unfoldable pub starts_with : String → String → Bool
starts_with s String.[] = true
starts_with String.[] (String.◌∷◌ d t) = false
starts_with (String.◌∷◌ c s) (String.◌∷◌ d t) = eqb (code c) (code d) && starts_with s t

-- Does the character with this code occur in the text?
unfoldable pub has : ℕ → String → Bool
has n String.[] = false
has n (String.◌∷◌ c s) = eqb (code c) n || has n s

-- `sep.join(words)`
unfoldable pub join : String → List String → String
unfolding ◌<>◌
join sep [] = ""
join sep (w ∷ []) = w
join sep (w ∷ v ∷ ws) = w <> sep <> join sep (v ∷ ws)

-- `"".join(words)`
unfoldable pub concat : List String → String
unfolding ◌<>◌
concat [] = ""
concat (w ∷ ws) = w <> concat ws

-- The characters that `strip` removes.
unfoldable pub is_space : ℕ → Bool
is_space c =
    (leb 9 c && leb c 13)
    || (leb 28 c && leb c 32)
    || eqb c 0x85
    || eqb c 0xa0
    || eqb c 0x1680
    || (leb 0x2000 c && leb c 0x200a)
    || eqb c 0x2028
    || eqb c 0x2029
    || eqb c 0x202f
    || eqb c 0x205f
    || eqb c 0x3000

unfoldable pub lstrip : String → String
lstrip String.[] = ""
lstrip (String.◌∷◌ c s) = if is_space (code c) then lstrip s else String.◌∷◌ c s

cons_unless_blank : Char → String → String
cons_unless_blank c String.[] = if is_space (code c) then "" else String.◌∷◌ c ""
cons_unless_blank c s = String.◌∷◌ c s

unfoldable pub rstrip : String → String
unfolding cons_unless_blank
rstrip String.[] = ""
rstrip (String.◌∷◌ c s) = cons_unless_blank c (rstrip s)

-- `s.strip()`
unfoldable pub strip : String → String
unfolding lstrip rstrip
strip s = rstrip (lstrip s)

-- `s.lower() == t`, for a text `t` of small letters of ASCII to which no other characters fall.
unfoldable pub lower_equals : String → String → Bool
lower_equals String.[] String.[] = true
lower_equals String.[] _ = false
lower_equals _ String.[] = false
lower_equals (String.◌∷◌ c s) (String.◌∷◌ d t) =
    (eqb (code c) (code d)
      || (leb b'A' (code c) && leb (code c) b'Z' && eqb (code c + 32) (code d)))
    && lower_equals s t

-- Does every character of the text pass the test?
unfoldable pub every : (ℕ → Bool) → String → Bool
every p String.[] = true
every p (String.◌∷◌ c s) = p (code c) && every p s
