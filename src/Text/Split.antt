-- ===== src/Text/Split.antt =====
-- `s.split(sep)` at a separator of one character, and `s.split(sep, k)`.
use minitopo.Base.{true, ap, ℕ, zero, suc, Char, code, String, ◌≡◌, refl, false, List, [], ◌∷◌}
use minitopo.Base.{arith, eqb, if◌then◌else◌, ◌+◌, ◌<◌, length, get_elem?, Bool-cases, inl, inr}
use minitopo.Text.{◌<>◌, has}

-- Puts a character in front of the first word.
abbrev extend : Char → List String → List String
extend c [] = String.◌∷◌ c "" ∷ []
extend c (w ∷ ws) = String.◌∷◌ c w ∷ ws

unfoldable pub split : ℕ → String → List String
split sep String.[] = "" ∷ []
split sep (String.◌∷◌ c s) =
    let rest = split sep s in if eqb (code c) sep then "" ∷ rest else extend c rest

-- At most `k` cuts.
unfoldable pub split_at_most : ℕ → ℕ → String → List String
split_at_most sep k String.[] = "" ∷ []
split_at_most sep zero (String.◌∷◌ c s) = String.◌∷◌ c s ∷ []
split_at_most sep (suc k) (String.◌∷◌ c s) =
    let rest = split_at_most sep (if eqb (code c) sep then k else suc k) s in
    if eqb (code c) sep then "" ∷ rest else extend c rest

-- A text without the separator is one word.
pub split-free : (sep : ℕ) (s : String) → has sep s ≡ false → split sep s ≡ s ∷ []
unfolding split has
split-free sep String.[] h = refl
split-free sep (String.◌∷◌ c s) h = ground (arith, split-free sep s)

-- The first word ends at the first separator.
pub split-append :
    (sep : ℕ) (s : String) (c : Char) (t : String)
    → code c ≡ sep
    → has sep s ≡ false
    → split sep (s <> String.◌∷◌ c t) ≡ s ∷ split sep t
unfolding split has ◌<>◌
split-append sep String.[] c t e h = ground arith
split-append sep (String.◌∷◌ d s) c t e h = ground (arith, split-append sep s c t e)

pub split_at_most-append :
    (sep n : ℕ) (a : String) (c : Char) (t : String)
    → code c ≡ sep
    → has sep a ≡ false
    → split_at_most sep (suc n) (a <> String.◌∷◌ c t) ≡ a ∷ split_at_most sep n t
unfolding split_at_most has ◌<>◌
split_at_most-append sep n String.[] c t e h = ground arith
split_at_most-append sep n (String.◌∷◌ d a) c t e h =
    ground (arith, split_at_most-append sep n a c t e)

pub split_at_most-zero : (sep : ℕ) (s : String) → split_at_most sep 0 s ≡ s ∷ []
unfolding split_at_most
split_at_most-zero sep String.[] = refl
split_at_most-zero sep (String.◌∷◌ c s) = refl

pub has-append : (n : ℕ) (a t : String) → has n t ≡ true → has n (a <> t) ≡ true
unfolding has ◌<>◌
has-append n String.[] t h = h
has-append n (String.◌∷◌ c a) t h = ground (arith, has-append n a t h)

pub append-empty : (s : String) → s <> "" ≡ s
unfolding ◌<>◌
append-empty String.[] = refl
append-empty (String.◌∷◌ c s) = ap (λ t. String.◌∷◌ c t) (append-empty s)

-- There is always a first word.
pub split-nonempty :
    (sep : ℕ) (s : String) → (w : String) × (ws : List String) × (split sep s ≡ w ∷ ws)
unfolding split
split-nonempty sep String.[] = ("", [], refl)
split-nonempty sep (String.◌∷◌ c s) =
    let (w, ws, e) = split-nonempty sep s in
    elim (Bool-cases (eqb (code c) sep)) [
      | inl cut ↦ ("", split sep s, rw cut refl)
      | inr same ↦ (String.◌∷◌ c w, ws, rw same (rw e refl))
    ]

length-split-cons :
    (sep : ℕ) (c : Char) (s : String)
    → length (split sep (String.◌∷◌ c s))
      ≡ (if eqb (code c) sep then suc (length (split sep s)) else length (split sep s))
unfolding split
length-split-cons sep c s = let (w, ws, e) = split-nonempty sep s in ground (arith, e)

-- Joining two texts joins the last word of the one with the first of the other.
pub length-split-append :
    (sep : ℕ) (s t : String)
    → length (split sep (s <> t)) + 1 ≡ length (split sep s) + length (split sep t)
unfolding ◌<>◌
length-split-append sep String.[] t = unfold split in omega arith
length-split-append sep (String.◌∷◌ c s) t = ground (
  arith,
  length-split-cons sep c (s <> t),
  length-split-cons sep c s,
  length-split-append sep s t,
)

-- The words before the last one stay as they are.
pub get_elem?-split-append :
    (sep : ℕ) (s t : String) (i : ℕ)
    → i + 1 < length (split sep s)
    → get_elem? (split sep (s <> t)) i ≡ get_elem? (split sep s) i
unfolding split ◌<>◌
get_elem?-split-append sep String.[] t i h = absurd (omega arith)
get_elem?-split-append sep (String.◌∷◌ c s) t zero h =
    let (w, ws, e) = split-nonempty sep s in
    let (v, vs, f) = split-nonempty sep (s <> t) in
    ground (arith, e, f, get_elem?-split-append sep s t 0)
get_elem?-split-append sep (String.◌∷◌ c s) t (suc i) h =
    let (w, ws, e) = split-nonempty sep s in
    let (v, vs, f) = split-nonempty sep (s <> t) in
    ground (arith, e, f, get_elem?-split-append sep s t i, get_elem?-split-append sep s t (suc i))
