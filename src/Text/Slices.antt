-- ===== src/Text/Slices.antt =====
-- `len(s)` and the slices of a text.
use minitopo.Base.{ℕ, zero, suc, ◌+◌, ◌-◌, String, ◌≡◌, refl, ap, arith}
use minitopo.Base.Int.{ℤ, pos, negsuc}
use minitopo.Text.{◌<>◌}

-- `len(s)`
unfoldable pub len : String → ℕ
len String.[] = 0
len (String.◌∷◌ c s) = suc (len s)

-- `s[n:]` for `n` that is not negative.
unfoldable pub drop : ℕ → String → String
drop zero s = s
drop (suc n) String.[] = ""
drop (suc n) (String.◌∷◌ c s) = drop n s

-- `s[:n]`
unfoldable pub take : ℕ → String → String
take zero s = ""
take (suc n) String.[] = ""
take (suc n) (String.◌∷◌ c s) = String.◌∷◌ c (take n s)

-- `s[n:]`; a negative `n` counts from the end.
unfoldable pub slice_from : ℤ → String → String
unfolding drop len
slice_from (pos n) s = drop n s
slice_from (negsuc n) s = drop (len s - suc n) s

pub len-append : (s t : String) → len (s <> t) ≡ len s + len t
unfolding len ◌<>◌
len-append String.[] t = omega arith
len-append (String.◌∷◌ c s) t = omega (arith, len-append s t)

pub len-drop : (n : ℕ) (s : String) → len (drop n s) ≡ len s - n
unfolding len drop
len-drop zero s = omega arith
len-drop (suc n) String.[] = omega arith
len-drop (suc n) (String.◌∷◌ c s) = omega (arith, len-drop n s)

drop-append : (s t : String) → drop (len s) (s <> t) ≡ t
unfolding len drop ◌<>◌
drop-append String.[] t = refl
drop-append (String.◌∷◌ c s) t = drop-append s t

take-append : (s t : String) → take (len s) (s <> t) ≡ s
unfolding len take ◌<>◌
take-append String.[] t = refl
take-append (String.◌∷◌ c s) t = ap (λ r. String.◌∷◌ c r) (take-append s t)

take-drop : (n : ℕ) (s : String) → take n s <> drop n s ≡ s
unfolding take drop ◌<>◌
take-drop zero s = refl
take-drop (suc n) String.[] = refl
take-drop (suc n) (String.◌∷◌ c s) = ap (λ r. String.◌∷◌ c r) (take-drop n s)

pub append_assoc_text : (a b c : String) → (a <> b) <> c ≡ a <> (b <> c)
unfolding ◌<>◌
append_assoc_text String.[] b c = refl
append_assoc_text (String.◌∷◌ d a) b c = ap (λ s. String.◌∷◌ d s) (append_assoc_text a b c)

pub len-eq-zero : (s : String) → len s ≡ 0 → s ≡ ""
unfolding len
len-eq-zero String.[] h = refl
len-eq-zero (String.◌∷◌ c s) h = absurd (omega arith)
