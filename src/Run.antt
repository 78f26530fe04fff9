-- ===== src/Run.antt =====
-- Methods that change an object and may raise. What was done before a raise stays done, so the
-- state comes back beside the exception too.
pub mod Keeps
use minitopo.Base.{◌≡◌, ap, ℕ, zero, suc, ◌+◌, List, [], ◌∷◌, Bool, true, false, if◌then◌else◌}
use minitopo.Errors.{Error, Result, ok, err}

abbrev pub Run {ℓ} : Type ℓ → Type ℓ → Type ℓ
Run S A = S → Result A × S

abbrev pub continue {ℓ} : {S A B : Type ℓ} → Result A → (A → Run S B) → Run S B
continue (ok a) f s = f a s
continue (err e) f s = (err e, s)

module _ {ℓ} {S A : Type ℓ} where
  unfoldable pub pure : A → Run S A
  pure a s = (ok a, s)

  -- A result that depends on no state; it may be an exception.
  unfoldable pub lift : Result A → Run S A
  lift r s = (r, s)

  unfoldable pub gets : (S → A) → Run S A
  gets f s = (ok (f s), s)

unfoldable pub modify {ℓ} : {S : Type ℓ} → (S → S) → Run S (Unit {ℓ})
modify f s = (ok tt, f s)

module _ {ℓ} {S A B : Type ℓ} where
  infixl 5 ◌>>=◌ ◌>>◌
  unfoldable pub ◌>>=◌ : Run S A → (A → Run S B) → Run S B
  ◌>>=◌ m f s = let (r, s') = m s in continue r f s'

  abbrev pub ◌>>◌ : Run S A → Run S B → Run S B
  m >> k = m >>= λ _. k

  -- A run after one that has returned.
  pub >>=-ok :
      (m : Run S A) (f : A → Run S B) {s after : S} {a : A}
      → m s ≡ (ok a, after)
      → (m >>= f) s ≡ f a after
  unfolding ◌>>=◌
  >>=-ok m f returned = ap (λ r. continue r.0 f r.1) returned

-- A run after one that has raised is not reached.
pub >>=-err {ℓ} :
    {S A B : Type ℓ} (m : Run S A) (f : A → Run S B) {s after : S} {e : Error}
    → m s ≡ (err e, after)
    → (m >>= f) s ≡ (err e, after)
unfolding ◌>>=◌
>>=-err m f raised = ap (λ r. continue r.0 f r.1) raised

-- `for a in l: body(a)`
unfoldable pub for_each {ℓ} : {S A B : Type ℓ} → (A → Run S B) → List A → Run S (Unit {ℓ})
unfolding pure ◌>>=◌
for_each body [] = pure tt
for_each body (a ∷ l) = body a >>= λ _. for_each body l

-- The numbers `i`, …, `i + n - 1`.
abbrev pub count_from : ℕ → ℕ → List ℕ
count_from i zero = []
count_from i (suc n) = i ∷ count_from (i + 1) n
