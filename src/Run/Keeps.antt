-- ===== src/Run/Keeps.antt =====
-- Invariants of runs: one rule for each way to build a run.
use minitopo.Base.{◌≡◌, refl, List, [], ◌∷◌, Bool, true, false, if◌then◌else◌}
use minitopo.Errors.{Result, ok, err}
use mathlib.Core.Path.{subst}
use minitopo.Run.{Run, continue, pure, lift, gets, ◌>>=◌, for_each}

-- A run keeps what holds of the state, whether it returns or raises.
pub record Keeps {ℓ} {S A : Type ℓ} (P : S → Type ℓ) (run : Run S A) : Type ℓ where
  pub at : (before : S) → P before → P (run before).1

module _ {ℓ} {S A : Type ℓ} {P : S → Type ℓ} where
  pub Keeps-if : (b : Bool) (m n : Run S A) → Keeps P m → Keeps P n → Keeps P (if b then m else n)
  Keeps-if true m n km kn = km
  Keeps-if false m n km kn = kn

  pub Keeps-gets : (f : S → A) → Keeps P (gets f)
  unfolding gets
  Keeps-gets f = record { at = λ before holds. holds }

  pub Keeps-pure : (a : A) → Keeps P (pure a)
  unfolding pure
  Keeps-pure a = record { at = λ before holds. holds }

  pub Keeps-lift : (r : Result A) → Keeps P (lift r)
  unfolding lift
  Keeps-lift r = record { at = λ before holds. holds }

module _ {ℓ} {S A B : Type ℓ} {P : S → Type ℓ} where
  Keeps-after :
      (r : Result A) (f : A → Run S B) → ((a : A) → Keeps P (f a)) → Keeps P (lift r >>= f)
  unfolding ◌>>=◌ lift
  Keeps-after (ok a) f kf = kf a
  Keeps-after (err e) f kf = record { at = λ s h. h }

  pub Keeps-bind :
      (m : Run S A) (f : A → Run S B) → Keeps P m → ((a : A) → Keeps P (f a)) → Keeps P (m >>= f)
  unfolding ◌>>=◌ lift
  Keeps-bind m f km kf = record {
    at = λ s h. let (r, s') = m s in (Keeps-after r f kf).at s' (km.at s h);
  }

  -- What follows needs to keep it for the results that the first run can have only.
  pub Keeps-bind-ok :
      (m : Run S A) (f : A → Run S B)
      → Keeps P m
      → ((s : S) (a : A) → (m s).0 ≡ ok a → Keeps P (f a))
      → Keeps P (m >>= f)
  unfolding ◌>>=◌
  Keeps-bind-ok m f km kf = record { at = λ s h. after (m s).0 (m s).1 (kf s) (km.at s h) }
    where
      after :
          (r : Result A) (s : S) → ((a : A) → r ≡ ok a → Keeps P (f a)) → P s → P (continue r f s).1
      after (ok a) s k h = (k a refl).at s h
      after (err e) s k h = h

module _ {ℓ} {S A B : Type ℓ} {P : S → Type ℓ} where
  pub Keeps-for_each :
      (body : A → Run S B) (l : List A) → ((a : A) → Keeps P (body a)) → Keeps P (for_each body l)
  unfolding for_each
  Keeps-for_each body [] k = Keeps-pure tt
  Keeps-for_each body (a ∷ l) k =
      Keeps-bind (body a) (λ _. for_each body l) (k a) (λ _. Keeps-for_each body l k)

pub ruleset keeps_rules = (Keeps-pure, Keeps-lift, Keeps-gets, Keeps-if, Keeps-bind, Keeps-for_each)

-- Whatever the run returns satisfies this.
abbrev pub Returns {ℓ} : {S A : Type ℓ} → (A → Type ℓ) → Run S A → Type ℓ
Returns {S = S} {A = A} Q m = (s : S) (a : A) → (m s).0 ≡ ok a → Q a

module _ {ℓ} {S A B : Type ℓ} {Q : B → Type ℓ} where
  pub Returns-rest :
      (m : Run S A) (f : A → Run S B) → ((a : A) → Returns Q (f a)) → Returns Q (m >>= f)
  unfolding ◌>>=◌
  Returns-rest m f q s = after (m s).0 (m s).1
    where
      after : (r : Result A) (s' : S) (b : B) → (continue r f s').0 ≡ ok b → Q b
      after (ok a) s' b h = q a s' b h
      after (err e) s' b h = cc

pub Returns-pure {ℓ} : {S B : Type ℓ} (Q : B → Type ℓ) (b : B) → Q b → Returns {S = S} Q (pure b)
unfolding pure
Returns-pure {B = B} Q b q s b' h = subst Q (unwrapped b' h) q
  where
    unwrapped : (b' : B) → ok b ≡ ok b' → b ≡ b'
    unwrapped b' h = cc
