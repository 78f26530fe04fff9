-- ===== src/Errors.antt =====
-- The exceptions that the code raises or lets pass, and computations that may raise one.
use minitopo.Base.{String, Option, none, some}

pub data Error : Type 0 where
  value_error type_error attribute_error index_error key_error : Error
  zero_division overflow not_implemented stopped name_error : Error
  exception : String → Error

pub data Result {ℓ} (A : Type ℓ) : Type ℓ where
  err : Error → Result A
  ok : A → Result A

-- The value, or this exception where there is none.
abbrev pub or_raise {ℓ} : {A : Type ℓ} → Error → Option A → Result A
or_raise e none = err e
or_raise e (some a) = ok a

-- A statement and what follows it: an exception skips the rest.
infixl 5 ◌>>=◌ ◌>>◌
abbrev pub ◌>>=◌ {ℓ κ} : {A : Type ℓ} {B : Type κ} → Result A → (A → Result B) → Result B
err raised >>= rest = err raised
ok value >>= rest = rest value

abbrev pub ◌>>◌ {ℓ κ} : {A : Type ℓ} {B : Type κ} → Result A → Result B → Result B
first >> second = first >>= λ _. second
