-- ===== src/Floats.antt =====
-- The floating-point numbers of Python, over an unknown type. `read` is `float(s)` on a text,
-- `ceil` is `int(math.ceil(x))` and `trunc` is `int(x)`; these and the division may raise.
use minitopo.Base.{String, Bool}
use minitopo.Base.Int.{ℤ}
use minitopo.Errors.{Result}

pub record Floats : Type 1 where
  pub F : Type 0
  pub read : String → Result F
  pub of_int : ℤ → F
  pub add : F → F → F
  pub sub : F → F → F
  pub mul : F → F → F
  pub div : F → F → Result F
  pub ceil : F → Result ℤ
  pub trunc : F → Result ℤ
  pub lt : F → F → Bool
  pub show : F → String
