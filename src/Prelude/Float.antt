-- ===== src/Prelude/Float.antt =====
-- Python's floats. The language provides them, so they are a parameter: a carrier and the
-- operations that the program calls. No law is built in, so a carrier may have a NaN, and a lemma
-- that relies on an order names what it needs.
use Prim.Native.Nat.{ℕ}
use Prim.Native.String.{String}
use mathlib.Core.Bool.{Bool}

pub record FloatOps : Type 1 where
  pub Float : Type 0
  -- `a < b`; `a > b` is `flt b a`
  pub flt : Float → Float → Bool
  -- `a <= b`; `a >= b` is `fle b a`
  pub fle : Float → Float → Bool
  -- `a == b`
  pub feq : Float → Float → Bool
  pub fadd : Float → Float → Float
  pub fsub : Float → Float → Float
  pub fmul : Float → Float → Float
  pub fdiv : Float → Float → Float
  -- `math.sqrt` and `abs`
  pub fsqrt : Float → Float
  pub fabs : Float → Float
  -- `f"{x:.0f}"`
  pub format_0f : Float → String
  -- the float nearest to `n / d`, which is how a decimal literal is read
  pub lit : ℕ → ℕ → Float
  -- `f"{x:.2f}"`, `round(x, n)`, and `int(x)` of a number that is not negative
  pub format_2f : Float → String
  pub fround : Float → ℕ → Float
  pub fint : Float → ℕ
  -- `math.hypot`
  pub fhypot : Float → Float → Float
  -- `math.cos`, `math.sin` and `math.pi`
  pub fcos : Float → Float
  pub fsin : Float → Float
  pub fpi : Float
  -- `math.log`
  pub flog : Float → Float
