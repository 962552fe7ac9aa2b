-- ===== src/Prelude/Sample.antt =====
-- Numbers for the examples: the naturals in place of the floats, with the division and the root
-- rounded down and no number below 0.
use sen_sa.Prelude.{ℕ, zero, suc, ◌+◌, ◌-◌, ◌*◌, ◌/◌, ltb, leb, ◌==◌, if◌then◌else◌}
use sen_sa.Prelude.Float.{FloatOps}

-- The greatest number up to the first whose square is at most the second.
unfoldable pub root : ℕ → ℕ → ℕ
root zero n = 0
root (suc k) n = let rest = root k n in if leb ((k + 1) * (k + 1)) n then k + 1 else rest

abbrev pub naturals : FloatOps
naturals = record {
  Float = ℕ;
  flt = ltb;
  fle = leb;
  feq = λ a b. a == b;
  fadd = λ a b. a + b;
  fsub = λ a b. a - b;
  fmul = λ a b. a * b;
  fdiv = λ a b. a / b;
  fsqrt = λ a. root a a;
  fabs = λ a. a;
  format_0f = λ a. "n";
  lit = λ n d. n / d;
  format_2f = λ a. "n";
  fround = λ a n. a;
  fint = λ a. a;
  fhypot = λ a b. root (a + b) (a * a + b * b);
  fcos = λ a. 1;
  fsin = λ a. 0;
  fpi = 3;
  flog = λ a. 0;
}
