-- ===== src/Prelude/Text.antt =====
-- Texts that the program compares and joins whole.
use Prim.Native.Char.{code}
use mathlib.Core.Option.{Option, none, some}
use sen_sa.Prelude.Tests.{◌==◌, if◌then◌else◌}
pub use Prim.Native.String.{String}
pub use Prim.Native.String.{◌++◌}
pub use text.Mathlib.Text.{◌==◌ as str_eq}
pub use text.Mathlib.TextEquality.{eq_iff}
pub use text.Mathlib.TextPositions.{eq_refl}

-- `text[len(prefix):]` where the text starts with the prefix
unfoldable pub strip_prefix : (prefix text : String) → Option String
strip_prefix String.[] text = some text
strip_prefix (String.◌∷◌ c p) String.[] = none
strip_prefix (String.◌∷◌ c p) (String.◌∷◌ d s) =
    let rest = strip_prefix p s in if code c == code d then rest else none

-- `str.lower` and `str.upper`, which the language provides.
pub record Casing : Type 0 where
  pub lower : String → String
  pub upper : String → String
