-- ===== src/Base/Text.antt =====
-- Texts. A Go string is a native text, a sequence of code points: strings that are not valid
-- UTF-8 do not occur in the model. `len` counts bytes, as in Go.
use Prim.Native.String.{String}
use mathlib.Core.Bool.{Bool, false}
use text.Mathlib.Text.{◌==◌}
use text.Mathlib.TextEquality.{eq_iff}
use mathlib.Core.Path.{◌≡◌}
use mathlib.Core.Logic.{◌≢◌}
use native.Mathlib.Omega.{arith}

abbrev pub str_eq : String → String → Bool
str_eq s t = s == t

abbrev pub is_empty : String → Bool
is_empty s = s == ""

-- Two texts that the test tells apart.
pub str_eq-ne : (s t : String) → str_eq s t ≡ false → s ≢ t
str_eq-ne s t differ e = ground (arith, eq_iff s t)
