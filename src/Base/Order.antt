-- ===== src/Base/Order.antt =====
-- The order of texts, which is that of their bytes.
use Prim.Native.String.{String, [], ◌∷◌, compare}
use Prim.Native.String.compare
use mathlib.Core.Path.{◌≡◌}
use mathlib.Core.Bool.{Bool, true, false}
use native.Mathlib.Omega.{arith}
use text.Mathlib.Text.{is_lt}
use godown.Base.Tests.{str_eq}

-- `a < b` on strings.
abbrev pub str_lt : String → String → Bool
str_lt a b = is_lt (compare a b)

-- Of two different texts the one or the other is less.
pub str_lt_total : (s t : String) → str_lt s t ≡ false → str_eq s t ≡ false → str_lt t s ≡ true
str_lt_total [] [] h k = ground (arith, compare.nil-nil)
str_lt_total [] (d ∷ t) h k = ground (arith, compare.nil-cons d t)
str_lt_total (c ∷ s) [] h k = ground (arith, compare.nil-cons c s)
str_lt_total (c ∷ s) (d ∷ t) h k =
    ground (arith, compare.cons-cons c d s t, compare.cons-cons d c t s, str_lt_total s t)
