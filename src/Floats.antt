-- ===== src/Floats.antt =====
-- The `float` arguments of the program, and the checks that it makes on them: `_require_finite`,
-- `_require_non_negative_float`, `_validate_observation_timestamp` and their like. A finite float is
-- an integer number of millionths: of a second for a time, of a cost unit for a cost.
use agent_gear.Common.{ℕ, zero, suc, Bool, true, false, ℤ, pos, negsuc, ltb_ℤ, leb, if◌then◌else◌}
use agent_gear.Errors.{Error, Result, ok, err}

pub data Float : Type 0 where
  nan inf neg_inf : Float
  finite : ℤ → Float

-- Millionths in one.
abbrev pub one : ℕ
one = 1000000

-- A time in seconds, or a cost, that has passed its check.
abbrev pub float_of : ℕ → Float
float_of n = finite (pos n)

-- `a < b` on floats: no comparison with a NaN holds.
unfoldable pub float_ltb : Float → Float → Bool
float_ltb (finite a) (finite b) = ltb_ℤ a b
float_ltb (finite a) inf = true
float_ltb neg_inf (finite b) = true
float_ltb neg_inf inf = true
float_ltb _ _ = false

-- `bool(value)`: only zero is false.
unfoldable pub truthy : Float → Bool
truthy (finite (pos zero)) = false
truthy _ = true

unfoldable pub truthy_int : ℤ → Bool
truthy_int (pos zero) = false
truthy_int _ = true

-- A finite float that is not negative; the caller names the exception.
unfoldable pub require_non_negative_float : Error → Float → Result ℕ
require_non_negative_float e (finite (pos n)) = ok n
require_non_negative_float e _ = err e

-- A finite float above zero.
unfoldable pub require_positive_float : Error → Float → Result ℕ
require_positive_float e (finite (pos (suc n))) = ok (suc n)
require_positive_float e _ = err e

-- A float from 0.0 to 1.0.
unfoldable pub require_unit_interval : Error → Float → Result ℕ
require_unit_interval e (finite (pos n)) = if leb n one then ok n else err e
require_unit_interval e _ = err e

unfoldable pub require_non_negative_int : Error → ℤ → Result ℕ
require_non_negative_int e (pos n) = ok n
require_non_negative_int e (negsuc n) = err e

unfoldable pub require_positive_int : Error → ℤ → Result ℕ
require_positive_int e (pos (suc n)) = ok (suc n)
require_positive_int e _ = err e
