-- ===== src/Executor/Conversion.antt =====
-- Python's `int(v)` as executor/worker.py applies it to the limits in a payload.
use fine_tune_harness.Base.{ℕ, zero, suc, ◌^◌, String, true, false, Option, none, some}
use fine_tune_harness.Base.Int.{ℤ, pos, negsuc}
use fine_tune_harness.Effects.{Result, return, raise, value_error, type_error, overflow_error}
use fine_tune_harness.State.Value.{Value, bool, int, float, str, nan, inf, finite}
use Prim.Native.Nat.{◌/◌, max}

-- Minus a number.
unfoldable pub negate : ℕ → ℤ
negate zero = pos 0
negate (suc n) = negsuc n

-- A float is cut towards zero.
unfoldable pub truncate : ℤ → ℕ → ℤ
unfolding negate
truncate (pos n) k = pos (n / 2 ^ k)
truncate (negsuc n) k = negate (suc n / 2 ^ k)

-- `parse` reads a text, which is the interpreter's.
unfoldable pub to_int : (parse : String → Option ℤ) → Value → Result ℤ
unfolding truncate
to_int parse (bool true) = return (pos 1)
to_int parse (bool false) = return (pos 0)
to_int parse (int n) = return n
to_int parse (float nan) = raise value_error
to_int parse (float (inf _)) = raise overflow_error
to_int parse (float (finite m k)) = return (truncate m k)
to_int parse (str s) = elim (parse s) [ none ↦ raise value_error | some n ↦ return n ]
to_int parse _ = raise type_error

-- `max(1, n)`
unfoldable pub at_least_one : ℤ → ℕ
at_least_one (pos n) = max 1 n
at_least_one (negsuc _) = 1
