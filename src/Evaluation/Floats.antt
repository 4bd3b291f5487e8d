-- ===== src/Evaluation/Floats.antt =====
-- The arithmetic of Python's floats that evaluation/comparator.py uses: IEEE binary64, rounded to the
-- nearest, ties to even. The two zeros are one.
use fine_tune_harness.Base.{
  ℕ, zero, suc, ◌+◌, ◌-◌, ◌*◌, ◌^◌, Bool, true, false, not, Option, none, some, leb, ltb, nat_eq,
  if◌then◌else◌,
}
use fine_tune_harness.Base.Int.{ℤ, pos, negsuc, pos_part, neg_part}
use fine_tune_harness.Effects.{Result, return, raise, overflow_error}
use fine_tune_harness.State.Value.{Value, bool, int, float, Float, nan, inf, finite}
use fine_tune_harness.Evaluation.Validator.{overflows}
use Prim.Native.Nat.{◌/◌, ◌%◌}

unfoldable bits : (fuel n : ℕ) → ℕ
bits zero n = 0
bits (suc fuel) n = elim (nat_eq n 0) [ true ↦ 0 | false ↦ suc (bits fuel (n / 2)) ]

-- `n.bit_length()`: halving n times reaches zero.
unfoldable pub bit_length : ℕ → ℕ
unfolding bits
bit_length n = bits n n

-- n / 2 ^ s to the nearest, ties to even.
unfoldable pub round_shift : (n s : ℕ) → ℕ
round_shift n s =
    let q = n / 2 ^ s in
    let r = n % 2 ^ s in
    if ltb (2 * r) (2 ^ s) then q else if nat_eq (2 * r) (2 ^ s) then q + q % 2 else q + 1

unfoldable pub signed : (negative : Bool) → ℕ → ℤ
signed true (suc n) = negsuc n
signed true zero = pos 0
signed false n = pos n

-- The float nearest to n / 2 ^ k, or to its negative.
unfoldable pub round_float : (negative : Bool) (n k : ℕ) → Float
unfolding bit_length round_shift signed
round_float negative n k =
    let over = bit_length n - 53 in
    let under = k - 1074 in
    let s = if ltb over under then under else over in
    let rounded = round_shift n s * 2 ^ s in
    if leb (2 ^ 1024 * 2 ^ k) rounded then inf negative else finite (signed negative rounded) k

-- `a - b`
unfoldable pub subtract : Float → Float → Float
unfolding round_float
subtract nan _ = nan
subtract (inf _) nan = nan
subtract (inf true) (inf true) = nan
subtract (inf false) (inf false) = nan
subtract (inf true) _ = inf true
subtract (inf false) _ = inf false
subtract (finite _ _) nan = nan
subtract (finite _ _) (inf negative) = inf (not negative)
subtract (finite a j) (finite b k) =
    let up = pos_part a * 2 ^ k + neg_part b * 2 ^ j in
    let down = neg_part a * 2 ^ k + pos_part b * 2 ^ j in
    if ltb up down
    then round_float true (down - up) (j + k)
    else round_float false (up - down) (j + k)

-- `-a`
unfoldable pub negate : Float → Float
negate nan = nan
negate (inf negative) = inf (not negative)
negate (finite (pos zero) k) = finite (pos zero) k
negate (finite (pos (suc n)) k) = finite (negsuc n) k
negate (finite (negsuc n) k) = finite (pos (suc n)) k

-- `a / b` of two counts, where b is not zero: enough digits and one for the rest.
unfoldable pub ratio : (a b : ℕ) → Float
unfolding round_float bit_length
ratio a b =
    let k = 64 + bit_length b in
    let rest = if nat_eq (a * 2 ^ k % b) 0 then 0 else 1 in
    round_float false (2 * (a * 2 ^ k / b) + rest) (k + 1)

-- `math.isfinite`
unfoldable pub is_finite : Float → Bool
is_finite (finite _ _) = true
is_finite _ = false

-- `float(v)` where `isinstance(v, (int, float))`.
unfoldable pub float_of : Value → Option (Result Float)
unfolding overflows round_float
float_of (bool true) = some (return (finite (pos 1) 0))
float_of (bool false) = some (return (finite (pos 0) 0))
float_of (int m) = some (
    if overflows (int m)
    then raise overflow_error
    else return (round_float (ltb 0 (neg_part m)) (pos_part m + neg_part m) 0))
float_of (float f) = some (return f)
float_of _ = none
