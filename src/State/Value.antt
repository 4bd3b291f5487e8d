-- ===== src/State/Value.antt =====
-- The values of configurations, payloads and results: those that JSON can carry. A finite float is
-- held exactly, as an integer over a power of two; dictionaries keep their insertion order.
use fine_tune_harness.Base.{
  ℕ, ◌+◌, ◌*◌, ◌^◌, String, Bool, true, false, not, Option, none, some, ◌&&◌, ltb, nat_eq,
  if◌then◌else◌, ◌==◌,
}
use fine_tune_harness.Base.Int.{ℤ, pos, pos_part, neg_part}

-- `finite m k` is m / 2 ^ k.
pub data Float : Type 0 where
  nan : Float
  inf : (negative : Bool) → Float
  finite : (mantissa : ℤ) (halvings : ℕ) → Float

mutual
  pub data Value : Type 0 where
    null : Value
    bool : Bool → Value
    int : ℤ → Value
    float : Float → Value
    str : String → Value
    list : Items → Value
    dict : Fields → Value

  pub data Items : Type 0 where
    nil : Items
    cons : Value → Items → Items

  pub data Fields : Type 0 where
    end : Fields
    field : String → Value → Fields → Fields

-- `d.get(k)` and the test `k in d`.
unfoldable pub get : String → Fields → Option Value
get k end = none
get k (field j v fs) = if j == k then some v else get k fs

unfoldable pub has : String → Fields → Bool
unfolding get
has k fs = elim (get k fs) [ none ↦ false | some _ ↦ true ]

-- `d[k] = v`
unfoldable pub set : String → Value → Fields → Fields
set k v end = field k v end
set k v (field j w fs) = if j == k then field k v fs else field j w (set k v fs)

-- `d.get(k, default)`, and `d.get(k)` where `None` stands for a missing key.
unfoldable pub get_or : String → Value → Fields → Value
unfolding get
get_or k default fs = elim (get k fs) [ none ↦ default | some v ↦ v ]

unfoldable pub is_zero : Float → Bool
is_zero nan = false
is_zero (inf _) = false
is_zero (finite m k) = nat_eq (pos_part m) (neg_part m)

-- Python's truth value of an object.
unfoldable pub truthy : Value → Bool
unfolding is_zero
truthy null = false
truthy (bool b) = b
truthy (int m) = not (is_zero (finite m 0))
truthy (float f) = not (is_zero f)
truthy (str s) = not (s == "")
truthy (list nil) = false
truthy (list (cons _ _)) = true
truthy (dict end) = false
truthy (dict (field _ _ _)) = true

unfoldable pub is_null : Value → Bool
is_null null = true
is_null _ = false

-- `x or y` on Python values.
unfoldable pub or_else : Value → Value → Value
unfolding truthy
or_else x y = if truthy x then x else y

-- The order of floats: every comparison with NaN is false.
unfoldable pub float_lt : Float → Float → Bool
float_lt nan _ = false
float_lt _ nan = false
float_lt (inf true) (inf true) = false
float_lt (inf true) _ = true
float_lt (inf false) _ = false
float_lt (finite _ _) (inf true) = false
float_lt (finite _ _) (inf false) = true
float_lt (finite a j) (finite b k) =
    ltb (pos_part a * 2 ^ k + neg_part b * 2 ^ j) (pos_part b * 2 ^ j + neg_part a * 2 ^ k)

unfoldable pub is_nan : Float → Bool
is_nan nan = true
is_nan _ = false

unfoldable pub is_inf : Float → Bool
is_inf (inf _) = true
is_inf _ = false

-- `a <= b`
unfoldable pub float_le : Float → Float → Bool
unfolding float_lt is_nan
float_le a b = not (is_nan a) && (not (is_nan b) && not (float_lt b a))

-- `isinstance(v, (int, float))`: a bool is an int. The number as an exact float.
unfoldable pub number : Value → Option Float
number (bool true) = some (finite (pos 1) 0)
number (bool false) = some (finite (pos 0) 0)
number (int m) = some (finite m 0)
number (float f) = some f
number _ = none

unfoldable pub is_str : Value → Bool
is_str (str _) = true
is_str _ = false
