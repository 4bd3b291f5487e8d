-- ===== src/Registry/BuiltinHooks.antt =====
-- registry/hooks.py: the hook that stops a run early.
use fine_tune_harness.Base.{
  ℕ, ◌+◌, ◌-◌, String, Bool, true, false, ◌&&◌, ◌||◌, Option, none, some, List, [], ◌∷◌, ◌==◌,
  if◌then◌else◌, leb, ltb, ◌≡◌, refl, ap, ◌∙◌, arith, ◌⊎◌, inl, inr, Bool-cases,
}
use fine_tune_harness.Base.Int.{ℤ, pos, pos_part, neg_part}
use fine_tune_harness.Effects.{Result, return, raise, type_error}
use fine_tune_harness.State.Value.{
  Value, null, bool, int, Fields, get, is_null, Float, finite, float_lt,
}
use fine_tune_harness.Evaluation.Floats.{subtract, signed, float_of}

-- `_best` is null until a value is seen.
pub record EarlyStoppingHook : Type 0 where
  pub metric : String
  pub patience : ℕ
  pub min_delta : Float
  pub mode : String
  pub best : Value
  pub counter : ℕ
  pub should_stop : Bool

-- The value of an int or a bool, which Python subtracts without rounding.
unfoldable pub exact_int : Value → Option ℤ
exact_int (bool b) = some (pos (if b then 1 else 0))
exact_int (int n) = some n
exact_int _ = none

unfoldable pub exact_difference : ℤ → ℤ → Float
unfolding signed
exact_difference m n =
    let up = pos_part m + neg_part n in
    let down = neg_part m + pos_part n in
    if ltb up down then finite (signed true (down - up)) 0 else finite (signed false (up - down)) 0

unfoldable pub float_difference : Option (Result Float) → Option (Result Float) → Result Float
unfolding subtract
float_difference (some (return x)) (some (return y)) = return (subtract x y)
float_difference (some (return x)) (some (raise e)) = raise e
float_difference (some (raise e)) _ = raise e
float_difference _ _ = raise type_error

-- `a - b`: an int beside a float is rounded to one; other values than numbers raise.
unfoldable pub difference : Value → Value → Result Float
unfolding exact_int exact_difference float_difference float_of
difference a b = elim (exact_int a) [
  | none ↦ float_difference (float_of a) (float_of b)
  | some m ↦ elim (exact_int b) [
    | none ↦ float_difference (float_of a) (float_of b)
    | some n ↦ return (exact_difference m n)
  ]
]

unfoldable pub exceeds : Float → Result Float → Result Bool
unfolding float_lt
exceeds min_delta (return gain) = return (float_lt min_delta gain)
exceeds min_delta (raise e) = raise e

-- `improved`
unfoldable pub improves : Value → EarlyStoppingHook → Result Bool
unfolding exceeds difference
improves value h =
    if h.mode == "max"
    then exceeds h.min_delta (difference value h.best)
    else exceeds h.min_delta (difference h.best value)

unfoldable pub new_best : Value → EarlyStoppingHook → EarlyStoppingHook
new_best value h = record h { best = value; counter = 0 }

unfoldable pub no_improvement : EarlyStoppingHook → EarlyStoppingHook
no_improvement h = record h {
  counter = h.counter + 1;
  should_stop = leb h.patience (h.counter + 1) || h.should_stop;
}

-- A comparison that raises leaves the hook as it is, and the registry logs it.
unfoldable pub note_value : Value → EarlyStoppingHook → EarlyStoppingHook
unfolding new_best no_improvement improves
note_value value h = if is_null h.best then new_best value h else elim (improves value h) [
  | raise e ↦ h
  | return improved ↦ if improved then new_best value h else no_improvement h
]

unfoldable pub after_task_success : Fields → EarlyStoppingHook → EarlyStoppingHook
unfolding note_value
after_task_success result h = elim (get h.metric result) [
  | none ↦ h
  | some value ↦ note_value value h
]

unfoldable pub reset : EarlyStoppingHook → EarlyStoppingHook
reset h = record h { best = null; counter = 0; should_stop = false }

-- The results of the tasks of a run, in order.
unfoldable pub after_all : List Fields → EarlyStoppingHook → EarlyStoppingHook
unfolding after_task_success
after_all [] h = h
after_all (result ∷ rest) h = after_all rest (after_task_success result h)

unfoldable pub count : List Fields → ℕ
count [] = 0
count (_ ∷ rest) = 1 + count rest

-- How far the value is better than the best one: above it in the mode "max", below it in any other.
abbrev pub gain : (mode : String) → (value best : Value) → Result Float
gain mode value best = if mode == "max" then difference value best else difference best value

-- The value is better than the best one by more than `min_delta`.
abbrev pub Beats : (mode : String) → (min_delta : Float) → (value best : Value) → Type 0
Beats mode min_delta value best =
    (g : Float) × (gain mode value best ≡ return g) × (float_lt min_delta g ≡ true)

-- Every result has the metric, and its value is not better than `best` by more than `min_delta`.
abbrev pub Stagnates :
    (metric mode : String) → (min_delta : Float) → (best : Value) → List Fields → Type 0
Stagnates metric mode min_delta best [] = Unit
Stagnates metric mode min_delta best (result ∷ rest) =
    ((value : Value) × ((get metric result ≡ some value)
        × ((g : Float) × (gain mode value best ≡ return g) × (float_lt min_delta g ≡ false))))
    × Stagnates metric mode min_delta best rest

improves-gain :
    (value : Value) (h : EarlyStoppingHook) (g : Float)
    → gain h.mode value h.best ≡ return g
    → improves value h ≡ return (float_lt h.min_delta g)
unfolding improves exceeds
improves-gain value h g gained = elim (Bool-cases (h.mode == "max")) [
  | inl upward ↦ rw (upward, (rw upward at gained), improves, exceeds) refl
  | inr downward ↦ rw (downward, (rw downward at gained), improves, exceeds) refl
]

worse-lem :
    (h : EarlyStoppingHook) (result : Fields) (value : Value) (g : Float)
    → is_null h.best ≡ false
    → get h.metric result ≡ some value
    → gain h.mode value h.best ≡ return g
    → float_lt h.min_delta g ≡ false
    → after_task_success result h ≡ no_improvement h
unfolding after_task_success note_value
worse-lem h result value g seen found gained worse =
    rw (found, seen, improves-gain value h g gained, worse, after_task_success, note_value) refl

better-lem :
    (h : EarlyStoppingHook) (result : Fields) (value : Value)
    → get h.metric result ≡ some value
    → (h.best ≡ null) ⊎ Beats h.mode h.min_delta value h.best
    → is_null h.best ≡ true ⊎ is_null h.best ≡ false
    → after_task_success result h ≡ new_best value h
unfolding after_task_success note_value is_null
better-lem h result value found (inl first) cases =
    rw (found, first, after_task_success, note_value) refl
better-lem h result value found (inr (g, gained, better)) (inl first) =
    rw (found, first, after_task_success, note_value) refl
better-lem h result value found (inr (g, gained, better)) (inr seen) =
    rw (found, seen, improves-gain value h g gained, better, after_task_success, note_value) refl

step-lem :
    (stop : Bool) (patience n m : ℕ)
    → ((leb patience (n + 1) || stop) || (ltb 0 m && leb patience (n + 1 + m)))
      ≡ (stop || (ltb 0 (1 + m) && leb patience (n + (1 + m))))
step-lem true patience n m = ground arith
step-lem false patience n m = ground arith

-- The hook after results that do not beat its best value.
record Counted (h h' : EarlyStoppingHook) (n : ℕ) : Type 0 where
  same_best : h'.best ≡ h.best
  counted : h'.counter ≡ h.counter + n
  stops : h'.should_stop ≡ (h.should_stop || (ltb 0 n && leb h.patience (h.counter + n)))

stagnant-lem :
    (h : EarlyStoppingHook) (results : List Fields)
    → is_null h.best ≡ false
    → Stagnates h.metric h.mode h.min_delta h.best results
    → Counted h (after_all results h) (count results)
unfolding after_all count no_improvement
stagnant-lem h [] seen stagnant = record {
  same_best = refl;
  counted = ground arith;
  stops = ground arith;
}
stagnant-lem h (result ∷ rest) seen ((value, (found, (g, gained, worse))), later) =
    let after = stagnant-lem (no_improvement h) rest seen later in
    rw (worse-lem h result value g seen found gained worse, after_all)
      (record {
        same_best = after.same_best;
        counted = after.counted ∙ ground arith;
        stops = after.stops ∙ step-lem h.should_stop h.patience h.counter (count rest);
      })

-- Whatever the hook has seen: after a first value, or one that beats the best by more than min_delta
-- in the direction of the mode, and then results that do not beat that one, the best is that value, the
-- counter is the number of those results, and the hook asks for a stop exactly when it did before or
-- there are such results and as many as the patience.
pub after_all_stops :
    (h : EarlyStoppingHook) (result : Fields) (value : Value) (results : List Fields)
    → get h.metric result ≡ some value
    → is_null value ≡ false
    → (h.best ≡ null) ⊎ Beats h.mode h.min_delta value h.best
    → Stagnates h.metric h.mode h.min_delta value results
    → ((after_all (result ∷ results) h).best ≡ value)
      × (((after_all (result ∷ results) h).counter ≡ count results)
          × ((after_all (result ∷ results) h).should_stop
              ≡ (h.should_stop || (ltb 0 (count results) && leb h.patience (count results)))))
unfolding after_all new_best
after_all_stops h result value results found seen better stagnant =
    let after = stagnant-lem (new_best value h) results seen stagnant in
    rw (better-lem h result value found better (Bool-cases (is_null h.best)), after_all)
      (
        after.same_best,
        (
          after.counted ∙ from_zero,
          after.stops
              ∙ ap (λ n. h.should_stop || (ltb 0 (count results) && leb h.patience n)) from_zero,
        ),
      )
  where
    from_zero : 0 + count results ≡ count results
    from_zero = ground arith
