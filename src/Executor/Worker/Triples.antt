-- ===== src/Executor/Worker/Triples.antt =====
-- Statements of the worker (executor/worker.py) between conditions on the table of tasks: one on what
-- is returned, one for every exception.
use fine_tune_harness.Base.{Bool, true, false, Dict, ◌≡◌, refl, sym, if◌then◌else◌}
use fine_tune_harness.Effects.{Exception, Result, return, raise, pure, throw, lift, and_then, ◌>>=◌}
use fine_tune_harness.World.{World, Act}
use fine_tune_harness.State.Models.{TaskRecord}
use fine_tune_harness.Executor.Worker.Frames.{Keeps}
use mathlib.Core.Path.{subst}

abbrev pub Tasks : Type 1
Tasks = Dict TaskRecord → Type 0

abbrev pub After : {A : Type 0} → (A → Tasks) → Tasks → Result A → Dict TaskRecord → Type 0
After returned raised (return a) d = returned a d
After returned raised (raise e) d = raised d

-- From a table with `before`, the step ends with `returned` of its result, or raises with `raised`.
pub record Triple {E A : Type 0} (before : Tasks) (m : Act E A) (returned : A → Tasks)
    (raised : Tasks) : Type 0 where
  pub at : (w : World E) → before w.store.tasks → After returned raised (m w).0 (m w).1.store.tasks

module _ {E : Type 0} where
  pub Triple-bind :
      {A B : Type 0} {before : Tasks} {m : Act E A} {f : A → Act E B} {middle : A → Tasks}
      {returned : B → Tasks} {raised : Tasks}
      → Triple before m middle raised
      → ((a : A) → Triple (middle a) (f a) returned raised)
      → Triple before (m >>= f) returned raised
  Triple-bind {A = A} {B = B} {m = m} {f = f} {middle = middle} {returned = returned}
        {raised = raised} first onwards =
      record { at = λ w h. onward (m w).0 (m w).1 (first.at w h) }
    where
      onward :
          (r : Result A) (w : World E)
          → After middle raised r w.store.tasks
          → After returned raised (and_then r f w).0 (and_then r f w).1.store.tasks
      onward (return a) w h = (onwards a).at w h
      onward (raise e) w h = h

  pub Triple-pure :
      {A : Type 0} {returned : A → Tasks} {raised : Tasks} (a : A)
      → Triple {E = E} (returned a) (pure a) returned raised
  Triple-pure a = record { at = λ w h. h }

  pub Triple-throw :
      {A : Type 0} {returned : A → Tasks} {raised : Tasks} (e : Exception)
      → Triple {E = E} raised (throw e) returned raised
  Triple-throw e = record { at = λ w h. h }

  pub Triple-if :
      {A : Type 0} {before : Tasks} {returned : A → Tasks} {raised : Tasks} (b : Bool)
      {m n : Act E A}
      → (b ≡ true → Triple before m returned raised)
      → (b ≡ false → Triple before n returned raised)
      → Triple before (if b then m else n) returned raised
  Triple-if true hm hn = hm refl
  Triple-if false hm hn = hn refl

  -- A step that leaves the tasks alone.
  pub Triple-keep :
      {A : Type 0} {before raised : Tasks} {m : Act E A}
      → Keeps m
      → ((d : Dict TaskRecord) → before d → raised d)
      → Triple before m (λ _. before) raised
  Triple-keep {A = A} {before = before} {raised = raised} {m = m} kept weaker = record {
    at = λ w h. either (m w).0 (m w).1.store.tasks (subst before (sym (kept.at w)) h);
  }
    where
      either : (r : Result A) (d : Dict TaskRecord) → before d → After (λ _. before) raised r d
      either (return a) d h = h
      either (raise e) d h = weaker d h

  -- A result that was computed without the state.
  pub Triple-lift :
      {A : Type 0} {before raised : Tasks} (r : Result A)
      → ((d : Dict TaskRecord) → before d → raised d)
      → Triple {E = E} before (lift r) (λ a d. (r ≡ return a) × before d) raised
  unfolding lift
  Triple-lift (return a) weaker = record { at = λ w h. (refl, h) }
  Triple-lift (raise e) weaker = record { at = λ w h. weaker w.store.tasks h }

  pub Triple-given :
      {A C : Type 0} {before : Tasks} {m : Act E A} {returned : A → Tasks} {raised : Tasks}
      → (C → Triple before m returned raised)
      → Triple (λ d. C × before d) m returned raised
  Triple-given h = record { at = λ w given. (h given.0).at w given.1 }

  pub Triple-weaken :
      {A : Type 0} {before before' raised : Tasks} {m : Act E A} {returned : A → Tasks}
      → ((d : Dict TaskRecord) → before' d → before d)
      → Triple before m returned raised
      → Triple before' m returned raised
  Triple-weaken weaker h = record { at = λ w given. h.at w (weaker w.store.tasks given) }

  pub Triple-returns :
      {A : Type 0} {before raised : Tasks} {m : Act E A} {returned returned' : A → Tasks}
      → ((a : A) (d : Dict TaskRecord) → returned a d → returned' a d)
      → Triple before m returned raised
      → Triple before m returned' raised
  Triple-returns {A = A} {raised = raised} {m = m} {returned = returned} {returned' = returned'}
        weaker h =
      record { at = λ w given. either (m w).0 (m w).1.store.tasks (h.at w given) }
    where
      either :
          (r : Result A) (d : Dict TaskRecord)
          → After returned raised r d
          → After returned' raised r d
      either (return a) d got = weaker a d got
      either (raise e) d got = got
