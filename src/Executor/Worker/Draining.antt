-- ===== src/Executor/Worker/Draining.antt =====
-- How a drain ends (LocalWorker.drain in executor/worker.py).
use fine_tune_harness.Base.{
  ℕ, zero, suc, ◌+◌, Option, none, some, Option-cases, String, Bool, true, false, List, [], ◌∷◌,
  ◌≡◌, ◌↔◌, refl, sym, ◌∙◌, inl, inr, arith, Bool-cases,
}
use fine_tune_harness.Effects.{raise-return, return-injective, Exception, Result, return, raise}
use fine_tune_harness.World.{Env, World}
use fine_tune_harness.State.Models.{TaskRecord}
use fine_tune_harness.State.Memory.{list_tasks}
use fine_tune_harness.Orchestrator.Lifecycle.{task_in}
use fine_tune_harness.Orchestrator.Runner.{any_in, unsuccessful}
use fine_tune_harness.Executor.Session.{Worker, Handler}
use fine_tune_harness.Executor.Worker.{
  failed_tasks, conclude, continue_with, run_once, drain_loop, drain_started, drain,
}
use fine_tune_harness.Base.{ap}
use mathlib.Core.Path.{subst}
use mathlib.Core.Option.{some-injective}
use fine_tune_harness.Base.Int.{pos}
use fine_tune_harness.State.Value.{finite}

true-false : ◌≡◌ {A = Bool} true false → ⊥
true-false e = cc

module _ {E : Type 0} (env : Env) (wk : Worker E) (run_id : String) where
  none-lem :
      (ts : List TaskRecord) → any_in unsuccessful ts ≡ false → failed_tasks env wk run_id ts ≡ []
  unfolding failed_tasks any_in
  none-lem [] h = refl
  none-lem (t ∷ ts) h = ground (arith, none-lem ts)

  some-lem :
      (ts : List TaskRecord)
      → any_in unsuccessful ts ≡ true
      → (t : TaskRecord) × ((rest : List TaskRecord) × (failed_tasks env wk run_id ts ≡ t ∷ rest))
  unfolding failed_tasks any_in
  some-lem [] h = ground arith
  some-lem (t ∷ ts) h = elim (Bool-cases (task_in t.status unsuccessful)) [
    | inl bad ↦ (t, (failed_tasks env wk run_id ts, rw bad refl))
    | inr good ↦
        let (u, (rest, found)) = some-lem ts (rw good at h) in (u, (rest, rw (good, found) refl))
  ]

  conclude_returns :
      (n : ℕ) (w : World E)
      → (((conclude env wk run_id n w).0 ≡ return n)
          ↔ (any_in unsuccessful (list_tasks run_id w.store) ≡ false))
        × ((conclude env wk run_id n w).1 ≡ w)
  unfolding conclude
  conclude_returns n w = elim (Bool-cases (any_in unsuccessful (list_tasks run_id w.store))) [
    | inr clean ↦
        let none_left = none-lem (list_tasks run_id w.store) clean in
        ((λ _. clean, λ _. rw (none_left, conclude) refl), rw (none_left, conclude) refl)
    | inl spoiled ↦
        let (t, (rest, left)) = some-lem (list_tasks run_id w.store) spoiled in
        (
          (
            λ returned. absurd (raise-return (rw (left, conclude) at returned)),
            λ clean. absurd (true-false (rw spoiled at clean)),
          ),
          rw (left, conclude) refl,
        )
  ]

  conclude_total : (m n : ℕ) (w : World E) → (conclude env wk run_id m w).0 ≡ return n → m ≡ n
  unfolding conclude
  conclude_total m n w returned =
      elim (Bool-cases (any_in unsuccessful (list_tasks run_id w.store))) [
        | inr clean ↦
            return-injective (rw (none-lem (list_tasks run_id w.store) clean, conclude) at returned)
        | inl spoiled ↦
            let (t, (rest, left)) = some-lem (list_tasks run_id w.store) spoiled in
            absurd (raise-return (rw (left, conclude) at returned))
      ]

-- The rounds of a drain, from a world to a world, with the number of those in which a task succeeded.
-- An exception of a round is passed over, the drain stops when no task is left or, after a success,
-- when it is asked to.
pub data Rounds {E : Type 0} (env : Env) (wk : Worker E) (run_id : String) (handler : Handler E)
    (stop : Option (E → Bool)) : World E → ℕ → World E → Type 0 where
  idle :
      {w w' : World E}
      → run_once env wk run_id handler w ≡ (return none, w')
      → Rounds env wk run_id handler stop w 0 w'
  stopped :
      {w w' : World E} {t : TaskRecord} {asks : E → Bool}
      → run_once env wk run_id handler w ≡ (return (some t), w')
      → stop ≡ some asks
      → asks w'.outside ≡ true
      → Rounds env wk run_id handler stop w 1 w'
  succeeded :
      {w w' w'' : World E} {t : TaskRecord} {n : ℕ}
      → run_once env wk run_id handler w ≡ (return (some t), w')
      → ((asks : E → Bool) → stop ≡ some asks → asks w'.outside ≡ false)
      → Rounds env wk run_id handler stop w' n w''
      → Rounds env wk run_id handler stop w (n + 1) w''
  raised :
      {w w' w'' : World E} {e : Exception} {n : ℕ}
      → run_once env wk run_id handler w ≡ (raise e, w')
      → Rounds env wk run_id handler stop w' n w''
      → Rounds env wk run_id handler stop w n w''

some-none : {A : Type 0} {a : A} → ◌≡◌ {A = Option A} none (some a) → ⊥
some-none e = cc

some-parts :
    {A B : Type 0} {a a' : A} {b b' : B}
    → ◌≡◌ {A = Option (A × B)} (some (a, b)) (some (a', b'))
    → (a ≡ a') × (b ≡ b')
some-parts e = (cc, cc)

from_zero : (n : ℕ) → 0 + n ≡ n
from_zero n = omega arith

plus_zero : (n : ℕ) → n + 0 ≡ n
plus_zero n = omega arith

module _ {E : Type 0} (env : Env) (wk : Worker E) (run_id : String) (handler : Handler E)
    (stop : Option (E → Bool)) where
  Counted : World E → ℕ → ℕ → World E → Type 0
  Counted w n total w' = (k : ℕ) × Rounds env wk run_id handler stop w k w' × (total ≡ n + k)

  last-lem :
      (n : ℕ) (w w₁ : World E) (total : ℕ) (w' : World E) (k : ℕ)
      → (◌≡◌ {A = Option (ℕ × World E)} (some (n + k, w₁)) (some (total, w')))
      → Rounds env wk run_id handler stop w k w₁
      → Counted w n total w'
  unfolding Counted
  last-lem n w w₁ total w' k h rounds =
      let (same, here) = some-parts h in
      (k, subst (λ v. Rounds env wk run_id handler stop w k v) here rounds, sym same)

  round-lem :
      (n : ℕ) (w w₁ : World E) (r : Result (Option TaskRecord)) (skip onward : Option (ℕ × World E))
      (total : ℕ) (w' : World E)
      → run_once env wk run_id handler w ≡ (r, w₁)
      → continue_with r stop n w₁ skip onward ≡ some (total, w')
      → (skip ≡ some (total, w') → Counted w₁ n total w')
      → (onward ≡ some (total, w') → Counted w₁ (n + 1) total w')
      → Counted w n total w'
  unfolding continue_with Counted
  round-lem n w w₁ (raise e) skip onward total w' run h f g =
      let (k, rounds, sum) = f h in (k, raised run rounds, sum)
  round-lem n w w₁ (return none) skip onward total w' run h f g =
      last-lem n w w₁ total w' 0 (ap (λ m. some (m, w₁)) (plus_zero n) ∙ h) (idle run)
  round-lem n w w₁ (return (some t)) skip onward total w' run h f g = elim (Option-cases stop) [
    | inl unasked ↦
        let (k, rounds, sum) = g (rw (unasked, continue_with) at h) in
        (k + 1, succeeded run (λ asks e. absurd (some-none (sym unasked ∙ e))) rounds, omega arith)
    | inr (asks, given) ↦ elim (Bool-cases (asks w₁.outside)) [
      | inl yes_stop ↦
          last-lem n w w₁ total w' 1 (rw (given, yes_stop, continue_with) at h)
            (stopped run given yes_stop)
      | inr go_on ↦
          let (k, rounds, sum) = g (rw (given, go_on, continue_with) at h) in
          (
            k + 1,
            succeeded run
                (λ asks' e.
                  ap (λ (p : E → Bool). p w₁.outside) (some-injective _ _ (sym e ∙ given)) ∙ go_on)
                rounds,
            omega arith,
          )
    ]
  ]

  -- The loop from the count `n`.
  drain_loop-Rounds :
      (fuel n : ℕ) (w : World E) (total : ℕ) (w' : World E)
      → drain_loop env wk run_id fuel handler stop n w ≡ some (total, w')
      → Counted w n total w'
  unfolding drain_loop
  drain_loop-Rounds zero n w total w' h = absurd (some-none h)
  drain_loop-Rounds (suc fuel) n w total w' h =
      let step = run_once env wk run_id handler w in
      round-lem n w step.1 step.0 (drain_loop env wk run_id fuel handler stop n step.1)
        (drain_loop env wk run_id fuel handler stop (n + 1) step.1) total w' refl h
        (drain_loop-Rounds fuel n step.1 total w') (drain_loop-Rounds fuel (n + 1) step.1 total w')

  -- A drain that has an outcome came to it in rounds of run_once, and leaves the world as the last one
  -- left it. It returns a number exactly when that is how many rounds had a success and no task of the
  -- run is then FAILED, TIMED_OUT or DEGENERATE.
  pub drain_returns :
      (fuel : ℕ) (w : World E) (r : Result ℕ) (w' : World E)
      → drain env wk run_id fuel handler stop w ≡ some (r, w')
      → (k : ℕ) × Rounds env wk run_id handler stop
          (drain_started env wk run_id "sequential" 8 (finite (pos 2000) 0) w).1
          k
          w'
        × ((n : ℕ)
            → (r ≡ return n)
              ↔ ((n ≡ k) × (any_in unsuccessful (list_tasks run_id w'.store) ≡ false)))
  unfolding drain Counted
  drain_returns fuel w r w' h =
      let begun = (drain_started env wk run_id "sequential" 8 (finite (pos 2000) 0) w).1 in
      elim (Option-cases (drain_loop env wk run_id fuel handler stop 0 begun)) [
        | inl empty ↦ absurd (some-none (rw (empty, drain) at h))
        | inr ((total, v), enough) ↦
            let (k, rounds, sum) = drain_loop-Rounds fuel 0 begun total v enough in
            let (gives, leaves) = some-parts (rw (enough, drain) at h) in
            let (clean_iff, kept) = conclude_returns env wk run_id total v in
            let at : v ≡ w' = sym kept ∙ leaves in
            let counted : total ≡ k = sum ∙ from_zero k in
            (
              k,
              subst (λ u. Rounds env wk run_id handler stop begun k u) at rounds,
              λ n. (
                λ returned.
                    let same = conclude_total env wk run_id total n v (gives ∙ returned) in
                    (
                      sym same ∙ counted,
                      subst (λ u. any_in unsuccessful (list_tasks run_id u.store) ≡ false) at
                          (clean_iff.0 (gives ∙ returned ∙ ap return (sym same))),
                    ),
                λ both.
                    sym gives
                    ∙ clean_iff.1 (
                        subst (λ u. any_in unsuccessful (list_tasks run_id u.store) ≡ false)
                          (sym at) both.1)
                    ∙ ap return (counted ∙ sym both.0),
              ),
            )
      ]
