-- ===== src/Executor/Worker/Weights.antt =====
-- How many more times the tasks of a table can be tried (executor/worker.py).
use fine_tune_harness.Base.{
  ℕ, ◌+◌, ◌-◌, String, ◌||◌, some, [], ◌∷◌, ◌==◌, if◌then◌else◌, ◌≡◌, ◌⊎◌, inl, inr, arith,
  Bool-cases, Dict, lookup, insert, values,
}
use fine_tune_harness.State.Models.{pending, leased, TaskRecord}
use fine_tune_harness.State.Memory.Keys.{In}
use fine_tune_harness.Orchestrator.Lifecycle.{task_is}

-- One more try for a task that can be leased, and one for each attempt that is left of `most`.
unfoldable pub weight : (most : ℕ) → TaskRecord → ℕ
weight most t =
    if task_is t.status pending || task_is t.status leased then 1 + (most - t.attempt_count) else 0

unfoldable pub total : (most : ℕ) → Dict TaskRecord → ℕ
unfolding weight
total most [] = 0
total most ((_, t) ∷ d) = weight most t + total most d

pub total-insert :
    (most : ℕ) (k : String) (u v : TaskRecord) (d : Dict TaskRecord)
    → lookup k d ≡ some u
    → total most (insert k v d) + weight most u ≡ total most d + weight most v
unfolding total lookup insert
total-insert most k u v [] found = cc
total-insert most k u v ((j, t) ∷ d) found = elim (Bool-cases (j == k)) [
  | inl here ↦
      let same : some t ≡ some u = rw (here, lookup) at found in
      let e : t ≡ u = cc in rw (here, e) (omega arith)
  | inr other ↦
      let ih = total-insert most k u v d (rw (other, lookup) at found) in
      rw (other, total) (omega (arith, ih))
]

pub In-insert :
    (k : String) (v t : TaskRecord) (d : Dict TaskRecord)
    → In t (values (insert k v d))
    → (t ≡ v) ⊎ In t (values d)
unfolding insert values
In-insert k v t [] (inl e) = inl e
In-insert k v t [] (inr none_left) = elim none_left [ ]
In-insert k v t ((j, u) ∷ d) stands = elim (Bool-cases (j == k)) [
  | inl here ↦ replaced (rw (here, insert, values) at stands)
  | inr other ↦
      let held : In t (u ∷ values (insert k v d)) = rw (other, insert, values) at stands in
      elim held [
        | inl e ↦ inr (inl e)
        | inr later ↦ elim (In-insert k v t d later) [ inl e ↦ inl e | inr old ↦ inr (inr old) ]
      ]
]
  where
    replaced : In t (v ∷ values d) → (t ≡ v) ⊎ In t (u ∷ values d)
    replaced (inl e) = inl e
    replaced (inr later) = inr (inr later)
