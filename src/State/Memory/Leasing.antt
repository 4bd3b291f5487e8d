-- ===== src/State/Memory/Leasing.antt =====
-- Which task lease_next_pending_task hands out, and to whom (state/memory_store.py).
use fine_tune_harness.Base.{
  ℕ, ◌+◌, ◌≤◌, String, Bool, true, false, Option, none, some, List, [], ◌∷◌, ◌≡◌, ◌≢◌, ◌↔◌, refl,
  sym, ◌∙◌, inl, inr, arith, eq_iff, Bool-cases, Option-cases, lookup, insert, values,
  lookup-insert_self,
}
use mathlib.Core.Option.{some-injective}
use fine_tune_harness.State.Models.{leased, TaskRecord}
use fine_tune_harness.State.Leases.{from_seconds}
use fine_tune_harness.State.Memory.{
  Store, Stamp, lease_next_pending_task, has_expired_lease, is_leaseable, first_such, list_tasks,
  insert_sorted, sort_by_key, tasks_of_run,
}
use fine_tune_harness.State.Memory.Keys.{
  In, In-values, IsKeyed, lookup_of_In, first_such-In, In-sort_by_key, In-tasks_of_run,
}
use fine_tune_harness.State.Memory.Moves.Steps.{lease-Step}

-- The claim that a lease makes on the task `old`.
abbrev pub claim : TaskRecord → (worker_id : String) (until : ℕ) → TaskRecord
claim old worker_id until = record old {
  status = leased;
  lease_owner = some worker_id;
  leased_until = some until;
}

tasks_of_run-In :
    (run_id : String) (t : TaskRecord) (us : List TaskRecord)
    → In t us
    → t.run_id ≡ run_id
    → In t (tasks_of_run run_id us)
unfolding tasks_of_run
tasks_of_run-In run_id t [] m e = absurd m
tasks_of_run-In run_id t (u ∷ us) m e =
    ground (arith, tasks_of_run-In run_id t us, eq_iff u.run_id run_id, eq_iff t.run_id run_id)

insert_sorted-In :
    (t u : TaskRecord) (us : List TaskRecord) → In t (u ∷ us) → In t (insert_sorted u us)
unfolding insert_sorted
insert_sorted-In t u [] m = m
insert_sorted-In t u (v ∷ us) m = ground (arith, insert_sorted-In t u us)

sort_by_key-In : (t : TaskRecord) (us : List TaskRecord) → In t us → In t (sort_by_key us)
unfolding sort_by_key
sort_by_key-In t [] m = m
sort_by_key-In t (u ∷ us) m =
    ground (arith, insert_sorted-In t u (sort_by_key us), sort_by_key-In t us)

pub first_such-none :
    (p : TaskRecord → Bool) (ts : List TaskRecord) (t : TaskRecord)
    → first_such p ts ≡ none
    → In t ts
    → p t ≡ false
unfolding first_such
first_such-none p [] t h m = absurd m
first_such-none p (u ∷ us) t h m = elim (Bool-cases (p u)) [
  | inl hit ↦ ground arith
  | inr miss ↦ ground (arith, first_such-none p us t)
]

not_leaseable :
    (now : ℕ) (old : TaskRecord) (worker_id : String) (until : ℕ)
    → now ≤ until
    → is_leaseable now (claim old worker_id until) ≡ true
    → ⊥
unfolding is_leaseable
not_leaseable now old worker_id until live ready = ground arith

some-none {ℓ} : {A : Type ℓ} {o : Option A} {a : A} → o ≡ none → o ≡ some a → ⊥
some-none e f = cc

module _ (now lease_now : ℕ) (stamp : Stamp) (run_id worker_id : String) (seconds : ℕ) (s : Store)
    (keyed : IsKeyed s.tasks) where
  abbrev outcome : Option TaskRecord × Store
  outcome = lease_next_pending_task now lease_now stamp run_id worker_id seconds s

  pub handed_none : first_such (is_leaseable now) (list_tasks run_id s) ≡ none → outcome.0 ≡ none
  unfolding lease_next_pending_task
  handed_none nothing = rw (nothing, lease_next_pending_task)

  pub claimed_from :
      (old : TaskRecord)
      → first_such (is_leaseable now) (list_tasks run_id s) ≡ some old
      → (outcome.0 ≡ some (claim old worker_id (lease_now + seconds)))
        × (outcome.1.tasks ≡ insert old.task_id (claim old worker_id (lease_now + seconds)) s.tasks)
  unfolding lease_next_pending_task from_seconds
  claimed_from old hit = elim (Bool-cases (has_expired_lease now old)) [
    | inl late ↦ rw (hit, late, lease_next_pending_task) (refl, refl)
    | inr fresh ↦ rw (hit, fresh, lease_next_pending_task) (refl, refl)
  ]

  none_found : outcome.0 ≡ none → first_such (is_leaseable now) (list_tasks run_id s) ≡ none
  none_found nothing = elim (Option-cases (first_such (is_leaseable now) (list_tasks run_id s))) [
    | inl e ↦ e
    | inr (old, hit) ↦ absurd (some-none nothing (claimed_from old hit).0)
  ]

  listed_task :
      (k : String) (t : TaskRecord)
      → lookup k s.tasks ≡ some t
      → t.run_id ≡ run_id
      → In t (list_tasks run_id s)
  unfolding list_tasks
  listed_task k t found mine =
      sort_by_key-In t (tasks_of_run run_id (values s.tasks))
        (tasks_of_run-In run_id t (values s.tasks) (In-values k t s.tasks found) mine)

  pub table_task :
      (old : TaskRecord)
      → first_such (is_leaseable now) (list_tasks run_id s) ≡ some old
      → (is_leaseable now old ≡ true)
        × (old.run_id ≡ run_id)
        × (lookup old.task_id s.tasks ≡ some old)
  unfolding list_tasks
  table_task old hit =
      let (ready, at) = first_such-In (is_leaseable now) (list_tasks run_id s) old hit in
      let (in_table, mine) =
        In-tasks_of_run run_id old (values s.tasks)
          (In-sort_by_key old (tasks_of_run run_id (values s.tasks)) at) in
      (ready, mine, lookup_of_In old s.tasks keyed in_table)

  -- In a table where each task stands under its own id, once: a task that is handed out was in the
  -- run, PENDING or with a lease that had expired, and is now LEASED to the worker for the given
  -- time, its other fields unchanged; it is stored, and no other task changes.
  pub lease_next_pending_task_claims :
      (t : TaskRecord)
      → outcome.0 ≡ some t
      → (old : TaskRecord) × (lookup t.task_id s.tasks ≡ some old)
        × (old.run_id ≡ run_id)
        × (is_leaseable now old ≡ true)
        × (t ≡ claim old worker_id (lease_now + seconds))
        × (outcome.1.tasks ≡ insert t.task_id t s.tasks)
  lease_next_pending_task_claims t handed =
      elim (Option-cases (first_such (is_leaseable now) (list_tasks run_id s))) [
        | inl nothing ↦ absurd (some-none (handed_none nothing) handed)
        | inr (old, hit) ↦
            let (ready, mine, found) = table_task old hit in
            let (given, stored) = claimed_from old hit in
            let same : claim old worker_id (lease_now + seconds) ≡ t = cc in
            rw (← same) (old, found, mine, ready, refl, stored)
      ]

  -- No task is handed out exactly when the run has none that is PENDING or has an expired lease.
  pub lease_next_pending_task_none : (outcome.0 ≡ none) ↔ (
      (k : String) (t : TaskRecord)
      → lookup k s.tasks ≡ some t
      → t.run_id ≡ run_id
      → is_leaseable now t ≡ false)
  lease_next_pending_task_none = (
    λ nothing k t found mine.
        first_such-none (is_leaseable now) (list_tasks run_id s) t (none_found nothing)
          (listed_task k t found mine),
    λ blocked. elim (Option-cases (first_such (is_leaseable now) (list_tasks run_id s))) [
      | inl nothing ↦ handed_none nothing
      | inr (old, hit) ↦
          let (ready, mine, found) = table_task old hit in
          absurd (ground (arith, blocked old.task_id old found mine))
    ],
  )

-- Two workers never hold one lease: while the lease that the first call made has not expired (at the
-- time that the second call reads), the second call hands out another task.
pub lease_next_pending_task_exclusive :
    (now₁ at₁ now₂ at₂ : ℕ) (stamp₁ stamp₂ : Stamp) (run_id w₁ w₂ : String) (secs₁ secs₂ : ℕ)
    (s : Store) (t₁ t₂ : TaskRecord)
    → IsKeyed s.tasks
    → (lease_next_pending_task now₁ at₁ stamp₁ run_id w₁ secs₁ s).0 ≡ some t₁
    → (lease_next_pending_task now₂ at₂ stamp₂ run_id w₂ secs₂
        (lease_next_pending_task now₁ at₁ stamp₁ run_id w₁ secs₁ s).1).0
      ≡ some t₂
    → now₂ ≤ at₁ + secs₁
    → t₂.task_id ≢ t₁.task_id
lease_next_pending_task_exclusive now₁ at₁ now₂ at₂ stamp₁ stamp₂ run_id w₁ w₂ secs₁ secs₂ s t₁ t₂
      keyed first second live one_task =
    let (old₁, _, _, _, made₁, stored) =
      lease_next_pending_task_claims now₁ at₁ stamp₁ run_id w₁ secs₁ s keyed t₁ first in
    let (old₂, found, _, ready, _, _) =
      lease_next_pending_task_claims now₂ at₂ stamp₂ run_id w₂ secs₂
        (lease_next_pending_task now₁ at₁ stamp₁ run_id w₁ secs₁ s).1
        (lease-Step s keyed now₁ at₁ stamp₁ run_id w₁ secs₁).1 t₂ second in
    let here : some old₂ ≡ some t₁ =
      sym found ∙ (rw (stored, one_task) (lookup-insert_self t₁.task_id t₁ s.tasks)) in
    not_leaseable now₂ old₁ w₁ (at₁ + secs₁) live (rw (some-injective old₂ t₁ here, made₁) at ready)
