-- ===== src/Executor/Worker/Attempts.antt =====
-- run_once (executor/worker.py) uses up the attempts of a task: once a task is leased, it ends, or it
-- is PENDING with an attempt less.
use fine_tune_harness.Base.{
  ℕ, ◌+◌, ◌-◌, ◌≤◌, ◌<◌, String, false, Option, none, some, ◌≡◌, refl, sym, ap, ◌∙◌, inl, inr,
  arith, Dict, lookup, insert, values, lookup-insert_self,
}
use fine_tune_harness.Effects.{return, Result-cases}
use fine_tune_harness.World.{Env, on_store}
use fine_tune_harness.State.Value.{Fields}
use fine_tune_harness.State.Models.{TaskStatus, pending, leased, running, TaskRecord}
use fine_tune_harness.State.Memory.{
  update_task_status, mark_task_running, increment_task_attempts, put_task_at,
}
use fine_tune_harness.State.Memory.Keys.{In, IsKeyed, insert-IsKeyed, lookup-task_id}
use fine_tune_harness.Orchestrator.Lifecycle.{task_is, ensure_task_transition}
use fine_tune_harness.Executor.Session.{Worker, resolve_max_attempts}
use fine_tune_harness.Executor.Worker.{store_status}
use fine_tune_harness.Executor.Worker.Triples.{Triple}
use fine_tune_harness.Executor.Worker.Weights.{weight, total, total-insert, In-insert}

module _ {E : Type 0} (env : Env) (wk : Worker E) (most : ℕ) where
  -- The payload of the task asks for no more attempts than `most`.
  unfoldable pub IsCapped : TaskRecord → Type 0
  IsCapped t = (n : ℕ) → resolve_max_attempts env wk t ≡ return n → n ≤ most

  unfoldable pub AllCapped : Dict TaskRecord → Type 0
  AllCapped d = (t : TaskRecord) → In t (values d) → IsCapped t

  resolve-payload :
      (t v : TaskRecord)
      → v.payload ≡ t.payload
      → resolve_max_attempts env wk v ≡ resolve_max_attempts env wk t
  unfolding resolve_max_attempts
  resolve-payload t v same = rw same refl

  pub IsCapped-payload : (t v : TaskRecord) → v.payload ≡ t.payload → IsCapped t → IsCapped v
  unfolding IsCapped
  IsCapped-payload t v same cap n e = cap n (sym (resolve-payload t v same) ∙ e)

  pub AllCapped-insert :
      (k : String) (v : TaskRecord) (d : Dict TaskRecord)
      → IsCapped v
      → AllCapped d
      → AllCapped (insert k v d)
  unfolding AllCapped
  AllCapped-insert k v d cap caps t stands = elim (In-insert k v t d stands) [
    | inl e ↦ rw e cap
    | inr old ↦ caps t old
  ]

  -- Fewer tries are left.
  pub record Less (before : ℕ) (d : Dict TaskRecord) : Type 0 where
    pub keyed : IsKeyed d
    pub all_capped : AllCapped d
    pub fewer : total most d < before

  module _ (id : String) (tried before : ℕ) where
    -- The table with the task in a status after some attempts: but for the task itself there are as many
    -- tries left as before the task was leased, with `tried` attempts.
    pub record Stage (status : TaskStatus) (attempts : ℕ) (d : Dict TaskRecord) : Type 0 where
      pub task : TaskRecord
      pub found : lookup id d ≡ some task
      pub in_status : task.status ≡ status
      pub after_attempts : task.attempt_count ≡ attempts
      pub capped : IsCapped task
      pub keyed : IsKeyed d
      pub all_capped : AllCapped d
      pub tries : total most d + (1 + (most - tried)) ≤ before + weight most task

    pub Stage-put :
        {s s' : TaskStatus} {n n' : ℕ} {d : Dict TaskRecord} (h : Stage s n d) (v : TaskRecord)
        → v.task_id ≡ h.task.task_id
        → v.payload ≡ h.task.payload
        → v.status ≡ s'
        → v.attempt_count ≡ n'
        → Stage s' n' (insert id v d)
    Stage-put {d = d} h v same paid at_status counted =
        let cap = IsCapped-payload h.task v paid h.capped in
        record {
          task = v;
          found = lookup-insert_self id v d;
          in_status = at_status;
          after_attempts = counted;
          capped = cap;
          keyed = insert-IsKeyed id v d (same ∙ lookup-task_id id d h.task h.keyed h.found) h.keyed;
          all_capped = AllCapped-insert id v d cap h.all_capped;
          tries = omega (arith, total-insert most id h.task v d h.found, h.tries);
        }

    Less-weight :
        {s : TaskStatus} {n : ℕ} {d : Dict TaskRecord} (h : Stage s n d)
        → weight most h.task < 1 + (most - tried)
        → Less before d
    Less-weight h light = record {
      keyed = h.keyed;
      all_capped = h.all_capped;
      fewer = omega (arith, h.tries);
    }

    -- A task that is neither PENDING nor LEASED is not tried again.
    pub Less-ended :
        {s : TaskStatus} {n : ℕ} {d : Dict TaskRecord}
        → task_is s pending ≡ false
        → task_is s leased ≡ false
        → Stage s n d
        → Less before d
    unfolding weight
    Less-ended not_pending not_leased h =
        Less-weight h (rw (h.in_status, not_pending, not_leased, weight) (omega arith))

    -- Nor is one that has an attempt less than before.
    pub Less-retried :
        {d : Dict TaskRecord} → tried < most → Stage pending (tried + 1) d → Less before d
    unfolding weight task_is
    Less-retried left h = Less-weight h (rw (h.in_status, h.after_attempts, weight) (omega arith))

    pub running-Less : {n : ℕ} (d : Dict TaskRecord) → Stage running n d → Less before d
    unfolding task_is
    running-Less d h = Less-ended refl refl h

    pub increment_lem :
        Triple
          (Stage leased tried)
          (on_store {E = E} (increment_task_attempts id))
          (λ a d. (a ≡ tried + 1) × Stage leased (tried + 1) d)
          (Less before)
    unfolding on_store increment_task_attempts put_task_at
    increment_lem = record {
      at = λ w h.
          let counted = record h.task { attempt_count = h.task.attempt_count + 1 } in
          rw (h.found, increment_task_attempts)
            (
              ap (λ n. n + 1) h.after_attempts,
              Stage-put h counted refl refl h.in_status (ap (λ n. n + 1) h.after_attempts),
            );
    }

    pub mark_lem :
        Triple
          (Stage leased (tried + 1))
          (on_store {E = E} (mark_task_running id))
          (λ _. Stage running (tried + 1))
          (Less before)
    unfolding on_store mark_task_running put_task_at task_is
    mark_lem = record {
      at = λ w h.
          let started = record h.task { status = running } in
          rw (h.found, h.in_status, mark_task_running)
            (Stage-put h started refl refl refl h.after_attempts);
    }

    pub store_status_lem :
        (run_id : String) (task : TaskRecord) (status : TaskStatus) (result : Option Fields)
        (error : Option String) {n : ℕ}
        → task.task_id ≡ id
        → Triple
            (Stage running n)
            (store_status env wk run_id task status result error)
            (λ _. Stage status n)
            (Less before)
    unfolding on_store store_status update_task_status put_task_at
    store_status_lem run_id task status result error {n = n} same = record {
      at = λ w h. elim (Result-cases (ensure_task_transition h.task.status status)) [
        | inl (e, refused) ↦
            rw (same, h.found, refused, update_task_status) (running-Less w.store.tasks h)
        | inr (_, allowed) ↦
            let stored = record h.task {
              status = status;
              result = result;
              error = error;
              lease_owner = none;
              leased_until = none;
            } in
            rw (same, h.found, allowed, same, put_task_at, update_task_status)
              (Stage-put h stored refl refl refl h.after_attempts)
      ];
    }
