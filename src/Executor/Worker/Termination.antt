-- ===== src/Executor/Worker/Termination.antt =====
-- The sequential drain ends (executor/worker.py): each task is tried at most as often as it may.
use fine_tune_harness.Base.{
  ℕ, zero, suc, ◌+◌, ◌-◌, ◌<◌, String, Bool, true, Option, none, some, ◌≡◌, refl, inl, inr, arith,
  Bool-cases, Option-cases, Dict, lookup, insert, values, lookup-insert_self, has_key,
}
use fine_tune_harness.Base.Int.{ℤ, pos}
use fine_tune_harness.Effects.{Result, return, raise, pure, Result-cases}
use fine_tune_harness.World.{Env, World, Act, stamp_at, record_event}
use fine_tune_harness.State.Value.{finite}
use fine_tune_harness.State.Models.{leased, running, TaskRecord}
use fine_tune_harness.State.Memory.{
  list_tasks, first_such, is_leaseable, has_expired_lease, append_event,
}
use fine_tune_harness.State.Memory.Keys.{In, IsKeyed, insert-IsKeyed}
use fine_tune_harness.State.Memory.Leasing.{claim, handed_none, claimed_from, table_task}
use fine_tune_harness.State.Memory.Keys.{In-values}
use fine_tune_harness.Orchestrator.Hooks.{fire}
use fine_tune_harness.Executor.Session.{
  Handler, Worker, about_task, begin_run, lease_next_task, lease_seconds, resolve_timeout, execute,
  exceeds, fire_hooks,
}
use fine_tune_harness.Executor.Worker.{
  start_task, call_handler, run_task, run_once, continue_with, drain_loop, drain_started, drain,
  conclude,
}
use fine_tune_harness.Executor.Worker.Frames.{
  Keeps, refresh-Keeps, note-Keeps, seed-Keeps, task_event-Keeps,
}
use fine_tune_harness.Executor.Worker.Triples.{
  Tasks, After, Triple, Triple-bind, Triple-keep, Triple-given, Triple-returns,
}
use fine_tune_harness.Executor.Worker.Weights.{weight, total, total-insert}
use fine_tune_harness.Executor.Worker.Attempts.{
  IsCapped, IsCapped-payload, AllCapped, AllCapped-insert, Stage, Less, running-Less, increment_lem,
  mark_lem,
}
use fine_tune_harness.Executor.Worker.Endings.{on_outcome-Less}

module _ {E : Type 0} (env : Env) (wk : Worker E) (run_id : String) (most : ℕ) (handler : Handler E)
    (no_oom : wk.max_oom_retries ≡ 0)
    (hooks_keep : (task working : TaskRecord) (x : E)
      → IsCapped env wk most task
      → (fire wk.hooks "before_task" (about_task task) x).0.task ≡ some working
      → IsCapped env wk most working)
    (handler_keeps : (task : TaskRecord) (x : E)
      → IsCapped env wk most task
      → IsCapped env wk most (record task { payload = (wk.sandbox handler task x).payload })) where
  module _ (task : TaskRecord) (capped : IsCapped env wk most task) (before : ℕ) where
    abbrev Running : Tasks
    Running =
        Stage env wk most task.task_id task.attempt_count before running (task.attempt_count + 1)

    abbrev Fewer : Tasks
    Fewer = Less env wk most before

    record Started (s : ℕ × TaskRecord) : Type 0 where
      attempt : s.0 ≡ task.attempt_count + 1
      working : IsCapped env wk most s.1

    still_running : {A : Type 0} {m : Act E A} → Keeps m → Triple Running m (λ _. Running) Fewer
    still_running k =
        Triple-keep k (running-Less env wk most task.task_id task.attempt_count before)

    working_task : Option TaskRecord → TaskRecord
    working_task o = elim o [ none ↦ task | some working ↦ working ]

    before_task_lem :
        Triple Running
          (fire_hooks env wk "before_task" (about_task task))
          (λ call d.
            IsCapped env wk most (elim call.task [ none ↦ task | some working ↦ working ])
            × Running d)
          Fewer
    unfolding fire_hooks
    before_task_lem = record {
      at = λ w h. (
        capped_call (fire wk.hooks "before_task" (about_task task) w.outside).0.task
            (λ u. hooks_keep task u w.outside capped),
        h,
      );
    }
      where
        capped_call :
            (o : Option TaskRecord)
            → ((u : TaskRecord) → o ≡ some u → IsCapped env wk most u)
            → IsCapped env wk most (elim o [ none ↦ task | some working ↦ working ])
        capped_call none h = capped
        capped_call (some u) h = h u refl

    start_task_lem :
        Triple
          (Stage env wk most task.task_id task.attempt_count before leased task.attempt_count)
          (start_task env wk run_id task)
          (λ s d. Started s × Running d)
          Fewer
    unfolding start_task
    start_task_lem =
        Triple-bind (increment_lem env wk most task.task_id task.attempt_count before) λ n.
          Triple-given λ counted.
            Triple-bind (mark_lem env wk most task.task_id task.attempt_count before) λ _.
              Triple-bind (still_running (task_event-Keeps env wk run_id task "task_running" n _))
                λ _. Triple-bind (still_running (refresh-Keeps env run_id)) λ _.
                  Triple-bind (still_running (seed-Keeps env wk run_id)) λ _.
                    Triple-bind before_task_lem λ call. Triple-given λ cap.
                      Triple-bind (still_running (note-Keeps env wk run_id task "before_task"))
                        λ _. record { at = λ w h. (record { attempt = counted; working = cap }, h) }

    execute_payload :
        (working : TaskRecord) (limit : Option ℤ) (x : E)
        → (execute env wk handler working limit x).payload ≡ (wk.sandbox handler working x).payload
    unfolding execute
    execute_payload working limit x =
        elim (Bool-cases (exceeds env wk limit (wk.sandbox handler working x).seconds)) [
          | inl late ↦ rw (late, execute) refl
          | inr timely ↦ rw (timely, execute) refl
        ]

    call_handler_lem :
        (working : TaskRecord)
        → IsCapped env wk most working
        → Triple Running
            (call_handler env wk run_id handler working)
            (λ done d. IsCapped env wk most (record working { payload = done.payload }) × Running d)
            Fewer
    unfolding call_handler execute
    call_handler_lem working cap = record {
      at = λ w h. elim (Result-cases (resolve_timeout env wk working)) [
        | inl (e, refused) ↦
            rw (refused, call_handler)
              (running-Less env wk most task.task_id task.attempt_count before w.store.tasks h)
        | inr (limit, read) ↦
            rw (read, call_handler)
              (
                IsCapped-payload env wk most
                    (record working { payload = (wk.sandbox handler working w.outside).payload })
                    (record working {
                      payload = (execute env wk handler working limit w.outside).payload;
                    })
                    (execute_payload working limit w.outside) (handler_keeps working w.outside cap),
                h,
              )
      ];
    }

    run_task_lem :
        Triple
          (Stage env wk most task.task_id task.attempt_count before leased task.attempt_count)
          (run_task env wk run_id handler task)
          (λ _. Fewer)
          Fewer
    unfolding run_task
    run_task_lem = Triple-bind start_task_lem λ s. Triple-given λ started.
        Triple-bind (call_handler_lem s.1 started.working) λ done. Triple-given λ cap.
          rw started.attempt (
            on_outcome-Less env wk run_id most task.attempt_count before task
              (record s.1 { payload = done.payload }) done.wall_seconds done.outcome no_oom cap)

  -- The tables between two rounds.
  record Tries (tries : ℕ) (d : Dict TaskRecord) : Type 0 where
    keyed : IsKeyed d
    all_capped : AllCapped env wk most d
    same : total most d ≡ tries

  -- What is leased.
  abbrev Leased : ℕ → Option TaskRecord → Tasks
  Leased before none d = Unit
  Leased before (some task) d =
      IsCapped env wk most task
      × Stage env wk most task.task_id task.attempt_count before leased task.attempt_count d

  abbrev Rounds : ℕ → Option TaskRecord → Tasks
  Rounds before none d = Unit
  Rounds before (some task) d = Less env wk most before d

  weight_leaseable :
      (now : ℕ) (t : TaskRecord)
      → is_leaseable now t ≡ true
      → weight most t ≡ 1 + (most - t.attempt_count)
  unfolding weight is_leaseable has_expired_lease
  weight_leaseable now t can = ground arith

  stored-IsCapped :
      (t : TaskRecord) (d : Dict TaskRecord)
      → AllCapped env wk most d
      → In t (values d)
      → IsCapped env wk most t
  unfolding AllCapped
  stored-IsCapped t d caps stands = caps t stands

  claim-Stage :
      (before now : ℕ) (old claimed : TaskRecord) (d : Dict TaskRecord)
      → Tries before d
      → is_leaseable now old ≡ true
      → lookup old.task_id d ≡ some old
      → claimed.task_id ≡ old.task_id
      → claimed.payload ≡ old.payload
      → claimed.status ≡ leased
      → claimed.attempt_count ≡ old.attempt_count
      → IsCapped env wk most claimed
        × Stage env wk most old.task_id old.attempt_count before leased old.attempt_count
            (insert old.task_id claimed d)
  claim-Stage before now old claimed d h can found same paid at_status counted =
      let old_cap = stored-IsCapped old d h.all_capped (In-values old.task_id old d found) in
      let cap = IsCapped-payload env wk most old claimed paid old_cap in
      (
        cap,
        record {
          task = claimed;
          found = lookup-insert_self old.task_id claimed d;
          in_status = at_status;
          after_attempts = counted;
          capped = cap;
          keyed = insert-IsKeyed old.task_id claimed d same h.keyed;
          all_capped = AllCapped-insert env wk most old.task_id claimed d cap h.all_capped;
          tries = omega (
            arith,
            total-insert most old.task_id old claimed d found,
            h.same,
            weight_leaseable now old can,
          );
        },
      )

  lease_lem :
      (before : ℕ)
      → Triple
          (Tries before)
          (lease_next_task env wk run_id)
          (Leased before)
          (Less env wk most before)
  unfolding lease_next_task
  lease_lem before = record {
    at = λ w h.
        let now = env.now w.reads in
        let lease_now = env.now (w.reads + 1) in
        let stamp = stamp_at env (w.reads + 2) in
        let ready = first_such (is_leaseable now) (list_tasks run_id w.store) in
        elim (Option-cases ready) [
          | inl nothing ↦
              rw
                (handed_none now lease_now stamp run_id wk.worker_id lease_seconds w.store h.keyed
                  nothing)
                tt
          | inr (old, hit) ↦
              let (given, stored) =
                claimed_from now lease_now stamp run_id wk.worker_id lease_seconds w.store h.keyed
                  old hit in
              let (can, _, found) =
                table_task now lease_now stamp run_id wk.worker_id lease_seconds w.store h.keyed old
                  hit in
              let claimed = claim old wk.worker_id (lease_now + lease_seconds) in
              rw (given, stored)
                (claim-Stage before now old claimed w.store.tasks h can found refl refl refl refl)
        ];
  }

  begin_run_lem :
      (before : ℕ)
      → Triple
          (Tries before)
          (begin_run env wk run_id)
          (λ _. Tries before)
          (Less env wk most before)
  unfolding begin_run fire_hooks
  begin_run_lem before = record {
    at = λ w h. elim (Bool-cases (has_key run_id w.run_seeds)) [
      | inl known ↦ rw (known, begin_run) h
      | inr new ↦ rw (new, begin_run) h
    ];
  }

  rounds_lem :
      (before : ℕ) (o : Option TaskRecord)
      → Triple {E = E} {A = Option TaskRecord}
          (Leased before o)
          (elim o [ none ↦ pure none | some task ↦ run_task env wk run_id handler task ])
          (Rounds before)
          (Less env wk most before)
  rounds_lem before none = record { at = λ w h. tt }
  rounds_lem before (some task) =
      Triple-given λ cap. Triple-returns fewer (run_task_lem task cap before)
    where
      fewer :
          (o : Option TaskRecord) (d : Dict TaskRecord)
          → Less env wk most before d
          → Rounds before o d
      fewer none d h = tt
      fewer (some t) d h = h

  run_once_lem :
      (before : ℕ)
      → Triple
          (Tries before)
          (run_once env wk run_id handler)
          (Rounds before)
          (Less env wk most before)
  unfolding run_once
  run_once_lem before =
      Triple-bind (begin_run_lem before)
        λ _. Triple-bind (lease_lem before) λ leased. rounds_lem before leased

  loop_step :
      (before : ℕ) (r : Result (Option TaskRecord)) (stop : Option (E → Bool)) (n : ℕ) (w : World E)
      (skip onward : Option (ℕ × World E))
      → After (Rounds before) (Less env wk most before) r w.store.tasks
      → (Less env wk most before w.store.tasks → (out : ℕ × World E) × (skip ≡ some out))
      → (Less env wk most before w.store.tasks → (out : ℕ × World E) × (onward ≡ some out))
      → (out : ℕ × World E) × (continue_with r stop n w skip onward ≡ some out)
  unfolding continue_with
  loop_step before (raise e) stop n w skip onward made skips goes = skips made
  loop_step before (return none) stop n w skip onward made skips goes = ((n, w), refl)
  loop_step before (return (some t)) none n w skip onward made skips goes = goes made
  loop_step before (return (some t)) (some asks) n w skip onward made skips goes =
      elim (Bool-cases (asks w.outside)) [
        | inl halt ↦ ((n + 1, w), rw halt refl)
        | inr on ↦ let (out, e) = goes made in (out, rw on e)
      ]

  -- The loop ends once the fuel is more than the tries.
  loop_ends :
      (stop : Option (E → Bool)) (fuel n : ℕ) (w : World E)
      → IsKeyed w.store.tasks
      → AllCapped env wk most w.store.tasks
      → total most w.store.tasks < fuel
      → (out : ℕ × World E) × (drain_loop env wk run_id fuel handler stop n w ≡ some out)
  unfolding drain_loop
  loop_ends stop zero n w keyed caps enough = absurd (omega (arith, enough))
  loop_ends stop (suc fuel) n w keyed caps enough =
      let (r, w') = run_once env wk run_id handler w in
      let made =
        (run_once_lem (total most w.store.tasks)).at w
          (record { keyed = keyed; all_capped = caps; same = refl }) in
      loop_step (total most w.store.tasks) r stop n w'
        (drain_loop env wk run_id fuel handler stop n w')
        (drain_loop env wk run_id fuel handler stop (n + 1) w') made
        (λ l. loop_ends stop fuel n w' l.keyed l.all_capped (omega (arith, l.fewer, enough)))
        (λ l. loop_ends stop fuel (n + 1) w' l.keyed l.all_capped (omega (arith, l.fewer, enough)))

  -- A drain ends: with as much fuel as there are tries left in the table, and one round more to find that
  -- none is, it has an outcome. The table has each task under its own id, once; the worker requeues no
  -- task for lack of memory, which is how it is set up; and no payload, as it is stored and as the hooks
  -- and the handler leave it, asks for more than `most` attempts.
  pub drain_terminates :
      (stop : Option (E → Bool)) (w : World E)
      → IsKeyed w.store.tasks
      → AllCapped env wk most w.store.tasks
      → (out : Result ℕ × World E) × (drain env wk run_id
            (total most w.store.tasks + 1)
            handler
            stop
            w
          ≡ some out)
  unfolding drain drain_started record_event append_event
  drain_terminates stop w keyed caps =
      let begun = (drain_started env wk run_id "sequential" 8 (finite (pos 2000) 0) w).1 in
      let (ended, enough) =
        loop_ends stop (total most w.store.tasks + 1) 0 begun keyed caps (omega arith) in
      (conclude env wk run_id ended.0 ended.1, rw (enough, drain) refl)
