-- ===== src/State/Memory/Moves/Steps.antt =====
-- Each method of the in-memory store makes one move of one task (state/memory_store.py).
use fine_tune_harness.Base.{
  ℕ, String, true, false, Option, some, ◌≡◌, refl, ◌⊎◌, inl, inr, arith, ◌∙◌, ◌==◌, eq_iff,
  Bool-cases, Option-cases, leb, Dict, lookup, insert, values, has_key, lookup-insert,
}
use fine_tune_harness.Effects.{return, raise, value_error}
use fine_tune_harness.State.Value.{Fields}
use fine_tune_harness.State.Models.{TaskStatus, pending, leased, running, failed, TaskRecord}
use fine_tune_harness.Orchestrator.Lifecycle.{
  ensure_task_transition, task_is, task_in, allowed_task_transitions,
}
use fine_tune_harness.State.Memory.{
  Store, Stamp, create_task, update_task_status, lease_next_pending_task, mark_task_running,
  increment_task_attempts, has_expired_lease, is_leaseable, first_such, list_tasks, tasks_of_run,
}
use fine_tune_harness.State.Memory.Recovery.{reclaim_dead_worker, is_held, count_events}
use fine_tune_harness.State.Memory.Keys.{
  IsKeyed, insert-IsKeyed, lookup-task_id, lookup_of_In, first_such-In, In-sort_by_key,
  In-tasks_of_run,
}
use fine_tune_harness.State.Memory.Moves.{
  Move, same, listed, release, abandon, is_terminal, Related,
}

abbrev pub KeptWhenTerminal : TaskRecord → TaskRecord → Type 0
KeptWhenTerminal t u =
    is_terminal t.status ≡ true → u ≡ record t { attempt_count = u.attempt_count }

Related-refl : (d : Dict TaskRecord) → Related d d
Related-refl d k t e = (t, e, same, λ _. refl)

-- A write to a key that is present, by a move.
Related-put :
    (d : Dict TaskRecord) (id : String) (t u : TaskRecord)
    → lookup id d ≡ some t
    → Move t.status u.status
    → KeptWhenTerminal t u
    → Related d (insert id u d)
Related-put d id t u e m ended k v found = elim (Bool-cases (id == k)) [
  | inl at_id ↦
      let here : id ≡ k = (eq_iff id k).0 at_id in
      let old : t ≡ v = cc in rw (← old) (u, rw (lookup-insert id k u d, at_id) refl, m, ended)
  | inr other ↦ (v, rw (lookup-insert id k u d, other) found, same, λ _. refl)
]

-- A write to a fresh key.
Related-add :
    (d : Dict TaskRecord) (t : TaskRecord)
    → has_key t.task_id d ≡ false
    → Related d (insert t.task_id t d)
unfolding has_key
Related-add d t fresh k v found = elim (Bool-cases (t.task_id == k)) [
  | inl at_id ↦ absurd (ground (arith, (eq_iff t.task_id k).0 at_id))
  | inr other ↦ (v, rw (lookup-insert t.task_id k t d, other) found, same, λ _. refl)
]

ensure-cases :
    (a b : TaskStatus)
    → (ensure_task_transition a b ≡ return tt) ⊎ (ensure_task_transition a b ≡ raise value_error)
unfolding ensure_task_transition
ensure-cases a b = elim (Bool-cases (task_in b (allowed_task_transitions a))) [
  | inl listed_there ↦ inl (rw listed_there)
  | inr unlisted ↦ inr (rw unlisted)
]

terminal-no_exit :
    (a b : TaskStatus) → is_terminal a ≡ true → ensure_task_transition a b ≡ return tt → ⊥
unfolding ensure_task_transition is_terminal
terminal-no_exit a b ended allowed = ground arith

leased-running : ensure_task_transition leased running ≡ return tt
unfolding ensure_task_transition
leased-running = refl

leased-not_terminal : (a : TaskStatus) → task_is a leased ≡ true → is_terminal a ≡ true → ⊥
unfolding task_is is_terminal
leased-not_terminal a held ended = ground arith

pending-leased : ensure_task_transition pending leased ≡ return tt
unfolding ensure_task_transition
pending-leased = refl

pub task_is→≡ : (a b : TaskStatus) → task_is a b ≡ true → a ≡ b
unfolding task_is
task_is→≡ a b h = ground arith

leaseable-cases :
    (now : ℕ) (t : TaskRecord)
    → is_leaseable now t ≡ true
    → (t.status ≡ pending) ⊎ (t.status ≡ leased)
unfolding is_leaseable
leaseable-cases now t ready = ground arith

leaseable-Move : (now : ℕ) (t : TaskRecord) → is_leaseable now t ≡ true → Move t.status leased
leaseable-Move now t ready = elim (leaseable-cases now t ready) [
  | inl waiting ↦ rw waiting (listed pending-leased)
  | inr held ↦ rw held same
]

leaseable-not_terminal :
    (now : ℕ) (t : TaskRecord) → is_leaseable now t ≡ true → is_terminal t.status ≡ true → ⊥
unfolding is_terminal
leaseable-not_terminal now t ready ended = ground (arith, leaseable-cases now t ready)

leaseable-found :
    (now : ℕ) (run_id : String) (t : TaskRecord) (s : Store)
    → IsKeyed s.tasks
    → first_such (is_leaseable now) (list_tasks run_id s) ≡ some t
    → (is_leaseable now t ≡ true) × (lookup t.task_id s.tasks ≡ some t)
unfolding list_tasks
leaseable-found now run_id t s keyed hit =
    let (ready, at) = first_such-In (is_leaseable now) (list_tasks run_id s) t hit in
    let (in_table, _) =
      In-tasks_of_run run_id t (values s.tasks)
        (In-sort_by_key t (tasks_of_run run_id (values s.tasks)) at) in
    (ready, lookup_of_In t s.tasks keyed in_table)

held-cases :
    (run_id worker_id : String) (t : TaskRecord)
    → is_held run_id worker_id t ≡ true
    → (t.status ≡ leased) ⊎ (t.status ≡ running)
unfolding is_held task_is
held-cases run_id worker_id t held = ground arith

held-not_terminal :
    (run_id worker_id : String) (t : TaskRecord)
    → is_held run_id worker_id t ≡ true
    → is_terminal t.status ≡ true
    → ⊥
unfolding is_terminal
held-not_terminal run_id worker_id t held ended = ground (arith, held-cases run_id worker_id t held)

held-abandon :
    (run_id worker_id : String) (t : TaskRecord)
    → is_held run_id worker_id t ≡ true
    → Move t.status failed
unfolding ensure_task_transition
held-abandon run_id worker_id t held = elim (held-cases run_id worker_id t held) [
  | inl at_lease ↦ rw at_lease abandon
  | inr at_work ↦ rw at_work (listed refl)
]

held-release :
    (run_id worker_id : String) (t : TaskRecord)
    → is_held run_id worker_id t ≡ true
    → Move t.status pending
unfolding ensure_task_transition
held-release run_id worker_id t held = elim (held-cases run_id worker_id t held) [
  | inl at_lease ↦ rw at_lease release
  | inr at_work ↦ rw at_work (listed refl)
]

-- What each method shows of the table it leaves.
abbrev pub Step : Dict TaskRecord → Dict TaskRecord → Type 0
Step d d' = Related d d' × IsKeyed d'

module _ (s : Store) (keyed : IsKeyed s.tasks) where
  put-Step :
      (id : String) (t u : TaskRecord)
      → lookup id s.tasks ≡ some t
      → u.task_id ≡ t.task_id
      → Move t.status u.status
      → KeptWhenTerminal t u
      → Step s.tasks (insert id u s.tasks)
  put-Step id t u e kept m ended = (
    Related-put s.tasks id t u e m ended,
    insert-IsKeyed id u s.tasks (kept ∙ lookup-task_id id s.tasks t keyed e) keyed,
  )

  pub create-Step : (t : TaskRecord) → Step s.tasks (create_task t s).1.tasks
  unfolding create_task
  create-Step t = elim (Bool-cases (has_key t.task_id s.tasks)) [
    | inl present ↦ rw present (Related-refl s.tasks, keyed)
    | inr fresh ↦
        rw fresh (Related-add s.tasks t fresh, insert-IsKeyed t.task_id t s.tasks refl keyed)
  ]

  pub update-Step :
      (id : String) (st : TaskStatus) (r : Option Fields) (e : Option String)
      → Step s.tasks (update_task_status id st r e s).1.tasks
  unfolding update_task_status
  update-Step id st r e = elim (Option-cases (lookup id s.tasks)) [
    | inl absent ↦ rw (absent, update_task_status) (Related-refl s.tasks, keyed)
    | inr (t, found) ↦ elim (ensure-cases t.status st) [
      | inl allowed ↦
          rw (found, allowed, update_task_status)
            (put-Step id t _ found refl (listed allowed)
              (λ ended. absurd (terminal-no_exit t.status st ended allowed)))
      | inr refused ↦ rw (found, refused, update_task_status) (Related-refl s.tasks, keyed)
    ]
  ]

  pub mark-Step : (id : String) → Step s.tasks (mark_task_running id s).1.tasks
  unfolding mark_task_running
  mark-Step id = elim (Option-cases (lookup id s.tasks)) [
    | inl absent ↦ rw (absent, mark_task_running) (Related-refl s.tasks, keyed)
    | inr (t, found) ↦ elim (Bool-cases (task_is t.status leased)) [
      | inl held ↦
          rw (found, held, mark_task_running)
            (put-Step id t _ found refl
              (rw (task_is→≡ t.status leased held) (listed leased-running))
              (λ ended. absurd (leased-not_terminal t.status held ended)))
      | inr other ↦ rw (found, other, mark_task_running) (Related-refl s.tasks, keyed)
    ]
  ]

  pub increment-Step : (id : String) → Step s.tasks (increment_task_attempts id s).1.tasks
  unfolding increment_task_attempts
  increment-Step id = elim (Option-cases (lookup id s.tasks)) [
    | inl absent ↦ rw (absent, increment_task_attempts) (Related-refl s.tasks, keyed)
    | inr (t, found) ↦
        rw (found, increment_task_attempts) (put-Step id t _ found refl same (λ _. refl))
  ]

  -- A task that a scan of the table found stands in the table under its own id.
  pub lease-Step :
      (now lease_now : ℕ) (stamp : Stamp) (run_id worker_id : String) (secs : ℕ)
      → Step s.tasks (lease_next_pending_task now lease_now stamp run_id worker_id secs s).1.tasks
  unfolding lease_next_pending_task
  lease-Step now lease_now stamp run_id worker_id secs =
      elim (Option-cases (first_such (is_leaseable now) (list_tasks run_id s))) [
        | inl none_found ↦ rw (none_found, lease_next_pending_task) (Related-refl s.tasks, keyed)
        | inr (t, hit) ↦
            let (ready, found) = leaseable-found now run_id t s keyed hit in
            let put =
              put-Step t.task_id t _ found refl (leaseable-Move now t ready)
                (λ ended. absurd (leaseable-not_terminal now t ready ended)) in
            elim (Bool-cases (has_expired_lease now t)) [
              | inl late ↦ rw (hit, late, lease_next_pending_task) put
              | inr fresh ↦ rw (hit, fresh, lease_next_pending_task) put
            ]
      ]

  pub reclaim-Step :
      (stamp : Stamp) (run_id worker_id : String) (n : ℕ)
      → Step s.tasks (reclaim_dead_worker stamp run_id worker_id n s).1.tasks
  unfolding reclaim_dead_worker
  reclaim-Step stamp run_id worker_id n =
      elim (Option-cases (first_such (is_held run_id worker_id) (values s.tasks))) [
        | inl none_found ↦ rw (none_found, reclaim_dead_worker) (Related-refl s.tasks, keyed)
        | inr (t, hit) ↦
            let (held, at) = first_such-In (is_held run_id worker_id) (values s.tasks) t hit in
            let found = lookup_of_In t s.tasks keyed at in
            let live = held-not_terminal run_id worker_id t held in
            elim (Bool-cases (leb n (count_events t.task_id "lease_reclaimed" s.events))) [
              | inl spent ↦
                  rw (hit, spent, reclaim_dead_worker)
                    (put-Step t.task_id t _ found refl (held-abandon run_id worker_id t held)
                      (λ ended. absurd (live ended)))
              | inr left ↦
                  rw (hit, left, reclaim_dead_worker)
                    (put-Step t.task_id t _ found refl (held-release run_id worker_id t held)
                      (λ ended. absurd (live ended)))
            ]
      ]
