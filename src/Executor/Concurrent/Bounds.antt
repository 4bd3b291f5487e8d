-- ===== src/Executor/Concurrent/Bounds.antt =====
-- How many children a concurrent drain has at a time (drain_concurrent in executor/worker.py).
use fine_tune_harness.Base.{
  ℕ, ◌+◌, ◌≤◌, ◌<◌, String, Bool, true, false, Option, none, some, List, [], ◌∷◌, ◌&&◌, ltb,
  if◌then◌else◌, ◌≡◌, inl, inr, arith, Bool-cases, Option-cases,
}
use fine_tune_harness.Base.Int.{ℤ, pos, negsuc}
use fine_tune_harness.Effects.{Result, return, raise, Exec, pure, and_then, ◌>>=◌}
use fine_tune_harness.State.Memory.{Stamp}
use fine_tune_harness.State.Value.{Float}
use fine_tune_harness.State.Sqlite.{Database}
use fine_tune_harness.State.Sqlite.Tasks.{list_tasks}
use fine_tune_harness.State.Sqlite.Recovery.{reclaim_dead_worker}
use mathlib.Core.Path.{subst}
use fine_tune_harness.Executor.Conversion.{at_least_one}
use fine_tune_harness.Executor.Concurrent.{
  ConcurrencyConfig, Child, Parent, count_children, put_child, pop_child, lower, count_leaseable,
  choose_device, ChildOutcome, succeeded, oom, empty, error, on_report, on_db, start, spawn, admit,
  recover, recover_dead, Step, admits, reports, recovers, works, Steps, done, next,
}

-- The ceiling stays between 1 and the limit, and so many children are in flight at most.
pub record IsBounded (limit : ℕ) (p : Parent) : Type 0 where
  pub at_least : 1 ≤ p.ceiling
  pub at_most : p.ceiling ≤ limit
  pub children : count_children p.in_flight ≤ limit

count-put_child :
    (c : Child) (cs : List Child) → count_children (put_child c cs) ≤ count_children cs + 1
unfolding count_children put_child
count-put_child c [] = omega arith
count-put_child c (d ∷ ds) = ground (arith, count-put_child c ds)

count-pop_child :
    (pid : ℕ) (cs : List Child) → count_children (pop_child pid cs) ≤ count_children cs
unfolding count_children pop_child
count-pop_child pid [] = omega arith
count-pop_child pid (d ∷ ds) = ground (arith, count-pop_child pid ds)

lower_bounds : (c : ℕ) → 1 ≤ c → (1 ≤ lower c) × (lower c ≤ c)
unfolding lower
lower_bounds c h = ground arith

on_report-IsBounded :
    (limit pid : ℕ) (outcome : ChildOutcome) (p : Parent)
    → IsBounded limit p
    → IsBounded limit (on_report pid outcome p)
unfolding on_report
on_report-IsBounded limit pid succeeded p h = record {
  at_least = h.at_least;
  at_most = h.at_most;
  children = omega (arith, count-pop_child pid p.in_flight, h.children);
}
on_report-IsBounded limit pid oom p h =
    let (low, high) = lower_bounds p.ceiling h.at_least in
    record {
      at_least = low;
      at_most = omega (arith, high, h.at_most);
      children = omega (arith, count-pop_child pid p.in_flight, h.children);
    }
on_report-IsBounded limit pid empty p h = record {
  at_least = h.at_least;
  at_most = h.at_most;
  children = omega (arith, count-pop_child pid p.in_flight, h.children);
}
on_report-IsBounded limit pid error p h = record {
  at_least = h.at_least;
  at_most = h.at_most;
  children = omega (arith, count-pop_child pid p.in_flight, h.children);
}

-- Two statements one after the other keep what each keeps.
then-IsBounded :
    {A B : Type 0} (limit : ℕ) (m : Exec Parent A) (n : A → Exec Parent B)
    → ((p : Parent) → IsBounded limit p → IsBounded limit (m p).1)
    → ((a : A) (p : Parent) → IsBounded limit p → IsBounded limit (n a p).1)
    → (p : Parent) → IsBounded limit p
    → IsBounded limit ((m >>= n) p).1
then-IsBounded {A = A} limit m n hm hn p h = onward (m p).0 (m p).1 (hm p h)
  where
    onward : (r : Result A) (q : Parent) → IsBounded limit q → IsBounded limit (and_then r n q).1
    onward (return a) q k = hn a q k
    onward (raise e) q k = k

none-some : {A : Type 0} {a : A} → ◌≡◌ {A = Option A} none (some a) → ⊥
none-some e = cc

some_equal : {A : Type 0} {a b : A} → ◌≡◌ {A = Option A} (some a) (some b) → a ≡ b
some_equal e = cc

at_least_lem : (n : ℤ) → 1 ≤ at_least_one n
unfolding at_least_one
at_least_lem (pos n) = ground arith
at_least_lem (negsuc n) = omega arith

room : (a b : ℕ) (c : Bool) → (ltb a b && c) ≡ true → a < b
room a b c h = ground arith

module _ (config : ConcurrencyConfig) (run_id : String) (num_devices : ℕ)
    (child_worker_id : ℕ → String) where
  admit-IsBounded :
      (limit now : ℕ) (live : List Float) (pid : ℕ) (p q : Parent)
      → admit config run_id num_devices child_worker_id now live pid p ≡ some q
      → IsBounded limit p
      → IsBounded limit q
  unfolding admit spawn
  admit-IsBounded limit now live pid p q admitted h =
      let guard =
        ltb (count_children p.in_flight) p.ceiling
        && ltb 0 (count_leaseable now (list_tasks run_id p.db)) in
      elim (Bool-cases guard) [
        | inr full ↦ absurd (none-some (rw (full, admit) at admitted))
        | inl go ↦ elim (Option-cases (choose_device num_devices p.in_flight p.min_free live)) [
          | inl nowhere ↦ absurd (none-some (rw (go, nowhere, admit) at admitted))
          | inr (device, chosen) ↦
              let e : spawn config run_id num_devices child_worker_id pid device p ≡ q =
                some_equal (rw (go, chosen, admit) at admitted) in
              subst (IsBounded limit) e (record {
                at_least = h.at_least;
                at_most = h.at_most;
                children = omega (
                  arith,
                  room (count_children p.in_flight) p.ceiling _ go,
                  h.at_most,
                  count-put_child
                      (record {
                        pid = pid;
                        worker_id = child_worker_id (p.child_seq + 1);
                        device = device;
                      })
                      p.in_flight,
                );
              })
        ]
      ]

  recover-IsBounded :
      (limit : ℕ) (stamp : Stamp) (c : Child) (p : Parent)
      → IsBounded limit p
      → IsBounded limit (recover config run_id num_devices child_worker_id stamp c p).1
  unfolding recover on_db
  recover-IsBounded limit stamp c p h =
      then-IsBounded limit
        (on_db (reclaim_dead_worker stamp run_id c.worker_id config.max_oom_retries))
        (λ _ q. (return tt, record q { ceiling = lower q.ceiling }))
        (λ q k. record { at_least = k.at_least; at_most = k.at_most; children = k.children })
        (λ _ q k.
          let (low, high) = lower_bounds q.ceiling k.at_least in
          record {
            at_least = low;
            at_most = omega (arith, high, k.at_most);
            children = k.children;
          })
        (record p { in_flight = pop_child c.pid p.in_flight })
        (record {
          at_least = h.at_least;
          at_most = h.at_most;
          children = omega (arith, count-pop_child c.pid p.in_flight, h.children);
        })

  recover_dead-IsBounded :
      (limit : ℕ) (is_alive : ℕ → Bool) (stamps : ℕ → Stamp) (n : ℕ) (cs : List Child) (p : Parent)
      → IsBounded limit p
      → IsBounded limit
          (recover_dead config run_id num_devices child_worker_id is_alive stamps n cs p).1
  unfolding recover_dead
  recover_dead-IsBounded limit is_alive stamps n [] p h = h
  recover_dead-IsBounded limit is_alive stamps n (c ∷ cs) p h =
      then-IsBounded limit
        (if is_alive c.pid
          then pure tt
          else recover config run_id num_devices child_worker_id (stamps n) c)
        (λ _. recover_dead config run_id num_devices child_worker_id is_alive stamps (n + 1) cs)
        (λ q k. one (is_alive c.pid) q k)
        (λ _ q k. recover_dead-IsBounded limit is_alive stamps (n + 1) cs q k) p h
    where
      one :
          (b : Bool) (q : Parent)
          → IsBounded limit q
          → IsBounded limit
              ((if b
                  then pure tt
                  else recover config run_id num_devices child_worker_id (stamps n) c)
                q).1
      one true q k = k
      one false q k = recover-IsBounded limit (stamps n) c q k

  Step-IsBounded :
      (limit : ℕ) (p q : Parent)
      → Step config run_id num_devices child_worker_id p q
      → IsBounded limit p
      → IsBounded limit q
  Step-IsBounded limit p q (admits now live pid admitted) h =
      admit-IsBounded limit now live pid p q admitted h
  Step-IsBounded limit p _ (reports pid outcome) h = on_report-IsBounded limit pid outcome p h
  Step-IsBounded limit p _ (recovers is_alive stamps) h =
      recover_dead-IsBounded limit is_alive stamps 0 p.in_flight p h
  Step-IsBounded limit p _ (works db) h = record {
    at_least = h.at_least;
    at_most = h.at_most;
    children = h.children;
  }

  -- Whatever the children, the monitor and the operating system do: a concurrent drain never has more
  -- children in flight than its `max_concurrent`, one if that is less, and its ceiling stays between one
  -- and that number.
  pub drain_concurrent-IsBounded :
      (db : Database) (p : Parent)
      → Steps config run_id num_devices child_worker_id
          (start config run_id num_devices child_worker_id db)
          p
      → IsBounded (at_least_one config.max_concurrent) p
  unfolding start count_children
  drain_concurrent-IsBounded db _ done = record {
    at_least = at_least_lem config.max_concurrent;
    at_most = omega arith;
    children = omega arith;
  }
  drain_concurrent-IsBounded db p (next earlier step) =
      Step-IsBounded (at_least_one config.max_concurrent) _ p step
        (drain_concurrent-IsBounded db _ earlier)
