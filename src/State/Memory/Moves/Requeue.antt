-- ===== src/State/Memory/Moves/Requeue.antt =====
-- The loop of requeue_expired_leases (state/memory_store.py) over its snapshot of the tasks.
use fine_tune_harness.Base.{
  ℕ, String, Bool, true, some, List, [], ◌∷◌, ◌≡◌, refl, ◌⊎◌, inl, inr, arith, eq_iff, Bool-cases,
  ◌+◌, Dict, lookup, insert, values, lookup-insert, lookup-insert_self, ◌&&◌, ◌==◌, if◌then◌else◌,
  none, false, ap, sym, ◌∙◌,
}
use fine_tune_harness.State.Models.{pending, leased, TaskRecord}
use fine_tune_harness.State.Memory.{Store, Stamp, has_expired_lease}
use fine_tune_harness.State.Memory.Recovery.{requeue_each, requeue_expired_leases, unleased}
use fine_tune_harness.State.Memory.Keys.{
  In, In-values, IsKeyed, insert-IsKeyed, lookup_of_In, lookup-task_id,
}
use fine_tune_harness.State.Memory.Moves.{same, release, is_terminal}
use fine_tune_harness.State.Memory.Moves.Steps.{Step, task_is→≡}

both : {a b : Bool} → a && b ≡ true → (a ≡ true) × (b ≡ true)
both {a} {b} h = ground arith

-- The record after the loop: as it was, or given up.
abbrev pub Requeued : (now : ℕ) (run_id : String) → TaskRecord → TaskRecord → Type 0
Requeued now run_id t t' =
    (t' ≡ t) ⊎ ((has_expired_lease now t ≡ true) × (t.run_id ≡ run_id) × (t' ≡ unleased t))

module _ (now : ℕ) (run_id : String) (d : Dict TaskRecord) where
  -- `d` is the table at the start, `d'` the table now.
  abbrev Between : Dict TaskRecord → Type 0
  Between d' =
      (k : String) (t : TaskRecord)
      → lookup k d ≡ some t
      → (t' : TaskRecord) × (lookup k d' ≡ some t') × Requeued now run_id t t'

  Between-put :
      (d' : Dict TaskRecord) (u : TaskRecord)
      → lookup u.task_id d ≡ some u
      → has_expired_lease now u ≡ true
      → u.run_id ≡ run_id
      → Between d'
      → Between (insert u.task_id (unleased u) d')
  Between-put d' u at late mine between k t found = elim (Bool-cases (u.task_id == k)) [
    | inl here ↦
        let id : u.task_id ≡ k = (eq_iff u.task_id k).0 here in
        let old : u ≡ t = cc in
        rw (← old) (
          unleased u,
          rw (lookup-insert u.task_id k (unleased u) d', here) refl,
          inr (late, mine, refl),
        )
    | inr other ↦
        let (t', now_at, kept) = between k t found in
        (t', rw (lookup-insert u.task_id k (unleased u) d', other) now_at, kept)
  ]

  abbrev FromTable : List TaskRecord → Type 0
  FromTable [] = Unit
  FromTable (t ∷ ts) = (lookup t.task_id d ≡ some t) × FromTable ts

  requeue_each-Between :
      (stamps : ℕ → Stamp) (count : ℕ) (ts : List TaskRecord) (s : Store)
      → FromTable ts
      → IsKeyed s.tasks
      → Between s.tasks
      → IsKeyed (requeue_each now stamps run_id count ts s).1.tasks
        × Between (requeue_each now stamps run_id count ts s).1.tasks
  unfolding requeue_each
  requeue_each-Between stamps count [] s from keyed between = (keyed, between)
  requeue_each-Between stamps count (t ∷ ts) s from keyed between =
      elim (Bool-cases (t.run_id == run_id && has_expired_lease now t)) [
        | inl due ↦
            let (mine, late) = both due in
            rw (due, requeue_each)
              (requeue_each-Between stamps (count + 1) ts _ from.1
                (insert-IsKeyed t.task_id (unleased t) s.tasks (unfold unleased in refl) keyed)
                (Between-put s.tasks t from.0 late ((eq_iff t.run_id run_id).0 mine) between))
        | inr kept ↦
            rw (kept, requeue_each) (requeue_each-Between stamps count ts s from.1 keyed between)
      ]

FromTable-values :
    (now : ℕ) (run_id : String) (d : Dict TaskRecord) (ts : List TaskRecord)
    → ((t : TaskRecord) → In t ts → lookup t.task_id d ≡ some t)
    → FromTable now run_id d ts
FromTable-values now run_id d [] at = tt
FromTable-values now run_id d (t ∷ ts) at =
    (at t (inl refl), FromTable-values now run_id d ts (λ u m. at u (inr m)))

requeue_between :
    (now : ℕ) (stamps : ℕ → Stamp) (run_id : String) (s : Store)
    → IsKeyed s.tasks
    → (k : String) (t : TaskRecord) → lookup k s.tasks ≡ some t
    → (t' : TaskRecord) × (lookup k (requeue_expired_leases now stamps run_id s).1.tasks ≡ some t')
      × Requeued now run_id t t'
unfolding requeue_expired_leases
requeue_between now stamps run_id s keyed =
    (requeue_each-Between now run_id s.tasks stamps 0 (values s.tasks) s
      (FromTable-values now run_id s.tasks (values s.tasks) (λ t m. lookup_of_In t s.tasks keyed m))
      keyed (λ k t found. (t, found, inl refl))).1

module _ (now : ℕ) (run_id : String) (d : Dict TaskRecord) (stamps : ℕ → Stamp) where
  -- A task that the loop has given up stays so.
  given_up_kept :
      (count : ℕ) (ts : List TaskRecord) (s : Store) (t : TaskRecord)
      → FromTable now run_id d ts
      → lookup t.task_id d ≡ some t
      → lookup t.task_id s.tasks ≡ some (unleased t)
      → lookup t.task_id (requeue_each now stamps run_id count ts s).1.tasks ≡ some (unleased t)
  unfolding requeue_each
  given_up_kept count [] s t from at done = done
  given_up_kept count (u ∷ ts) s t from at done =
      elim (Bool-cases (u.run_id == run_id && has_expired_lease now u)) [
        | inr kept ↦ rw (kept, requeue_each) (given_up_kept count ts s t from.1 at done)
        | inl due ↦
            rw (due, requeue_each)
              (given_up_kept (count + 1) ts _ t from.1 at
                (lookup-insert u.task_id t.task_id (unleased u) s.tasks ∙ after u from.0))
      ]
    where
      after :
          (u : TaskRecord)
          → lookup u.task_id d ≡ some u
          → (if u.task_id == t.task_id then some (unleased u) else lookup t.task_id s.tasks)
            ≡ some (unleased t)
      after u there = elim (Bool-cases (u.task_id == t.task_id)) [
        | inl here ↦
            let id : u.task_id ≡ t.task_id = (eq_iff u.task_id t.task_id).0 here in
            let old : u ≡ t = cc in rw here (ap (λ (v : TaskRecord). some (unleased v)) old)
        | inr other ↦ rw other done
      ]

  -- The loop gives up every task of its list that is due.
  given_up :
      (count : ℕ) (ts : List TaskRecord) (s : Store) (t : TaskRecord)
      → FromTable now run_id d ts
      → In t ts
      → t.run_id == run_id && has_expired_lease now t ≡ true
      → lookup t.task_id (requeue_each now stamps run_id count ts s).1.tasks ≡ some (unleased t)
  unfolding requeue_each
  given_up count [] s t from stands due = absurd stands
  given_up count (u ∷ ts) s t from (inl here) due =
      let mine =
        ap (λ (v : TaskRecord). v.run_id == run_id && has_expired_lease now v) (sym here) in
      rw (← here) (
        rw (due, requeue_each)
          (given_up_kept (count + 1) ts _ t from.1 (rw here from.0)
            (lookup-insert_self t.task_id (unleased t) s.tasks)))
  given_up count (u ∷ ts) s t from (inr later) due =
      elim (Bool-cases (u.run_id == run_id && has_expired_lease now u)) [
        | inr kept ↦ rw (kept, requeue_each) (given_up count ts s t from.1 later due)
        | inl other ↦ rw (other, requeue_each) (given_up (count + 1) ts _ t from.1 later due)
      ]

-- In a table where each task stands under its own id, once, requeue_expired_leases makes every task of
-- the run whose lease has expired PENDING with no lease and otherwise as it was, and leaves every
-- other task as it was.
pub requeue_expired_leases_recovers :
    (now : ℕ) (stamps : ℕ → Stamp) (run_id : String) (s : Store)
    → IsKeyed s.tasks
    → (k : String) (t : TaskRecord) → lookup k s.tasks ≡ some t
    → lookup k (requeue_expired_leases now stamps run_id s).1.tasks
      ≡ some (
          if t.run_id == run_id && has_expired_lease now t
          then record t { status = pending; lease_owner = none; leased_until = none }
          else t)
unfolding requeue_expired_leases unleased
requeue_expired_leases_recovers now stamps run_id s keyed k t found =
    elim (Bool-cases (t.run_id == run_id && has_expired_lease now t)) [
      | inl due ↦
          let id = lookup-task_id k s.tasks t keyed found in
          rw due (
            rw (← id) (
              given_up now run_id s.tasks stamps 0 (values s.tasks) s t
                (FromTable-values now run_id s.tasks (values s.tasks)
                  (λ u m. lookup_of_In u s.tasks keyed m))
                (In-values k t s.tasks found) due))
      | inr kept ↦
          let (t', now_at, moved) = requeue_between now stamps run_id s keyed k t found in
          elim moved [
            | inl unmoved ↦ rw (kept, ← unmoved) now_at
            | inr (late, mine, _) ↦ absurd (not_due t kept late mine)
          ]
    ]
  where
    not_due :
        (t : TaskRecord)
        → t.run_id == run_id && has_expired_lease now t ≡ false
        → has_expired_lease now t ≡ true
        → t.run_id ≡ run_id
        → ⊥
    not_due t kept late mine = ground (arith, eq_iff t.run_id run_id)

requeue-IsKeyed :
    (now : ℕ) (stamps : ℕ → Stamp) (run_id : String) (s : Store)
    → IsKeyed s.tasks
    → IsKeyed (requeue_expired_leases now stamps run_id s).1.tasks
unfolding requeue_expired_leases
requeue-IsKeyed now stamps run_id s keyed =
    (requeue_each-Between now run_id s.tasks stamps 0 (values s.tasks) s
      (FromTable-values now run_id s.tasks (values s.tasks) (λ t m. lookup_of_In t s.tasks keyed m))
      keyed (λ k t found. (t, found, inl refl))).0

expired-leased : (now : ℕ) (t : TaskRecord) → has_expired_lease now t ≡ true → t.status ≡ leased
unfolding has_expired_lease
expired-leased now t late = task_is→≡ t.status leased (both late).0

pub requeue-Step :
    (now : ℕ) (stamps : ℕ → Stamp) (run_id : String) (s : Store)
    → IsKeyed s.tasks
    → Step s.tasks (requeue_expired_leases now stamps run_id s).1.tasks
unfolding unleased is_terminal
requeue-Step now stamps run_id s keyed = (
  λ k t found.
      let (t', now_at, kept) = requeue_between now stamps run_id s keyed k t found in
      elim kept [
        | inl e ↦ (t', now_at, rw e same, λ _. rw e refl)
        | inr (late, _, e) ↦ (
          t',
          now_at,
          rw (e, expired-leased now t late) release,
          λ ended. absurd (ground (arith, expired-leased now t late)),
        )
      ],
  requeue-IsKeyed now stamps run_id s keyed,
)
