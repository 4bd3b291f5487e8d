-- ===== src/State/Memory/Keys.antt =====
-- The task table of the store (state/memory_store.py): each task stands under its own id, once.
use fine_tune_harness.Base.{
  String, Bool, true, none, some, List, [], ◌∷◌, ◌≡◌, refl, ◌⊎◌, inl, inr, arith, eq_iff,
  Bool-cases, Dict, lookup, insert, values, lookup-insert,
}
use fine_tune_harness.State.Models.{TaskRecord}
use fine_tune_harness.State.Memory.{insert_sorted, sort_by_key, tasks_of_run, first_such}

abbrev pub In : TaskRecord → List TaskRecord → Type 0
In t [] = ⊥
In t (u ∷ us) = (t ≡ u) ⊎ In t us

-- Each task under its own id, and no id twice.
abbrev pub IsKeyed : Dict TaskRecord → Type 0
IsKeyed [] = Unit
IsKeyed ((k, t) ∷ d) = (t.task_id ≡ k) × (lookup k d ≡ none) × IsKeyed d

pub insert-IsKeyed :
    (k : String) (t : TaskRecord) (d : Dict TaskRecord)
    → t.task_id ≡ k
    → IsKeyed d
    → IsKeyed (insert k t d)
unfolding insert lookup
insert-IsKeyed k t [] e h = (e, refl, tt)
insert-IsKeyed k t ((j, u) ∷ d) e h =
    ground (arith, insert-IsKeyed k t d e, lookup-insert k j t d, eq_iff j k, eq_iff k j)

pub lookup-task_id :
    (k : String) (d : Dict TaskRecord) (t : TaskRecord)
    → IsKeyed d
    → lookup k d ≡ some t
    → t.task_id ≡ k
unfolding lookup
lookup-task_id k [] t h e = cc
lookup-task_id k ((j, u) ∷ d) t h e = ground (arith, lookup-task_id k d t, eq_iff j k)

pub lookup_of_In :
    (t : TaskRecord) (d : Dict TaskRecord)
    → IsKeyed d
    → In t (values d)
    → lookup t.task_id d ≡ some t
unfolding lookup values
lookup_of_In t [] h m = absurd m
lookup_of_In t ((k, u) ∷ d) h (inl e) = ground (arith, eq_iff k t.task_id)
lookup_of_In t ((k, u) ∷ d) h (inr m) = ground (arith, lookup_of_In t d h.2 m, eq_iff k t.task_id)

pub In-values :
    (k : String) (t : TaskRecord) (d : Dict TaskRecord) → lookup k d ≡ some t → In t (values d)
unfolding lookup values
In-values k t [] e = cc
In-values k t ((j, u) ∷ d) e = ground (arith, In-values k t d)

pub first_such-In :
    (p : TaskRecord → Bool) (ts : List TaskRecord) (t : TaskRecord)
    → first_such p ts ≡ some t
    → (p t ≡ true) × In t ts
unfolding first_such
first_such-In p [] t h = cc
first_such-In p (u ∷ us) t h = elim (Bool-cases (p u)) [
  | inl yes_u ↦ ground (arith)
  | inr no_u ↦ ground (arith, first_such-In p us t)
]

pub In-insert_sorted :
    (t u : TaskRecord) (us : List TaskRecord) → In t (insert_sorted u us) → In t (u ∷ us)
unfolding insert_sorted
In-insert_sorted t u [] m = m
In-insert_sorted t u (v ∷ us) m = ground (arith, In-insert_sorted t u us)

pub In-sort_by_key : (t : TaskRecord) (us : List TaskRecord) → In t (sort_by_key us) → In t us
unfolding sort_by_key
In-sort_by_key t [] m = m
In-sort_by_key t (u ∷ us) m =
    ground (arith, In-insert_sorted t u (sort_by_key us), In-sort_by_key t us)

pub In-tasks_of_run :
    (run_id : String) (t : TaskRecord) (us : List TaskRecord)
    → In t (tasks_of_run run_id us)
    → In t us × (t.run_id ≡ run_id)
unfolding tasks_of_run
In-tasks_of_run run_id t [] m = absurd m
In-tasks_of_run run_id t (u ∷ us) m =
    ground (arith, In-tasks_of_run run_id t us, eq_iff u.run_id run_id)
