-- ===== src/Evaluation/Comparator/Verdicts/Tables.antt =====
-- evaluation/comparator.py: the verdicts of a report in terms of the tasks in the store.
use fine_tune_harness.Base.{
  String, Bool, true, false, ◌&&◌, ◌||◌, Option, some, List, [], ◌∷◌, if◌then◌else◌, ◌==◌, ◌≡◌,
  refl, ap, sym, ◌∙◌, arith, eq_iff, Bool-cases, Option-cases, inl, inr, Dict, lookup, insert,
  has_key, lookup-insert,
}
use fine_tune_harness.Effects.{Exception, Result, return, raise, return-injective}
use fine_tune_harness.State.Value.{Float}
use fine_tune_harness.State.Models.{RunRecord, TaskRecord}
use fine_tune_harness.State.Memory.{Store, list_tasks}
use fine_tune_harness.Evaluation.Validator.{text_in}
use fine_tune_harness.Evaluation.Comparator.{MetricThresholds, ComparabilityIssue}
use fine_tune_harness.Evaluation.Comparator.Snapshots.{timed}
use fine_tune_harness.Evaluation.Comparator.Tasks.{status_of, any_in, ok_statuses, fail_statuses}
use fine_tune_harness.Evaluation.Comparator.Reports.{
  by_key, Tables, load_tasks, load_runs, loaded, check_all, any_error, insert_key, keys_of,
  all_keys, find_task, compare_tasks, start, ComparisonReport, comparability_error, report_on,
  or_default, compare_runs,
}
use mathlib.Core.Path.{subst}
use fine_tune_harness.Evaluation.Comparator.Verdicts.{
  then_do-return, regressed, improved, compare_tasks_verdicts,
}

-- The task that the comparison takes for a key of a run: the last of its tasks with the key.
unfoldable pub task_under : Store → (task_key run_id : String) → Option TaskRecord
unfolding by_key list_tasks
task_under store task_key run_id = lookup task_key (by_key (list_tasks run_id store) [])

lookup-load_tasks :
    (wall_total : List Float → Float) (store : Store) (runs : Dict RunRecord) (rs : List String)
    (t t' : Tables)
    → load_tasks wall_total store runs rs t ≡ return t'
    → (r : String)
    → lookup r t'.tasks_by_run
      ≡ (if text_in r rs then some (by_key (list_tasks r store) []) else lookup r t.tasks_by_run)
unfolding load_tasks text_in
lookup-load_tasks wall_total store runs [] t t' h r =
    ap (λ (u : Tables). lookup r u.tasks_by_run) (sym (return-injective h))
lookup-load_tasks wall_total store runs (q ∷ qs) t t' h r =
    let (run, (_, h1)) = then_do-return (loaded (lookup q runs)) _ h in
    let (walls, (_, h2)) = then_do-return (timed (list_tasks q store)) _ h1 in
    lookup-load_tasks wall_total store runs qs _ t' h2 r
    ∙ stored (λ q'. by_key (list_tasks q' store) []) t.tasks_by_run
  where
    stored :
        (g : String → Dict TaskRecord) (d : Dict (Dict TaskRecord))
        → (if text_in r qs then some (g r) else lookup r (insert q (g q) d))
          ≡ (if r == q || text_in r qs then some (g r) else lookup r d)
    stored g d = ground (arith, lookup-insert q r (g q) d, eq_iff q r, eq_iff r q)

text_in-insert_key :
    (k j : String) (ks : List String) → text_in k (insert_key j ks) ≡ (k == j || text_in k ks)
unfolding text_in insert_key
text_in-insert_key k j [] = refl
text_in-insert_key k j (i ∷ is) = ground (arith, text_in-insert_key k j is, eq_iff j i)

text_in-keys_of :
    (k : String) (d : Dict TaskRecord) (ks : List String)
    → text_in k (keys_of d ks) ≡ (has_key k d || text_in k ks)
unfolding keys_of has_key lookup
text_in-keys_of k [] ks = refl
text_in-keys_of k ((j, t) ∷ d) ks = ground (
  arith,
  text_in-keys_of k d (insert_key j ks),
  text_in-insert_key k j ks,
  eq_iff k j,
  eq_iff j k,
)

all_keys_keeps :
    (k : String) (d : Dict (Dict TaskRecord)) (ks : List String)
    → text_in k ks ≡ true
    → text_in k (all_keys d ks) ≡ true
unfolding all_keys
all_keys_keeps k [] ks h = h
all_keys_keeps k ((r, tasks) ∷ d) ks h =
    all_keys_keeps k d (keys_of tasks ks) (ground (arith, text_in-keys_of k tasks ks))

-- A task of some run has its key among all keys.
all_keys-find_task :
    (k r : String) (t : TaskRecord) (d : Dict (Dict TaskRecord)) (ks : List String)
    → find_task d k r ≡ some t
    → text_in k (all_keys d ks) ≡ true
unfolding all_keys find_task lookup has_key
all_keys-find_task k r t [] ks h = cc
all_keys-find_task k r t ((q, tasks) ∷ d) ks h = elim (Bool-cases (q == r)) [
  | inl here ↦ all_keys_keeps k d (keys_of tasks ks) (ground (arith, text_in-keys_of k tasks ks))
  | inr other ↦ all_keys-find_task k r t d (keys_of tasks ks) (rw (other, find_task, lookup) at h)
]

any_in_cong :
    (statuses : List String) (f g : String → Option TaskRecord) (rs : List String)
    → ((r : String) → text_in r rs ≡ true → f r ≡ g r)
    → any_in statuses f rs ≡ any_in statuses g rs
unfolding any_in text_in
any_in_cong statuses f g [] same = refl
any_in_cong statuses f g (r ∷ rs) same =
    rw
      (
        same r (ground (arith, eq_iff r r)),
        any_in_cong statuses f g rs (λ q m. same q (ground arith)),
      )
      refl

module _ (store : Store) (tables : Dict (Dict TaskRecord)) (k baseline : String)
    (later : List String) where
  -- The tables hold the tasks of the store, for the runs that are compared.
  pub same_verdicts :
      ((r : String)
        → text_in r (baseline ∷ later) ≡ true
        → find_task tables k r ≡ task_under store k r)
      → (regressed (find_task tables k) baseline later
          ≡ regressed (task_under store k) baseline later)
        × (improved (find_task tables k) baseline later
            ≡ improved (task_under store k) baseline later)
  unfolding regressed improved text_in
  same_verdicts same =
      let here = same baseline (ground (arith, eq_iff baseline baseline)) in
      let there = λ (statuses : List String).
        any_in_cong statuses (find_task tables k) (task_under store k) later
          (λ r m. same r (ground arith)) in
      (rw (here, there fail_statuses) refl, rw (here, there ok_statuses) refl)

  any_ok_key :
      (rs : List String)
      → any_in ok_statuses (find_task tables k) rs ≡ true
      → text_in k (all_keys tables []) ≡ true
  unfolding any_in text_in status_of
  any_ok_key [] h = cc
  any_ok_key (r ∷ rs) h = elim (Option-cases (find_task tables k r)) [
    | inl missing ↦ any_ok_key rs (rw (missing) at h)
    | inr (t, found) ↦ all_keys-find_task k r t tables [] found
  ]

  -- A key with a verdict is one of the keys that are gone through.
  regressed_key :
      (text_in k (all_keys tables []) && regressed (find_task tables k) baseline later)
      ≡ regressed (find_task tables k) baseline later
  unfolding regressed status_of text_in
  regressed_key = elim (Option-cases (find_task tables k baseline)) [
    | inl missing ↦ rw (missing, status_of) (ground arith)
    | inr (t, found) ↦ ground (arith, all_keys-find_task k baseline t tables [] found)
  ]

  improved_key :
      (text_in k (all_keys tables []) && improved (find_task tables k) baseline later)
      ≡ improved (find_task tables k) baseline later
  unfolding improved
  improved_key = ground (arith, any_ok_key later)

never_both : (s : String) → (text_in s ok_statuses && text_in s fail_statuses) ≡ false
unfolding text_in
never_both s = elim (Bool-cases (s == "succeeded")) [
  | inl here ↦ let e : s ≡ "succeeded" = ground (arith, eq_iff s "succeeded") in rw e refl
  | inr other ↦ rw other refl
]

disjoint :
    (table : String → Option TaskRecord) (baseline : String) (later : List String)
    → (regressed table baseline later && improved table baseline later) ≡ false
unfolding regressed improved
disjoint table baseline later = ground (arith, never_both (status_of (table baseline)))

report_on_verdicts :
    (wall_total : List Float → Float) (store : Store) (thresholds : MetricThresholds)
    (runs : Dict RunRecord) (issues : List ComparabilityIssue) (baseline : String)
    (later : List String) (report : ComparisonReport)
    → report_on wall_total store thresholds runs issues baseline later ≡ return report
    → (k : String)
    → (text_in k report.regressions ≡ regressed (task_under store k) baseline later)
      × (text_in k report.improvements ≡ improved (task_under store k) baseline later)
      × ((text_in k report.regressions && text_in k report.improvements) ≡ false)
unfolding report_on task_under find_task text_in
report_on_verdicts wall_total store thresholds runs issues baseline later report h k =
    let (tables, (loads, h1)) =
      then_do-return
        (load_tasks wall_total store runs (baseline ∷ later)
          (record { tasks_by_run = []; snapshots = [] }))
        _ h in
    let (p, (compares, h2)) =
      then_do-return
        (compare_tasks thresholds baseline later tables.tasks_by_run
          (all_keys tables.tasks_by_run []) (start baseline later))
        _ h1 in
    let held =
      lookup-load_tasks wall_total store runs (baseline ∷ later)
        (record { tasks_by_run = []; snapshots = [] }) tables loads in
    let (regs, imps) =
      compare_tasks_verdicts thresholds baseline later tables.tasks_by_run
        (all_keys tables.tasks_by_run []) (start baseline later) p compares k in
    let (same_regs, same_imps) =
      same_verdicts store tables.tasks_by_run k baseline later
        (λ r m. rw (held r, m, find_task) refl) in
    let regs' = regs ∙ regressed_key store tables.tasks_by_run k baseline later ∙ same_regs in
    let imps' = imps ∙ improved_key store tables.tasks_by_run k baseline later ∙ same_imps in
    let same = return-injective h2 in
    subst
      (λ (r : ComparisonReport).
        (text_in k r.regressions ≡ regressed (task_under store k) baseline later)
        × (text_in k r.improvements ≡ improved (task_under store k) baseline later)
        × ((text_in k r.regressions && text_in k r.improvements) ≡ false))
      same (regs', imps', rw (regs', imps') (disjoint (task_under store k) baseline later))

not_strict :
    {A : Type 0} (e : Exception) {r : Result A} {a : A} (b : Bool)
    → (if b then raise e else r) ≡ return a
    → r ≡ return a
not_strict e true h = cc
not_strict e false h = h

-- A report lists a key as a regression just when its task succeeded in the baseline and in some later
-- run failed or is missing, as an improvement just when it failed or is missing in the baseline and
-- succeeded in some later run, and no key as both.
pub compare_runs_verdicts :
    (wall_total : List Float → Float) (baseline second : String) (rest : List String)
    (store : Store) (thresholds : Option MetricThresholds) (strict : Bool)
    (report : ComparisonReport)
    → compare_runs wall_total (baseline ∷ second ∷ rest) store thresholds strict ≡ return report
    → (k : String)
    → (text_in k report.regressions ≡ regressed (task_under store k) baseline (second ∷ rest))
      × (text_in k report.improvements ≡ improved (task_under store k) baseline (second ∷ rest))
      × ((text_in k report.regressions && text_in k report.improvements) ≡ false)
unfolding compare_runs report_on
compare_runs_verdicts wall_total baseline second rest store thresholds strict report h k =
    let (runs, (_, h1)) = then_do-return (load_runs store (baseline ∷ second ∷ rest) []) _ h in
    let (baseline_run, (_, h2)) = then_do-return (loaded (lookup baseline runs)) _ h1 in
    let (issues, (_, h3)) = then_do-return (check_all runs baseline_run (second ∷ rest)) _ h2 in
    let h4 = not_strict comparability_error (strict && any_error issues) h3 in
    report_on_verdicts wall_total store (or_default thresholds) runs issues baseline (second ∷ rest)
      report h4 k
