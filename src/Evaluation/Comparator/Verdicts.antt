-- ===== src/Evaluation/Comparator/Verdicts.antt =====
-- evaluation/comparator.py: which tasks a report calls regressions and improvements.
pub mod Tables
use fine_tune_harness.Base.{
  ℕ, String, Bool, true, false, not, ◌&&◌, ◌||◌, Option, none, some, List, [], ◌∷◌, ◌++◌,
  if◌then◌else◌, ◌==◌, ◌≡◌, refl, ap, sym, ◌∙◌, arith, eq_iff, Bool-cases, inl, inr, Dict, lookup,
  has_key,
}
use fine_tune_harness.Effects.{Result, return, raise, return-injective}
use fine_tune_harness.State.Value.{Fields, Float}
use fine_tune_harness.State.Models.{TaskRecord}
use fine_tune_harness.State.Memory.{Store, list_tasks}
use fine_tune_harness.Evaluation.Validator.{text_in}
use fine_tune_harness.Evaluation.Comparator.{MetricThresholds, numeric_metrics}
use fine_tune_harness.Evaluation.Comparator.Tasks.{
  then_do, result_of, exclude, later_deltas, wall_seconds_by_run, status_of, any_in, ok_statuses,
  fail_statuses, Outcome, outcome_of, compare_task,
}
use fine_tune_harness.Evaluation.Comparator.Reports.{
  append_if, add_outcome, compare_tasks, Progress, find_task,
}

pub then_do-return :
    {A B : Type 0} (m : Result A) (f : A → Result B) {b : B}
    → then_do m f ≡ return b
    → (a : A) × ((m ≡ return a) × (f a ≡ return b))
unfolding then_do
then_do-return (raise e) f h = cc
then_do-return (return a) f h = (a, (refl, h))

-- The baseline succeeded, and some later run failed or has no such task.
unfoldable pub regressed :
    (String → Option TaskRecord) → (baseline : String) (later : List String) → Bool
unfolding text_in status_of any_in
regressed table baseline later =
    text_in (status_of (table baseline)) ok_statuses && any_in fail_statuses table later

unfoldable pub improved :
    (String → Option TaskRecord) → (baseline : String) (later : List String) → Bool
unfolding text_in status_of any_in
improved table baseline later =
    text_in (status_of (table baseline)) fail_statuses && any_in ok_statuses table later

pub compare_task_verdict :
    (thresholds : MetricThresholds) (baseline : String) (later : List String)
    (table : String → Option TaskRecord) (excluded : Dict (List String)) (k : String) (o : Outcome)
    → compare_task thresholds baseline later table excluded k ≡ return o
    → (o.status_regression ≡ regressed table baseline later)
      × (o.status_improvement ≡ improved table baseline later)
unfolding compare_task regressed improved outcome_of
compare_task_verdict thresholds baseline later table excluded k o h =
    let results : String → Option Fields = λ r. result_of (table r) in
    let (ex, (_, h1)) =
      then_do-return
        (exclude k results (baseline ∷ later) (record { reasons = []; tasks = excluded })) _ h in
    let (metrics, (_, h2)) =
      then_do-return
        (if has_key baseline ex.reasons then return [] else numeric_metrics (results baseline)) _
        h1 in
    let (acc, (_, h3)) =
      then_do-return
        (later_deltas thresholds baseline results ex.reasons metrics later
          (record { deltas = []; regressions = [] }))
        _ h2 in
    let (walls, (_, h4)) =
      then_do-return (wall_seconds_by_run results (baseline ∷ later) []) _ h3 in
    let same = return-injective h4 in
    (
      sym (ap (λ (p : Outcome). p.status_regression) same),
      sym (ap (λ (p : Outcome). p.status_improvement) same),
    )

text_in-append :
    (k : String) (js ks : List String) → text_in k (js ++ ks) ≡ (text_in k js || text_in k ks)
unfolding text_in
text_in-append k [] ks = refl
text_in-append k (j ∷ js) ks = ground (arith, text_in-append k js ks)

text_in-append_if :
    (b : Bool) (k j : String) (ks : List String)
    → text_in k (append_if b j ks) ≡ (text_in k ks || (k == j && b))
unfolding text_in append_if
text_in-append_if b k j ks = ground (arith, text_in-append k ks (j ∷ []))

-- The loop over the keys: a key is added by its own verdict.
pub compare_tasks_verdicts :
    (thresholds : MetricThresholds) (baseline : String) (later : List String)
    (tables : Dict (Dict TaskRecord)) (ks : List String) (p q : Progress)
    → compare_tasks thresholds baseline later tables ks p ≡ return q
    → (k : String)
    → (text_in k q.regressions ≡ (
        text_in k p.regressions || (text_in k ks && regressed (find_task tables k) baseline later)))
      × (text_in k q.improvements ≡ (
          text_in k p.improvements
          || (text_in k ks && improved (find_task tables k) baseline later)))
unfolding compare_tasks text_in
compare_tasks_verdicts thresholds baseline later tables [] p q h k =
    let same = return-injective h in
    (
      ap (λ (r : Progress). text_in k r.regressions) (sym same) ∙ ground arith,
      ap (λ (r : Progress). text_in k r.improvements) (sym same) ∙ ground arith,
    )
compare_tasks_verdicts thresholds baseline later tables (j ∷ ks) p q h k =
    let (o, (one, rest)) =
      then_do-return
        (compare_task thresholds baseline later (find_task tables j) p.excluded_tasks j) _ h in
    let (is_reg, is_imp) =
      compare_task_verdict thresholds baseline later (find_task tables j) p.excluded_tasks j o
        one in
    let (regs, imps) =
      compare_tasks_verdicts thresholds baseline later tables ks (add_outcome j o p) q rest k in
    (
      regs
          ∙ step_verdict o.status_regression p.regressions
              (λ i. regressed (find_task tables i) baseline later) is_reg,
      imps
          ∙ step_verdict o.status_improvement p.improvements
              (λ i. improved (find_task tables i) baseline later) is_imp,
    )
  where
    step_verdict :
        (b : Bool) (found : List String) (verdict : String → Bool)
        → b ≡ verdict j
        → (text_in k (append_if b j found) || (text_in k ks && verdict k))
          ≡ (text_in k found || ((k == j || text_in k ks) && verdict k))
    step_verdict b found verdict e = ground (arith, text_in-append_if b k j found, eq_iff k j)
