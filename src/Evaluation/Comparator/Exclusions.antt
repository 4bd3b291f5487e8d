-- ===== src/Evaluation/Comparator/Exclusions.antt =====
-- evaluation/comparator.py: a result that validation rejects has no part in the metrics.
use fine_tune_harness.Base.{
  String, true, false, ◌||◌, Option, none, some, List, [], ◌∷◌, if◌then◌else◌, ◌==◌, ◌≡◌, refl, ap,
  sym, ◌∙◌, ◌⊎◌, arith, eq_iff, Bool-cases, Option-cases, inl, inr, Dict, lookup, insert, has_key,
  lookup-insert,
}
use fine_tune_harness.Effects.{return, return-injective}
use fine_tune_harness.State.Value.{Fields, Float}
use fine_tune_harness.State.Models.{TaskRecord}
use fine_tune_harness.Evaluation.Validator.{text_in}
use fine_tune_harness.Evaluation.Floats.{subtract}
use fine_tune_harness.Evaluation.Comparator.{
  MetricThresholds, is_metric_regression, numeric_metrics, Reason, result_is_valid_for_comparison,
}
use fine_tune_harness.Evaluation.Comparator.Tasks.{
  then_do, result_of, Excluded, note_reason, exclude, Deltas, or_empty, put_delta, note_delta,
  add_deltas, later_deltas, wall_seconds_by_run, Outcome, outcome_of, compare_task,
}
use fine_tune_harness.Evaluation.Comparator.Verdicts.{then_do-return}

-- The run has a result, and validation gives a reason against it.
pub record IsRejected (result : Option Fields) : Type 0 where
  pub fields : Fields
  pub reason : Reason
  pub has_result : result ≡ some fields
  pub has_reason : result_is_valid_for_comparison result ≡ return (some reason)

-- `d.get(metric_key, {}).get(run_id)`
unfoldable pub delta_at : (metric_key run_id : String) → Dict (Dict Float) → Option Float
unfolding or_empty
delta_at metric_key run_id d = lookup run_id (or_empty (lookup metric_key d))

has_key-insert :
    {A : Type 0} (k j : String) (v : A) (d : Dict A)
    → has_key j (insert k v d) ≡ (k == j || has_key j d)
unfolding has_key
has_key-insert k j v d = ground (arith, lookup-insert k j v d)

note_reason_keeps :
    (k q : String) (result : Option Fields) (verdict : Option Reason) (ex : Excluded) (r : String)
    → has_key r ex.reasons ≡ true
    → has_key r (note_reason k q result verdict ex).reasons ≡ true
unfolding note_reason
note_reason_keeps k q none verdict ex r h = h
note_reason_keeps k q (some result) none ex r h = h
note_reason_keeps k q (some result) (some reason) ex r h =
    ground (arith, has_key-insert q r reason ex.reasons)

note_reason_rejected :
    (k q : String) (result : Option Fields) (verdict : Option Reason) (ex : Excluded)
    → IsRejected result
    → result_is_valid_for_comparison result ≡ return verdict
    → has_key q (note_reason k q result verdict ex).reasons ≡ true
unfolding note_reason
note_reason_rejected k q result verdict ex h judged =
    let e : some h.reason ≡ verdict = return-injective (sym h.has_reason ∙ judged) in
    rw (h.has_result, ← e) (ground (arith, has_key-insert q q h.reason ex.reasons, eq_iff q q))

exclude_keeps :
    (k : String) (results : String → Option Fields) (rs : List String) (ex ex' : Excluded)
    → exclude k results rs ex ≡ return ex'
    → (r : String) → has_key r ex.reasons ≡ true
    → has_key r ex'.reasons ≡ true
unfolding exclude
exclude_keeps k results [] ex ex' h r known =
    ap (λ (e : Excluded). has_key r e.reasons) (sym (return-injective h)) ∙ known
exclude_keeps k results (q ∷ rs) ex ex' h r known =
    let (verdict, (_, later)) = then_do-return (result_is_valid_for_comparison (results q)) _ h in
    exclude_keeps k results rs (note_reason k q (results q) verdict ex) ex' later r
      (note_reason_keeps k q (results q) verdict ex r known)

exclude_rejected :
    (k : String) (results : String → Option Fields) (rs : List String) (ex ex' : Excluded)
    → exclude k results rs ex ≡ return ex'
    → (r : String) → text_in r rs ≡ true
    → IsRejected (results r)
    → has_key r ex'.reasons ≡ true
unfolding exclude text_in note_reason
exclude_rejected k results [] ex ex' h r stands rejected = cc
exclude_rejected k results (q ∷ rs) ex ex' h r stands rejected =
    let (verdict, (judged, later)) =
      then_do-return (result_is_valid_for_comparison (results q)) _ h in
    elim (Bool-cases (r == q)) [
      | inl here ↦
          let e : r ≡ q = (eq_iff r q).0 here in
          exclude_keeps k results rs (note_reason k q (results q) verdict ex) ex' later r
            (rw e (note_reason_rejected k q (results q) verdict ex (rw (← e) rejected) judged))
      | inr other ↦
          exclude_rejected k results rs (note_reason k q (results q) verdict ex) ex' later r
            (rw (other, text_in) at stands) rejected
    ]

put_delta_other :
    (m j q r : String) (v : Float) (d : Dict (Dict Float))
    → (q == r) ≡ false
    → delta_at m r (put_delta j q v d) ≡ delta_at m r d
unfolding put_delta delta_at or_empty
put_delta_other m j q r v d other = ground (
  arith,
  lookup-insert j m (insert q v (or_empty (lookup j d))) d,
  lookup-insert q r v (or_empty (lookup j d)),
  eq_iff j m,
)

note_delta_other :
    (thresholds : MetricThresholds) (m j q r : String) (v : Float) (acc : Deltas)
    → (q == r) ≡ false
    → (delta_at m r (note_delta thresholds j q v acc).deltas ≡ delta_at m r acc.deltas)
      × (delta_at m r (note_delta thresholds j q v acc).regressions ≡ delta_at m r acc.regressions)
unfolding note_delta
note_delta_other thresholds m j q r v acc other =
    elim (Bool-cases (is_metric_regression j v thresholds)) [
      | inl bad ↦
          rw (bad, note_delta)
            (
              put_delta_other m j q r v acc.deltas other,
              put_delta_other m j q r v acc.regressions other,
            )
      | inr fine ↦ rw (fine, note_delta) (put_delta_other m j q r v acc.deltas other, refl)
    ]

add_deltas_other :
    (thresholds : MetricThresholds) (m q r : String) (base run : Dict Float) (acc : Deltas)
    → (q == r) ≡ false
    → (delta_at m r (add_deltas thresholds q base run acc).deltas ≡ delta_at m r acc.deltas)
      × (delta_at m r (add_deltas thresholds q base run acc).regressions
          ≡ delta_at m r acc.regressions)
unfolding add_deltas note_delta
add_deltas_other thresholds m q r [] run acc other = (refl, refl)
add_deltas_other thresholds m q r ((j, b) ∷ base) run acc other =
    elim (Bool-cases (j == "wall_seconds")) [
      | inl wall ↦ rw (wall, add_deltas) (add_deltas_other thresholds m q r base run acc other)
      | inr metric ↦ elim (Option-cases (lookup j run)) [
        | inl missing ↦
            rw (metric, missing, add_deltas) (add_deltas_other thresholds m q r base run acc other)
        | inr (v, found) ↦
            let (one, one') = note_delta_other thresholds m j q r (subtract v b) acc other in
            let (rest, rest') =
              add_deltas_other thresholds m q r base run
                (note_delta thresholds j q (subtract v b) acc) other in
            rw (metric, found, add_deltas) (rest ∙ one, rest' ∙ one')
      ]
    ]

-- The loop passes over a run that is left out, and over every run if the baseline is.
later_deltas_excluded :
    (thresholds : MetricThresholds) (baseline : String) (results : String → Option Fields)
    (left_out : Dict Reason) (metrics : Dict Float) (rs : List String) (acc acc' : Deltas)
    → later_deltas thresholds baseline results left_out metrics rs acc ≡ return acc'
    → (r : String) → (has_key r left_out || has_key baseline left_out) ≡ true
    → (m : String)
    → (delta_at m r acc'.deltas ≡ delta_at m r acc.deltas)
      × (delta_at m r acc'.regressions ≡ delta_at m r acc.regressions)
unfolding later_deltas
later_deltas_excluded thresholds baseline results left_out metrics [] acc acc' h r out m =
    let same = return-injective h in
    (
      ap (λ (a : Deltas). delta_at m r a.deltas) (sym same),
      ap (λ (a : Deltas). delta_at m r a.regressions) (sym same),
    )
later_deltas_excluded thresholds baseline results left_out metrics (q ∷ rs) acc acc' h r out m =
    elim (Bool-cases (has_key q left_out || has_key baseline left_out)) [
      | inl passed ↦
          later_deltas_excluded thresholds baseline results left_out metrics rs acc acc'
            (rw (passed, later_deltas, then_do) at h) r out m
      | inr compared ↦
          let (mid, (made, rest)) =
            then_do-return
              (then_do (numeric_metrics (results q))
                (λ run. return (add_deltas thresholds q metrics run acc)))
              _ (rw (compared, later_deltas) at h) in
          let (run, (_, e)) = then_do-return (numeric_metrics (results q)) _ made in
          let (one, one') =
            add_deltas_other thresholds m q r metrics run acc (ground (arith, eq_iff q r)) in
          let (more, more') =
            later_deltas_excluded thresholds baseline results left_out metrics rs mid acc' rest r
              out m in
          (
            more ∙ ap (λ (a : Deltas). delta_at m r a.deltas) (sym (return-injective e)) ∙ one,
            more'
                ∙ ap (λ (a : Deltas). delta_at m r a.regressions) (sym (return-injective e))
                ∙ one',
          )
    ]

left_out :
    (k : String) (results : String → Option Fields) (baseline : String) (later : List String)
    (ex ex' : Excluded)
    → exclude k results (baseline ∷ later) ex ≡ return ex'
    → (r : String) → text_in r (baseline ∷ later) ≡ true
    → IsRejected (results r) ⊎ IsRejected (results baseline)
    → (has_key r ex'.reasons || has_key baseline ex'.reasons) ≡ true
unfolding text_in
left_out k results baseline later ex ex' h r stands (inl bad) =
    ground (arith, exclude_rejected k results (baseline ∷ later) ex ex' h r stands bad)
left_out k results baseline later ex ex' h r stands (inr bad) = ground (
  arith,
  exclude_rejected k results (baseline ∷ later) ex ex' h baseline
      (ground (arith, eq_iff baseline baseline)) bad,
)

-- A run whose result validation rejects, and every run once it rejects the baseline's, has no delta
-- under any metric of the comparison of the task, and so no metric regression.
pub compare_task_rejected :
    (thresholds : MetricThresholds) (baseline : String) (later : List String)
    (table : String → Option TaskRecord) (excluded : Dict (List String)) (k : String) (o : Outcome)
    → compare_task thresholds baseline later table excluded k ≡ return o
    → (r : String) → text_in r (baseline ∷ later) ≡ true
    → IsRejected (result_of (table r)) ⊎ IsRejected (result_of (table baseline))
    → (m : String)
    → (delta_at m r o.comparison.metric_deltas ≡ none)
      × (delta_at m r o.comparison.metric_regressions ≡ none)
unfolding compare_task outcome_of delta_at lookup
compare_task_rejected thresholds baseline later table excluded k o h r stands rejected m =
    let results : String → Option Fields = λ r. result_of (table r) in
    let (ex, (excludes, h1)) =
      then_do-return
        (exclude k results (baseline ∷ later) (record { reasons = []; tasks = excluded })) _ h in
    let (metrics, (_, h2)) =
      then_do-return
        (if has_key baseline ex.reasons then return [] else numeric_metrics (results baseline)) _
        h1 in
    let (acc, (gathers, h3)) =
      then_do-return
        (later_deltas thresholds baseline results ex.reasons metrics later
          (record { deltas = []; regressions = [] }))
        _ h2 in
    let (walls, (_, h4)) =
      then_do-return (wall_seconds_by_run results (baseline ∷ later) []) _ h3 in
    let same = return-injective h4 in
    let out =
      left_out k results baseline later (record { reasons = []; tasks = excluded }) ex excludes r
        stands rejected in
    let (no_delta, no_regression) =
      later_deltas_excluded thresholds baseline results ex.reasons metrics later
        (record { deltas = []; regressions = [] }) acc gathers r out m in
    (
      ap (λ (p : Outcome). delta_at m r p.comparison.metric_deltas) (sym same) ∙ no_delta,
      ap (λ (p : Outcome). delta_at m r p.comparison.metric_regressions) (sym same) ∙ no_regression,
    )
