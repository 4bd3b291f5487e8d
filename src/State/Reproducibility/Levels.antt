-- ===== src/State/Reproducibility/Levels.antt =====
-- What a level of state/reproducibility.py says about the run that got it.
use fine_tune_harness.Base.{
  String, Bool, true, false, not, ◌&&◌, ◌||◌, ◌==◌, List, [], ◌∷◌, ◌++◌, ◌≡◌, refl, sym, ap, ◌∙◌,
  ◌⊎◌, inl, inr, arith, Bool-cases,
}
use mathlib.Core.Path.{subst}
use fine_tune_harness.Effects.{raise-return, return-injective, Result-cases, Result, return, raise}
use fine_tune_harness.State.Value.{null, dict, Fields, get_or, truthy}
use fine_tune_harness.State.Models.{RunRecord, EventRecord}
use fine_tune_harness.State.Reproducibility.{
  pass, partial, fail, Warning, member, ReproducibilityAssessment, unless, seed_known, text_known,
  missing_fields, section_of, forced, determinism_warnings, dirty_warnings, mode_warnings, grade,
  grade_in, judge_run, judge_with, assess_reproducibility,
}

-- A seed, the hashes of the data and of the configuration, and the commit.
pub record HasMetadata (run : RunRecord) : Type 0 where
  pub seed : seed_known run.seed ≡ true
  pub dataset_hashes : truthy (dict run.dataset_hashes) ≡ true
  pub config_hash : text_known run.config_hash ≡ true
  pub git_commit : truthy (get_or "git_commit" null run.env_snapshot) ≡ true

-- The snapshot says that determinism was forced.
pub record IsForced (run : RunRecord) : Type 0 where
  pub env : Fields
  pub recorded : section_of "determinism_env" run.env_snapshot ≡ return env
  pub holds : forced env ≡ true

-- The snapshot has the digest of the container.
pub record HasDigest (run : RunRecord) : Type 0 where
  pub container : Fields
  pub recorded : section_of "container" run.env_snapshot ≡ return container
  pub digest : truthy (get_or "digest" null container) ≡ true

cons-nil : {y : String} {ys : List String} → ◌≡◌ {A = List String} (y ∷ ys) [] → ⊥
cons-nil e = cc

unless-lem :
    (b : Bool) (x : String) (rest : List String)
    → unless b x ++ rest ≡ []
    → (b ≡ true) × (rest ≡ [])
unfolding unless
unless-lem true x rest h = (refl, h)
unless-lem false x rest h = absurd (cons-nil h)

last-lem : (b : Bool) (x : String) → unless b x ≡ [] → b ≡ true
unfolding unless
last-lem true x h = refl
last-lem false x h = cc

metadata-lem : (run : RunRecord) → missing_fields run ≡ [] → HasMetadata run
unfolding missing_fields
metadata-lem run h =
    let commit : Bool = truthy (get_or "git_commit" null run.env_snapshot) in
    let hash : Bool = text_known run.config_hash in
    let hashes : Bool = truthy (dict run.dataset_hashes) in
    let last = unless commit "env_snapshot.git_commit" in
    let (seed, h1) =
      unless-lem (seed_known run.seed) "seed"
        (unless hashes "dataset_hashes" ++ (unless hash "config_hash" ++ last)) h in
    let (data_hashed, h2) =
      unless-lem hashes "dataset_hashes" (unless hash "config_hash" ++ last) h1 in
    let (config_hashed, h3) = unless-lem hash "config_hash" last h2 in
    record {
      seed = seed;
      dataset_hashes = data_hashed;
      config_hash = config_hashed;
      git_commit = last-lem commit "env_snapshot.git_commit" h3;
    }

-- The list names each of the four exactly when the run lacks it.
pub record Named (run : RunRecord) (fields : List String) : Type 0 where
  pub seed : member "seed" fields ≡ not (seed_known run.seed)
  pub dataset_hashes : member "dataset_hashes" fields ≡ not (truthy (dict run.dataset_hashes))
  pub config_hash : member "config_hash" fields ≡ not (text_known run.config_hash)
  pub git_commit :
      member "env_snapshot.git_commit" fields
      ≡ not (truthy (get_or "git_commit" null run.env_snapshot))

-- The three verdicts: FAIL for a run that lacks some of the metadata, which it names; PARTIAL for one that
-- has them, but not both forced determinism and the digest of the container; PASS for one with all.
pub record Failed (run : RunRecord) (a : ReproducibilityAssessment) : Type 0 where
  pub level : a.level ≡ fail
  pub replayable : a.replayable ≡ false
  pub named : Named run a.missing_fields
  pub lacks : HasMetadata run → ⊥

pub record Replayable (run : RunRecord) (a : ReproducibilityAssessment) : Type 0 where
  pub level : a.level ≡ partial
  pub replayable : a.replayable ≡ true
  pub metadata : HasMetadata run
  pub lacks : IsForced run → HasDigest run → ⊥

pub record Passed (run : RunRecord) (a : ReproducibilityAssessment) : Type 0 where
  pub level : a.level ≡ pass
  pub replayable : a.replayable ≡ true
  pub metadata : HasMetadata run
  pub forced_determinism : IsForced run
  pub pinned : HasDigest run

named-lem :
    (a b c d : Bool) (x : String)
    → member x (
        unless a "seed"
        ++ (unless b "dataset_hashes"
            ++ (unless c "config_hash" ++ unless d "env_snapshot.git_commit")))
      ≡ ((not a && x == "seed")
          || ((not b && x == "dataset_hashes")
              || ((not c && x == "config_hash") || (not d && x == "env_snapshot.git_commit"))))
unfolding member unless
named-lem a b c d x = ground arith

missing_fields-Named : (run : RunRecord) → Named run (missing_fields run)
unfolding missing_fields
missing_fields-Named run =
    let seed : Bool = seed_known run.seed in
    let hashes : Bool = truthy (dict run.dataset_hashes) in
    let hash : Bool = text_known run.config_hash in
    let commit : Bool = truthy (get_or "git_commit" null run.env_snapshot) in
    record {
      seed = named-lem seed hashes hash commit "seed" ∙ ground arith;
      dataset_hashes = named-lem seed hashes hash commit "dataset_hashes" ∙ ground arith;
      config_hash = named-lem seed hashes hash commit "config_hash" ∙ ground arith;
      git_commit = named-lem seed hashes hash commit "env_snapshot.git_commit" ∙ ground arith;
    }

complete-lem : (run : RunRecord) → HasMetadata run → missing_fields run ≡ []
unfolding missing_fields unless
complete-lem run has =
    rw (has.seed, has.dataset_hashes, has.config_hash, has.git_commit, missing_fields) refl

true-false : ◌≡◌ {A = Bool} true false → ⊥
true-false e = cc

not_forced :
    (run : RunRecord) (env : Fields)
    → section_of "determinism_env" run.env_snapshot ≡ return env
    → forced env ≡ false
    → IsForced run
    → ⊥
not_forced run env recorded free is_forced =
    let same : is_forced.env ≡ env = return-injective (sym is_forced.recorded ∙ recorded) in
    true-false (sym is_forced.holds ∙ (ap forced same ∙ free))

not_pinned :
    (run : RunRecord) (container : Fields)
    → section_of "container" run.env_snapshot ≡ return container
    → truthy (get_or "digest" null container) ≡ false
    → HasDigest run
    → ⊥
not_pinned run container recorded absent pinned =
    let same : pinned.container ≡ container = return-injective (sym pinned.recorded ∙ recorded) in
    true-false (sym pinned.digest ∙ (ap (λ c. truthy (get_or "digest" null c)) same ∙ absent))

abbrev pub Verdict : RunRecord → ReproducibilityAssessment → Type 0
Verdict run a = Failed run a ⊎ (Replayable run a ⊎ Passed run a)

module _ (run : RunRecord) (env : Fields)
    (recorded : section_of "determinism_env" run.env_snapshot ≡ return env)
    (metadata : HasMetadata run) where
  grade-lem :
      (warnings : List Warning) (container : Fields)
      → section_of "container" run.env_snapshot ≡ return container
      → Verdict run (grade (forced env) warnings container)
  unfolding grade
  grade-lem warnings container found = elim (Bool-cases (truthy (get_or "digest" null container))) [
    | inr absent ↦ rw absent (
        inr (
          inl (record {
            level = refl;
            replayable = refl;
            metadata = metadata;
            lacks = λ _ pinned. not_pinned run container found absent pinned;
          })))
    | inl digest ↦ elim (Bool-cases (forced env)) [
      | inr free ↦
          rw (digest, free)
            (inr (
              inl (record {
                level = refl;
                replayable = refl;
                metadata = metadata;
                lacks = λ is_forced _. not_forced run env recorded free is_forced;
              })))
      | inl holds ↦
          rw (digest, holds)
            (inr (
              inr (record {
                level = refl;
                replayable = refl;
                metadata = metadata;
                forced_determinism = record { env = env; recorded = recorded; holds = holds };
                pinned = record { container = container; recorded = found; digest = digest };
              })))
    ]
  ]

  container-lem :
      (warnings : List Warning) (r : Result Fields) (a : ReproducibilityAssessment)
      → section_of "container" run.env_snapshot ≡ r
      → grade_in (forced env) warnings r ≡ return a
      → Verdict run a
  unfolding grade_in
  container-lem warnings (raise e) a found h = absurd (raise-return h)
  container-lem warnings (return container) a found h =
      subst (Verdict run) (return-injective h) (grade-lem warnings container found)

module _ (run : RunRecord) (events : List EventRecord) (env : Fields)
    (recorded : section_of "determinism_env" run.env_snapshot ≡ return env)
    (a : ReproducibilityAssessment) where
  missing-lem :
      (warnings : List Warning) (missing : List String)
      → missing_fields run ≡ missing
      → judge_run run (forced env) warnings missing ≡ return a
      → Verdict run a
  unfolding judge_run
  missing-lem warnings (m ∷ ms) found h = subst (Verdict run) (return-injective h) (
      inl (record {
        level = refl;
        replayable = refl;
        named = rw (← found) (missing_fields-Named run);
        lacks = λ has. cons-nil (sym found ∙ complete-lem run has);
      }))
  missing-lem warnings [] found h =
      container-lem run env recorded (metadata-lem run found) warnings
        (section_of "container" run.env_snapshot) a refl h

  judge-lem :
      (dirty : Result (List Warning)) → judge_with run events env dirty ≡ return a → Verdict run a
  unfolding judge_with
  judge-lem (return dirty) h =
      missing-lem (mode_warnings events ++ (determinism_warnings env ++ dirty)) (missing_fields run)
        refl h
  judge-lem (raise e) h = absurd (raise-return h)

-- An assessment is FAIL exactly for a run that lacks its seed, the hash of its configuration or of its
-- data, or its commit, is then not replayable, and its missing fields name each of the four that is
-- lacking and none that is there; it is PASS exactly for a run that has the four, forced determinism
-- and the digest of the container, and PARTIAL for the other runs that have the four.
pub assess_reproducibility_sound :
    (run : RunRecord) (events : List EventRecord) (a : ReproducibilityAssessment)
    → assess_reproducibility run events ≡ return a
    → Verdict run a
unfolding assess_reproducibility
assess_reproducibility_sound run events a h =
    elim (Result-cases (section_of "determinism_env" run.env_snapshot)) [
      | inl (e, failed) ↦ absurd (raise-return (rw (failed, assess_reproducibility) at h))
      | inr (env, found) ↦
          judge-lem run events env found a (dirty_warnings run.env_snapshot)
            (rw (found, assess_reproducibility) at h)
    ]
