-- ===== src/State/Manifest.antt =====
-- state/reproducibility.py: the manifest of a run that export_manifest writes.
use fine_tune_harness.Base.{
  ℕ, String, Bool, true, false, ◌||◌, Option, none, some, List, [], ◌∷◌, ◌++◌, map, ◌==◌, ◌≡◌, refl,
  sym, ap, ◌∙◌, ◌⊎◌, inl, inr, eq_iff, Bool-cases, arith, Dict, lookup, insert, lookup-insert,
  lookup-insert_self,
}
use fine_tune_harness.Effects.{raise-return, return-injective, Result, return, raise}
use fine_tune_harness.State.Value.{Value, null, bool, str, dict, Fields, end, field, get_or}
use fine_tune_harness.State.Models.{TaskStatus, RunRecord, TaskRecord, EventRecord, ArtifactRecord}
use fine_tune_harness.State.Reproducibility.{
  ReproducibilityAssessment, assess_reproducibility, drain_modes,
}

pub record GitInfo : Type 0 where
  pub commit : Value
  pub branch : Value
  pub dirty : Value
  pub diff_hash : Value

pub record OutputHash : Type 0 where
  pub kind : String
  pub path : String
  pub sha256 : String
  pub task_id : Option String

pub record TaskSummary : Type 0 where
  pub task_id : String
  pub task_key : String
  pub status : TaskStatus
  pub result : Option Fields
  pub error : Option String
  pub attempt_count : ℕ

-- The sections of the manifest; a point of time stands for its text.
pub record Manifest : Type 0 where
  pub manifest_version : String
  pub run_id : String
  pub name : String
  pub created_at : ℕ
  pub finished_at : Option ℕ
  pub seed : Option Value
  pub dataset_hashes : Fields
  pub config_hash : Option String
  pub config : Fields
  pub git : GitInfo
  pub env_snapshot : Fields
  pub container : Value
  pub hardware : Value
  pub drain_modes : List String
  pub reproducibility : ReproducibilityAssessment
  pub tasks : List TaskSummary
  pub output_hashes : Dict OutputHash

unfoldable pub git_info : Fields → GitInfo
git_info env = record {
  commit = get_or "git_commit" null env;
  branch = get_or "git_branch" null env;
  dirty = get_or "git_dirty" (bool false) env;
  diff_hash = get_or "git_diff_hash" null env;
}

unfoldable pub output_hash : ArtifactRecord → OutputHash
output_hash a = record { kind = a.kind; path = a.path; sha256 = a.checksum; task_id = a.task_id }

-- The dictionary by artifact id, on top of `made`: a later artifact replaces one with its id.
unfoldable pub output_hashes : List ArtifactRecord → (made : Dict OutputHash) → Dict OutputHash
unfolding output_hash insert
output_hashes [] made = made
output_hashes (a ∷ rest) made = output_hashes rest (insert a.artifact_id (output_hash a) made)

unfoldable pub task_summary : TaskRecord → TaskSummary
task_summary t = record {
  task_id = t.task_id;
  task_key = t.task_key;
  status = t.status;
  result = t.result;
  error = t.error;
  attempt_count = t.attempt_count;
}

unfoldable pub manifest :
    RunRecord
    → List TaskRecord
    → List ArtifactRecord
    → List EventRecord
    → ReproducibilityAssessment
    → Manifest
unfolding git_info output_hashes task_summary
manifest run tasks artifacts events assessment = record {
  manifest_version = "1";
  run_id = run.run_id;
  name = run.name;
  created_at = run.created_at;
  finished_at = run.finished_at;
  seed = run.seed;
  dataset_hashes = run.dataset_hashes;
  config_hash = run.config_hash;
  config = run.config;
  git = git_info run.env_snapshot;
  env_snapshot = run.env_snapshot;
  container = get_or "container" (dict (field "engine" (str "none") end)) run.env_snapshot;
  hardware = get_or "hardware" (dict end) run.env_snapshot;
  drain_modes = drain_modes events;
  reproducibility = assessment;
  tasks = map task_summary tasks;
  output_hashes = output_hashes artifacts [];
}

-- An assessment that raises is passed on.
unfoldable pub manifest_with :
    RunRecord
    → List TaskRecord
    → List ArtifactRecord
    → List EventRecord
    → Result ReproducibilityAssessment
    → Result Manifest
unfolding manifest
manifest_with run tasks artifacts events (raise e) = raise e
manifest_with run tasks artifacts events (return assessment) =
    return (manifest run tasks artifacts events assessment)

unfoldable pub export_manifest :
    RunRecord → List TaskRecord → List ArtifactRecord → List EventRecord → Result Manifest
unfolding manifest_with
export_manifest run tasks artifacts events =
    manifest_with run tasks artifacts events (assess_reproducibility run events)

-- An artifact of the list has the id.
unfoldable pub has_id : String → List ArtifactRecord → Bool
has_id id [] = false
has_id id (a ∷ rest) = a.artifact_id == id || has_id id rest

others-lem :
    (id : String) (later : List ArtifactRecord) (made : Dict OutputHash)
    → has_id id later ≡ false
    → lookup id (output_hashes later made) ≡ lookup id made
unfolding has_id output_hashes
others-lem id [] made h = refl
others-lem id (a ∷ rest) made h = ground (
  arith,
  others-lem id rest (insert a.artifact_id (output_hash a) made),
  lookup-insert a.artifact_id id (output_hash a) made,
)

found-lem :
    (earlier later : List ArtifactRecord) (a : ArtifactRecord) (made : Dict OutputHash)
    → has_id a.artifact_id later ≡ false
    → lookup a.artifact_id (output_hashes (earlier ++ a ∷ later) made) ≡ some (output_hash a)
unfolding output_hashes
found-lem [] later a made h =
    others-lem a.artifact_id later (insert a.artifact_id (output_hash a) made) h
    ∙ lookup-insert_self a.artifact_id (output_hash a) made
found-lem (b ∷ earlier) later a made h =
    found-lem earlier later a (insert b.artifact_id (output_hash b) made) h

with-lem :
    (run : RunRecord) (tasks : List TaskRecord) (artifacts : List ArtifactRecord)
    (events : List EventRecord) (r : Result ReproducibilityAssessment) (m : Manifest)
    → manifest_with run tasks artifacts events r ≡ return m
    → output_hashes artifacts [] ≡ m.output_hashes
unfolding manifest_with manifest
with-lem run tasks artifacts events (raise e) m h = absurd (raise-return h)
with-lem run tasks artifacts events (return assessment) m h =
    ap (λ (n : Manifest). n.output_hashes) (return-injective h)

-- The entry of an artifact.
pub record Describes (a : ArtifactRecord) (h : OutputHash) : Type 0 where
  pub sha256 : h.sha256 ≡ a.checksum
  pub kind : h.kind ≡ a.kind
  pub path : h.path ≡ a.path
  pub task_id : h.task_id ≡ a.task_id

-- The last artifact of the list with the id.
abbrev pub LastWith : (id : String) → List ArtifactRecord → ArtifactRecord → Type 0
LastWith id artifacts a =
    (earlier later : List ArtifactRecord) × (artifacts ≡ earlier ++ a ∷ later)
    × (a.artifact_id ≡ id)
    × (has_id id later ≡ false)

last-lem :
    (id : String) (artifacts : List ArtifactRecord)
    → has_id id artifacts ≡ true
    → (a : ArtifactRecord) × LastWith id artifacts a
unfolding has_id
last-lem id [] h = ground arith
last-lem id (a ∷ rest) h = elim (Bool-cases (has_id id rest)) [
  | inl later ↦
      let (b, (front, back, whole, named, last)) = last-lem id rest later in
      (b, (a ∷ front, back, ap (λ xs. a ∷ xs) whole, named, last))
  | inr none_later ↦ (a, ([], rest, refl, (eq_iff a.artifact_id id).0 (ground arith), none_later))
]

abbrev pub Entry : (id : String) → List ArtifactRecord → Manifest → Type 0
Entry id artifacts m =
    ((has_id id artifacts ≡ false) × (lookup id m.output_hashes ≡ none))
    ⊎ ((a : ArtifactRecord) × LastWith id artifacts a
        × ((h : OutputHash) × (lookup id m.output_hashes ≡ some h) × Describes a h))

-- A manifest has an entry under exactly the ids of the artifacts of the run, with the checksum, the
-- kind, the path and the task of the last artifact that has the id.
pub export_manifest_hashes :
    (run : RunRecord) (tasks : List TaskRecord) (artifacts : List ArtifactRecord)
    (events : List EventRecord) (m : Manifest)
    → export_manifest run tasks artifacts events ≡ return m
    → (id : String) → Entry id artifacts m
unfolding export_manifest lookup output_hash
export_manifest_hashes run tasks artifacts events m made id =
    let made_of = with-lem run tasks artifacts events (assess_reproducibility run events) m made in
    elim (Bool-cases (has_id id artifacts)) [
      | inr absent ↦ inl (absent, ap (lookup id) (sym made_of) ∙ others-lem id artifacts [] absent)
      | inl there ↦
          let (a, (earlier, later, whole, named, last)) = last-lem id artifacts there in
          let found =
            ap (lookup id) (sym made_of ∙ ap (λ xs. output_hashes xs []) whole)
            ∙ (ap (λ k. lookup k (output_hashes (earlier ++ a ∷ later) [])) (sym named)
                ∙ found-lem earlier later a [] (ap (λ k. has_id k later) named ∙ last)) in
          inr (
            a,
            (earlier, later, whole, named, last),
            (
              output_hash a,
              found,
              record { sha256 = refl; kind = refl; path = refl; task_id = refl },
            ),
          )
    ]
