-- ===== src/Validation/Configs/Soundness.antt =====
-- What a configuration that passes the checks of validation/configs.py has.
use fine_tune_harness.Base.{
  Bool, true, false, not, ◌&&◌, ◌||◌, ◌≡◌, ◌≢◌, refl, ◌⊎◌, inl, inr, arith, Bool-cases,
}
use fine_tune_harness.Base.Int.{ℤ}
use fine_tune_harness.Effects.{Result, return, raise}
use fine_tune_harness.State.Value.{
  Value, null, bool, int, float, str, list, dict, Fields, end, field, get_or, has, truthy, is_null,
}
use fine_tune_harness.Validation.Configs.{
  guard, in_turn, is_hash_text, is_seed, all_hash_texts, validate_datasets, validate_dataset_hash,
  validate_seed, validate_project, validate_executor, validate_artifacts, validate_reproducibility,
  validate_run_config,
}

pub guard-lem :
    (b : Bool) (r : Result (Unit {0})) → guard b r ≡ return tt → (b ≡ true) × (r ≡ return tt)
unfolding guard
guard-lem true r h = (refl, h)
guard-lem false r h = ground arith

pub in_turn-lem :
    (r s : Result (Unit {0})) → in_turn r s ≡ return tt → (r ≡ return tt) × (s ≡ return tt)
unfolding in_turn
in_turn-lem (return _) s h = (refl, h)
in_turn-lem (raise e) s h = ground arith

and-lem : (a b c : Bool) → (a && (b && c)) ≡ true → (a ≡ true) × ((b ≡ true) × (c ≡ true))
and-lem true true true h = (refl, (refl, refl))
and-lem true true false h = ground arith
and-lem true false c h = ground arith
and-lem false b c h = ground arith

seed-lem : (v : Value) → is_seed v ≡ true → (n : ℤ) × (v ≡ int n)
unfolding is_seed
seed-lem (int n) h = (n, refl)
seed-lem null h = ground arith
seed-lem (bool b) h = ground arith
seed-lem (float f) h = ground arith
seed-lem (str s) h = ground arith
seed-lem (list xs) h = ground arith
seed-lem (dict d) h = ground arith

-- A single hash that is a text, or hashes by split, at least one, all of them texts.
abbrev pub HasDatasetHash : Fields → Type 0
HasDatasetHash config =
    (is_hash_text (get_or "dataset_hash" null config) ≡ true)
    ⊎ ((get_or "dataset_hash" null config ≡ null)
        × ((hashes : Fields) × ((get_or "datasets" null config ≡ dict hashes)
              × ((hashes ≢ end) × (all_hash_texts hashes ≡ true)))))

datasets-lem :
    (v : Value)
    → truthy v ≡ true
    → validate_datasets v ≡ return tt
    → (hashes : Fields) × ((v ≡ dict hashes) × ((hashes ≢ end) × (all_hash_texts hashes ≡ true)))
unfolding validate_datasets truthy
datasets-lem (dict (field k v rest)) t h = (
  field k v rest,
  (refl, ((λ e. cc), (guard-lem (all_hash_texts (field k v rest)) (return tt) h).0)),
)
datasets-lem (dict end) t h = ground arith
datasets-lem null t h = ground arith
datasets-lem (bool b) t h = ground arith
datasets-lem (int n) t h = ground arith
datasets-lem (float f) t h = ground arith
datasets-lem (str s) t h = ground arith
datasets-lem (list xs) t h = ground arith

null-lem : (v : Value) → is_null v ≡ true → v ≡ null
unfolding is_null
null-lem null h = refl
null-lem (bool b) h = ground arith
null-lem (int n) h = ground arith
null-lem (float f) h = ground arith
null-lem (str s) h = ground arith
null-lem (list xs) h = ground arith
null-lem (dict d) h = ground arith

given-lem : (b : Bool) → not (true && not b) ≡ true → b ≡ true
given-lem true h = refl
given-lem false h = h

hash-lem : (config : Fields) → validate_dataset_hash config ≡ return tt → HasDatasetHash config
unfolding validate_dataset_hash
hash-lem config h =
    let dataset_hash = get_or "dataset_hash" null config in
    let datasets = get_or "datasets" null config in
    let (some_given, rest) =
      guard-lem (not (is_null dataset_hash && not (truthy datasets)))
        (guard (is_null dataset_hash || is_hash_text dataset_hash) (validate_datasets datasets))
        h in
    let (hash_ok, given) =
      guard-lem (is_null dataset_hash || is_hash_text dataset_hash) (validate_datasets datasets)
        rest in
    elim (Bool-cases (is_null dataset_hash)) [
      | inl absent ↦ inr (
        null-lem dataset_hash absent,
        datasets-lem datasets (given-lem _ (rw absent at some_given)) given,
      )
      | inr there ↦ inl (rw there at hash_ok)
    ]

-- A configuration that passes is a dictionary with the three sections, an int (and no bool) as seed
-- and the hash of its data, which is what the creation of the run reads of it.
pub validate_run_config_sound :
    (config : Value)
    → validate_run_config config ≡ return tt
    → (fields : Fields) × ((config ≡ dict fields)
        × ((((has "project" fields ≡ true)
              × ((has "executor" fields ≡ true) × (has "artifacts" fields ≡ true)))
            × (((seed : ℤ) × (get_or "seed" null fields ≡ int seed)) × HasDatasetHash fields))))
unfolding validate_run_config validate_reproducibility validate_seed
validate_run_config_sound (dict fields) h =
    let has_all = has "project" fields && (has "executor" fields && has "artifacts" fields) in
    let artifacts = validate_artifacts (get_or "artifacts" null fields) in
    let executor = validate_executor (get_or "executor" null fields) in
    let project = validate_project (get_or "project" null fields) in
    let reproducible = validate_reproducibility fields in
    let (keys, checks) =
      guard-lem has_all (in_turn project (in_turn executor (in_turn artifacts reproducible))) h in
    let (_, others) =
      in_turn-lem project (in_turn executor (in_turn artifacts reproducible)) checks in
    let (_, rest) = in_turn-lem executor (in_turn artifacts reproducible) others in
    let (_, last) = in_turn-lem artifacts reproducible rest in
    let (seeded, hashed) = in_turn-lem (validate_seed fields) (validate_dataset_hash fields) last in
    (
      fields,
      (
        refl,
        (
          and-lem _ _ _ keys,
          (
            seed-lem (get_or "seed" null fields)
                (guard-lem (is_seed (get_or "seed" null fields)) (return tt) seeded).0,
            hash-lem fields hashed,
          ),
        ),
      ),
    )
validate_run_config_sound null h = ground arith
validate_run_config_sound (bool b) h = ground arith
validate_run_config_sound (int n) h = ground arith
validate_run_config_sound (float f) h = ground arith
validate_run_config_sound (str s) h = ground arith
validate_run_config_sound (list xs) h = ground arith
