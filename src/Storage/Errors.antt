-- ===== src/Storage/Errors.antt =====
-- crates/storage/src/error.rs: the errors of world storage that these modules return. Messages stay out,
-- except where the code passes a label on.
use rintawa.Prelude.{ℕ, String, Result}
use rintawa.World.Ids.{EffectJobId}
use rintawa.World.Errors.{WorldError}

-- `sqlite` is a statement that the engine refuses, with the table whose constraint it breaks.
pub data StorageError : Type 0 where
  sqlite : String → StorageError
  json : StorageError
  world : WorldError → StorageError
  uninitialized : StorageError
  unsupported_storage_schema : ℕ → ℕ → StorageError
  unsupported_world_format : ℕ → ℕ → StorageError
  unsupported_mutation_format : ℕ → ℕ → StorageError
  corrupt_data : String → StorageError
  index_out_of_range : String → StorageError
  effect_job_not_found : EffectJobId → StorageError
  invalid_effect_lease : StorageError
  effect_job_claim_lost : EffectJobId → StorageError
  effect_attempt_overflow : EffectJobId → StorageError
  effect_job_terminal : EffectJobId → StorageError
  effect_error_too_large : ℕ → ℕ → StorageError

abbrev pub StorageResult : Type 0 → Type 0
StorageResult A = Result StorageError A
