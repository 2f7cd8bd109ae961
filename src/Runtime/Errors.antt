-- ===== src/Runtime/Errors.antt =====
-- crates/world-runtime/src/error.rs: the errors of Systems and of the world runtime.
use rintawa.Prelude.{ℕ, String, Result}
use rintawa.World.Ids.{SchemaKey}
use rintawa.World.Errors.{WorldError}
use rintawa.Storage.Errors.{StorageError}

pub data WorldReadError : Type 0 where
  storage : StorageError → WorldReadError

pub data SystemError : Type 0 where
  read : WorldReadError → SystemError
  rejected : String → SystemError
  failed : String → SystemError

pub data WorldRuntimeError : Type 0 where
  world : WorldError → WorldRuntimeError
  storage : StorageError → WorldRuntimeError
  invalid_queue_capacity : ℕ → ℕ → WorldRuntimeError
  duplicate_system : SchemaKey → WorldRuntimeError
  system_unavailable : SchemaKey → WorldRuntimeError
  queue_full : WorldRuntimeError
  runtime_stopped : WorldRuntimeError
  worker_stopped : WorldRuntimeError
  worker_panicked : WorldRuntimeError
  system_failed : SchemaKey → SystemError → WorldRuntimeError
  system_panicked : SchemaKey → WorldRuntimeError
  authority_mutation_denied : SchemaKey → WorldRuntimeError
  worker_spawn : WorldRuntimeError

abbrev pub WorldRuntimeResult : Type 0 → Type 0
WorldRuntimeResult A = Result WorldRuntimeError A
