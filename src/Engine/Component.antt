-- ===== src/Engine/Component.antt =====
-- crates/sdk/src/traits/component.rs: a component is code outside the engine. What it does in a callback is the
-- tree of what it asks of its context (crates/sdk/src/context/mod.rs), until it returns or fails.
use rintawa.Prelude.{ℕ, String, List, Option, Result}
use rintawa.Runtime.Effect.{ContractKey, ServiceCallError}
use rintawa.Engine.Secrets.{SecretAccessError}

-- The errors of crates/sdk/src/errors/mod.rs that the routing tells apart: a message of the request or of the
-- response that is too large, and all others.
pub data ExtensionError : Type 0 where
  service_request_too_large service_response_too_large other_failure : ExtensionError

pub data Behaviour : Type 0 where
  returns : List ℕ → Behaviour
  fails : ExtensionError → Behaviour
  read_secret : String → (Result SecretAccessError String → Behaviour) → Behaviour
  call_service : ContractKey → List ℕ → (Result ServiceCallError (List ℕ) → Behaviour) → Behaviour
  list_service_providers : ContractKey → (Result ServiceCallError (List ℕ) → Behaviour) → Behaviour
  call_service_provider : ℕ → List ℕ → (Result ServiceCallError (List ℕ) → Behaviour) → Behaviour

pub record Component : Type 0 where
  pub service_message_limit : Option ℕ
  pub handle_service : ContractKey → List ℕ → Behaviour
