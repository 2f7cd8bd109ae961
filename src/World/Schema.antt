-- ===== src/World/Schema.antt =====
-- crates/world/src/schema.rs: schema definitions and the registry that validates payloads. JSON Schema
-- itself is the external crate `jsonschema`: the record `JsonSchema` is what the code uses of it.
pub mod Registry
use rintawa.Prelude.{
  ℕ, String, Bool, List, [], ◌∷◌, Option, none, some, ite, holds, Result, ok, err, ◌>>=◌, ◌>>◌,
  guard, ok_or, map_err, get, insert, length, String-discrete,
}
use rintawa.World.Ids.{
  SchemaKey, SchemaKey-discrete, SchemaKind, SchemaKind-discrete, Json, Json-discrete,
}
use rintawa.World.Errors.{
  WorldResult, schema_conflict, invalid_schema_definition, schema_not_registered,
  schema_kind_mismatch, payload_validation_failed,
}

pub record SchemaDefinition : Type 0 where
  pub key : SchemaKey
  pub kind : SchemaKind
  pub owner : String
  pub definition : Json

unfoldable pub SchemaDefinition-discrete : Discrete SchemaDefinition
unfolding SchemaKey-discrete SchemaKind-discrete String-discrete Json-discrete
SchemaDefinition-discrete =
    hlevel (SchemaKey-discrete, SchemaKind-discrete, String-discrete, Json-discrete)

-- A compiled validator: `none` accepts a payload, `some (instance_path, reason)` refuses it.
abbrev pub Validator : Type 0
Validator = Json → Option (String × String)

-- `jsonschema::validator_for`: a validator, or the reason why the schema is no JSON Schema.
pub record JsonSchema : Type 0 where
  pub validator_for : Json → Result String Validator

pub data SchemaRegistration : Type 0 where
  registered already_present : SchemaRegistration

pub record SchemaRegistry : Type 0 where
  pub definitions : List (SchemaKey × SchemaDefinition)
  pub validators : List (SchemaKey × Validator)

abbrev pub new : SchemaRegistry
new = record { definitions = []; validators = [] }

unfoldable pub lookup : SchemaRegistry → SchemaKey → Option SchemaDefinition
lookup r key = get SchemaKey-discrete key r.definitions

-- The branch of `register` for a key that is already defined.
register_again :
    SchemaRegistry
    → SchemaDefinition
    → SchemaDefinition
    → WorldResult (SchemaRegistry × SchemaRegistration)
register_again r existing definition =
    ite (SchemaDefinition-discrete existing definition) (ok (r, already_present))
      (err (schema_conflict definition.key existing.owner definition.owner))

-- The branch of `register` for a new key: the schema is compiled, then both maps are written.
register_new :
    JsonSchema
    → SchemaRegistry
    → SchemaDefinition
    → WorldResult (SchemaRegistry × SchemaRegistration)
register_new js r definition = do
  validator ←
      map_err (invalid_schema_definition definition.key) (js.validator_for definition.definition)
  ok (
    record {
      definitions = insert SchemaKey-discrete definition.key definition r.definitions;
      validators = insert SchemaKey-discrete definition.key validator r.validators;
    },
    registered,
  )

unfoldable pub register :
    JsonSchema
    → SchemaRegistry
    → SchemaDefinition
    → WorldResult (SchemaRegistry × SchemaRegistration)
unfolding lookup register_again register_new
register js r definition = elim (lookup r definition.key) [
  | none ↦ register_new js r definition
  | some existing ↦ register_again r existing definition
]

unfoldable pub require_kind : SchemaRegistry → SchemaKey → SchemaKind → WorldResult (Unit {0})
unfolding lookup
require_kind r key expected = do
  definition ← ok_or (lookup r key) (schema_not_registered key)
  guard (holds (SchemaKind-discrete definition.kind expected))
      (schema_kind_mismatch key expected definition.kind)

-- What a validator answers, as the result of `validate_payload`.
abbrev pub verdict : SchemaKey → Option (String × String) → WorldResult (Unit {0})
verdict key none = ok tt
verdict key (some (instance_path, reason)) =
    err (payload_validation_failed key instance_path reason)

unfoldable pub validate_payload :
    SchemaRegistry → SchemaKey → SchemaKind → Json → WorldResult (Unit {0})
unfolding require_kind
validate_payload r key expected payload = do
  require_kind r key expected
  validator ← ok_or (get SchemaKey-discrete key r.validators) (schema_not_registered key)
  verdict key (validator payload)

-- `SchemaRegistry::len`.
pub len : SchemaRegistry → ℕ
len r = length r.definitions
