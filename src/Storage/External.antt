-- ===== src/Storage/External.antt =====
-- What the storage uses of crates outside the repository: `serde_json`, `jsonschema` and `sha2`, and the
-- system clock.
use rintawa.Prelude.{ℕ, String, List, Option}
use rintawa.World.Ids.{Json}
use rintawa.World.Schema.{JsonSchema}
use rintawa.World.State.{WorldMutation}
use rintawa.World.Command.{WorldCommand}

pub record External : Type 0 where
  pub schema : JsonSchema
  -- `serde_json::to_string` and `from_str` of a value and of a mutation; `none` is an error
  pub value_to_string : Json → Option String
  pub value_from_str : String → Option Json
  pub mutation_to_string : WorldMutation → Option String
  pub mutation_from_str : String → Option WorldMutation
  -- `serde_json::to_value` of a command, `to_vec` of a value, and `Sha256::digest`
  pub command_to_value : WorldCommand → Option Json
  pub value_to_vec : Json → Option (List ℕ)
  pub sha256 : List ℕ → ℕ

-- `SystemTime::now().duration_since(UNIX_EPOCH)` in milliseconds.
pub data ClockReading : Type 0 where
  since_epoch before_epoch : ℕ → ClockReading
