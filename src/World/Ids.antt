-- ===== src/World/Ids.antt =====
-- crates/sdk/src/world.rs: opaque 128-bit identifiers, timestamps, schema kinds and schema keys; and
-- the JSON values (`serde_json::Value`) that world payloads are. An identifier is its 128-bit value. A
-- JSON number is its decimal text.
use rintawa.Prelude.{ℕ, String, Bool, ℕ_discrete, String-discrete}
use rintawa.Prelude.Int.{ℤ}

abbrev pub WorldId : Type 0
WorldId = ℕ

abbrev pub EntityId : Type 0
EntityId = ℕ

abbrev pub RelationId : Type 0
RelationId = ℕ

abbrev pub CommandId : Type 0
CommandId = ℕ

abbrev pub WorldEventId : Type 0
WorldEventId = ℕ

abbrev pub EffectJobId : Type 0
EffectJobId = ℕ

abbrev pub PrincipalId : Type 0
PrincipalId = ℕ

abbrev pub ControlGrantId : Type 0
ControlGrantId = ℕ

abbrev pub CorrelationId : Type 0
CorrelationId = ℕ

abbrev pub UnixTimeMillis : Type 0
UnixTimeMillis = ℤ

pub data SchemaKind : Type 0 where
  entity relation facet command event effect projection : SchemaKind

unfoldable pub SchemaKind-discrete : Discrete SchemaKind
SchemaKind-discrete = hlevel

pub record SchemaKey : Type 0 where
  pub id : String
  pub version : ℕ

unfoldable pub SchemaKey-discrete : Discrete SchemaKey
unfolding String-discrete ℕ_discrete
SchemaKey-discrete = hlevel (String-discrete, ℕ_discrete)

mutual
  pub data Json : Type 0 where
    null : Json
    bool : Bool → Json
    number : String → Json
    string : String → Json
    array : Items → Json
    object : Members → Json

  pub data Items : Type 0 where
    nil : Items
    item : Json → Items → Items

  pub data Members : Type 0 where
    no_members : Members
    member : String → Json → Members → Members

unfoldable pub Json-discrete : Discrete Json
unfolding String-discrete
Json-discrete = hlevel String-discrete
