-- ===== src/Storage/Tables.antt =====
-- The tables of one world database, as crates/storage/src/sqlite/migration.rs creates them (storage
-- schema 3). A column that its CHECK constraint keeps from being negative is a natural number; the two
-- columns `schema_id` and `schema_version` are one schema key. An identifier is stored as itself.
use rintawa.Prelude.{ℕ, String, Bool, List, Option, any, holds, ◌==◌}
use rintawa.Prelude.Int.{ℤ}
use rintawa.World.Ids.{
  WorldId, EntityId, RelationId, CommandId, WorldEventId, EffectJobId, PrincipalId, ControlGrantId,
  CorrelationId, SchemaKey, SchemaKey-discrete,
}

pub record SchemaRow : Type 0 where
  pub key : SchemaKey
  pub kind : ℕ
  pub owner_extension_id : String
  pub definition_json : String

pub record CommitRow : Type 0 where
  pub commit_position : ℕ
  pub command_id : CommandId
  pub command_schema : SchemaKey
  pub principal_id : PrincipalId
  pub actor_kind : ℕ
  pub actor_id : ℕ
  pub causation_kind : Option ℕ
  pub causation_id : Option ℕ
  pub correlation_id : CorrelationId
  pub expected_position : Option ℕ
  pub effective_at_ms : Option ℤ
  pub recorded_at_ms : ℤ
  pub command_payload_json : String
  pub command_digest : ℕ

pub record EntityRow : Type 0 where
  pub entity_id : EntityId
  pub schema : SchemaKey
  pub created_position : ℕ

pub record GrantRow : Type 0 where
  pub grant_id : ControlGrantId
  pub principal_id : PrincipalId
  pub actor_entity_id : EntityId
  pub scope_kind : ℕ
  pub valid_through_position : Option ℕ
  pub created_position : ℕ

pub record GrantSchemaRow : Type 0 where
  pub grant_id : ControlGrantId
  pub schema : SchemaKey

pub record RelationRow : Type 0 where
  pub relation_id : RelationId
  pub schema : SchemaKey
  pub from_entity_id : EntityId
  pub to_entity_id : EntityId
  pub created_position : ℕ

pub record WorldFacetRow : Type 0 where
  pub schema : SchemaKey
  pub payload_json : String
  pub updated_position : ℕ

pub record EntityFacetRow : Type 0 where
  pub entity_id : EntityId
  pub schema : SchemaKey
  pub payload_json : String
  pub updated_position : ℕ

pub record RelationFacetRow : Type 0 where
  pub relation_id : RelationId
  pub schema : SchemaKey
  pub payload_json : String
  pub updated_position : ℕ

pub record MutationRow : Type 0 where
  pub commit_position : ℕ
  pub mutation_index : ℕ
  pub format_version : ℕ
  pub mutation_json : String

pub record EventRow : Type 0 where
  pub event_id : WorldEventId
  pub commit_position : ℕ
  pub event_index : ℕ
  pub schema : SchemaKey
  pub payload_json : String

pub record JobRow : Type 0 where
  pub job_id : EffectJobId
  pub commit_position : ℕ
  pub job_index : ℕ
  pub schema : SchemaKey
  pub payload_json : String
  pub status : ℕ
  pub attempt_count : ℕ
  pub available_at_ms : ℤ
  pub lease_expires_at_ms : Option ℤ
  pub last_error : Option String

-- `commit_position`, `world_id` and `world_format_version` are the single row of `world_metadata`.
pub record Db : Type 0 where
  pub world_id : WorldId
  pub world_format_version : ℕ
  pub commit_position : ℕ
  pub schemas : List SchemaRow
  pub commits : List CommitRow
  pub entities : List EntityRow
  pub grants : List GrantRow
  pub grant_schemas : List GrantSchemaRow
  pub relations : List RelationRow
  pub world_facets : List WorldFacetRow
  pub entity_facets : List EntityFacetRow
  pub relation_facets : List RelationFacetRow
  pub mutations : List MutationRow
  pub events : List EventRow
  pub jobs : List JobRow

-- `SELECT EXISTS(..)` by primary key.
abbrev pub same_key : SchemaKey → SchemaKey → Bool
same_key a b = holds (SchemaKey-discrete a b)

abbrev pub has_entity : List EntityRow → EntityId → Bool
has_entity rows id = any (λ r. r.entity_id == id) rows

abbrev pub has_relation : List RelationRow → RelationId → Bool
has_relation rows id = any (λ r. r.relation_id == id) rows

abbrev pub has_grant : List GrantRow → ControlGrantId → Bool
has_grant rows id = any (λ r. r.grant_id == id) rows

abbrev pub has_schema : List SchemaRow → SchemaKey → Bool
has_schema rows key = any (λ r. same_key r.key key) rows

abbrev pub has_commit : List CommitRow → ℕ → Bool
has_commit rows position = any (λ r. r.commit_position == position) rows

abbrev pub has_event : List EventRow → WorldEventId → Bool
has_event rows id = any (λ r. r.event_id == id) rows

abbrev pub has_job : List JobRow → EffectJobId → Bool
has_job rows id = any (λ r. r.job_id == id) rows
