-- ===== src/Storage/Mutation.antt =====
-- crates/storage/src/sqlite/commit.rs: the application of one mutation to the current state.
pub mod Consistency
pub mod Control
pub mod Reads
pub mod Grants
use rintawa.Prelude.{
  ℕ, String, not, ◌&&◌, List, [], Option, none, some, ok, ◌>>=◌, ◌>>◌, guard, ok_or, count,
  delete_where, fold_result, ◌==◌,
}
use rintawa.World.Ids.{EntityId, RelationId, ControlGrantId, SchemaKey}
use rintawa.World.Errors.{
  entity_already_exists, entity_not_found, relation_already_exists, relation_not_found,
  relation_endpoint_not_found, facet_target_not_found, control_grant_already_exists,
  control_grant_not_found,
}
use rintawa.World.Authority.{ControlScope, any_command, exact_schemas, ControlGrant}
use rintawa.World.State.{
  EntityRecord, RelationRecord, FacetTarget, FacetRecord, WorldMutation, create_entity,
  delete_entity, create_relation, delete_relation, set_facet, remove_facet, grant_control,
  revoke_control,
}
use rintawa.Storage.Errors.{StorageResult, world, json}
use rintawa.Storage.External.{External}
use rintawa.Storage.Codec.{position_to_sql}
use rintawa.Storage.Tables.{
  Db, EntityRow, RelationRow, GrantRow, same_key, has_entity, has_relation, has_grant,
}
use rintawa.Storage.Statements.{
  insert_entity_row, insert_relation_row, insert_grant_row, insert_grant_schema_row,
  upsert_world_facet, upsert_entity_facet, upsert_relation_facet, delete_entity_rows,
  delete_relations, delete_grants,
}

-- The parameters of the INSERT of an entity, a relation and a grant.
abbrev pub entity_row : EntityRecord → ℕ → EntityRow
entity_row e position = record { entity_id = e.id; schema = e.schema; created_position = position }

abbrev pub relation_row : RelationRecord → ℕ → RelationRow
relation_row r position = record {
  relation_id = r.id;
  schema = r.schema;
  from_entity_id = r.from;
  to_entity_id = r.to;
  created_position = position;
}

unfoldable pub scope_kind : ControlScope → ℕ
scope_kind any_command = 1
scope_kind (exact_schemas schemas) = 2

abbrev pub grant_row : ControlGrant → Option ℕ → ℕ → GrantRow
grant_row g valid_through position = record {
  grant_id = g.id;
  principal_id = g.principal;
  actor_entity_id = g.actor_entity;
  scope_kind = scope_kind g.scope;
  valid_through_position = valid_through;
  created_position = position;
}

unfoldable pub apply_create_entity : EntityRecord → ℕ → Db → StorageResult Db
apply_create_entity e position db = do
  guard (not (has_entity db.entities e.id)) (world (entity_already_exists e.id))
  insert_entity_row (entity_row e position) db

-- `changed == 0` is tested after the DELETE; the refused statement changed nothing.
unfoldable pub apply_delete_entity : EntityId → Db → StorageResult Db
apply_delete_entity id db = do
  guard (not (count (λ r. r.entity_id == id) db.entities == 0)) (world (entity_not_found id))
  ok (delete_entity_rows id db)

unfoldable pub ensure_relation_endpoint : RelationId → EntityId → Db → StorageResult (Unit {0})
ensure_relation_endpoint relation_id entity_id db =
    guard (has_entity db.entities entity_id)
      (world (relation_endpoint_not_found relation_id entity_id))

unfoldable pub apply_create_relation : RelationRecord → ℕ → Db → StorageResult Db
apply_create_relation r position db = do
  guard (not (has_relation db.relations r.id)) (world (relation_already_exists r.id))
  ensure_relation_endpoint r.id r.from db
  ensure_relation_endpoint r.id r.to db
  insert_relation_row (relation_row r position) db

unfoldable pub apply_delete_relation : RelationId → Db → StorageResult Db
apply_delete_relation id db = do
  guard (not (count (λ r. r.relation_id == id) db.relations == 0)) (world (relation_not_found id))
  ok (delete_relations (λ r. r.relation_id == id) db)

-- The branches of `set_facet` on the target.
unfoldable pub set_payload : FacetTarget → SchemaKey → String → ℕ → Db → StorageResult Db
set_payload FacetTarget.world schema payload position db =
    upsert_world_facet
      (record { schema = schema; payload_json = payload; updated_position = position }) db
set_payload (FacetTarget.entity id) schema payload position db = do
  guard (has_entity db.entities id) (world facet_target_not_found)
  upsert_entity_facet
      (record {
        entity_id = id;
        schema = schema;
        payload_json = payload;
        updated_position = position;
      })
      db
set_payload (FacetTarget.relation id) schema payload position db = do
  guard (has_relation db.relations id) (world facet_target_not_found)
  upsert_relation_facet
      (record {
        relation_id = id;
        schema = schema;
        payload_json = payload;
        updated_position = position;
      })
      db

unfoldable pub apply_set_facet : External → FacetRecord → ℕ → Db → StorageResult Db
apply_set_facet x f position db = do
  payload ← ok_or (x.value_to_string f.payload) json
  set_payload f.target f.schema payload position db

unfoldable pub apply_remove_facet : FacetTarget → SchemaKey → Db → StorageResult Db
apply_remove_facet FacetTarget.world schema db =
    ok (record db { world_facets = delete_where (λ r. same_key r.schema schema) db.world_facets })
apply_remove_facet (FacetTarget.entity id) schema db = do
  guard (has_entity db.entities id) (world facet_target_not_found)
  ok (record db {
    entity_facets =
        delete_where (λ r. r.entity_id == id && same_key r.schema schema) db.entity_facets;
  })
apply_remove_facet (FacetTarget.relation id) schema db = do
  guard (has_relation db.relations id) (world facet_target_not_found)
  ok (record db {
    relation_facets =
        delete_where (λ r. r.relation_id == id && same_key r.schema schema) db.relation_facets;
  })

-- `valid_through_position().map(position_to_sql).transpose()`.
unfoldable pub optional_position_to_sql : Option ℕ → StorageResult (Option ℕ)
optional_position_to_sql none = ok none
optional_position_to_sql (some position) = do
  position_sql ← position_to_sql position
  ok (some position_sql)

-- The rows of `control_grant_schemas` that a scope writes.
unfoldable pub scope_schemas : ControlScope → List SchemaKey
scope_schemas any_command = []
scope_schemas (exact_schemas schemas) = schemas

unfoldable pub insert_scope_schema : ControlGrantId → Db → SchemaKey → StorageResult Db
insert_scope_schema id db schema =
    insert_grant_schema_row (record { grant_id = id; schema = schema }) db

unfoldable pub apply_grant_control : ControlGrant → ℕ → Db → StorageResult Db
apply_grant_control g position db = do
  guard (has_entity db.entities g.actor_entity) (world (entity_not_found g.actor_entity))
  guard (not (has_grant db.grants g.id)) (world (control_grant_already_exists g.id))
  valid_through ← optional_position_to_sql g.valid_through_position
  db' ← insert_grant_row (grant_row g valid_through position) db
  fold_result (insert_scope_schema g.id) db' (scope_schemas g.scope)

unfoldable pub apply_revoke_control : ControlGrantId → Db → StorageResult Db
apply_revoke_control id db = do
  guard (not (count (λ r. r.grant_id == id) db.grants == 0)) (world (control_grant_not_found id))
  ok (delete_grants (λ r. r.grant_id == id) db)

unfoldable pub apply_mutation : External → ℕ → Db → WorldMutation → StorageResult Db
apply_mutation x position db (create_entity e) = apply_create_entity e position db
apply_mutation x position db (delete_entity id) = apply_delete_entity id db
apply_mutation x position db (create_relation r) = apply_create_relation r position db
apply_mutation x position db (delete_relation id) = apply_delete_relation id db
apply_mutation x position db (set_facet f) = apply_set_facet x f position db
apply_mutation x position db (remove_facet target schema) = apply_remove_facet target schema db
apply_mutation x position db (grant_control g) = apply_grant_control g position db
apply_mutation x position db (revoke_control id) = apply_revoke_control id db
