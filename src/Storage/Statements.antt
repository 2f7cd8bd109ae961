-- ===== src/Storage/Statements.antt =====
-- The statements that write the tables, with the constraints of crates/storage/src/sqlite/migration.rs:
-- PRIMARY KEY and UNIQUE, foreign keys on insertion (`PRAGMA foreign_keys` is on), and the ON DELETE
-- CASCADE of the foreign keys to entities, relations and grants.
use rintawa.Prelude.{
  Bool, not, ◌&&◌, ◌||◌, List, [], ◌∷◌, ◌++◌, ok, ◌>>◌, guard, any, delete_where, update_where,
  ◌==◌, if◌then◌else◌,
}
use rintawa.World.Ids.{EntityId}
use rintawa.Storage.Errors.{StorageResult, sqlite}
use rintawa.Storage.Tables.{
  Db, SchemaRow, CommitRow, EntityRow, GrantRow, GrantSchemaRow, RelationRow, WorldFacetRow,
  EntityFacetRow, RelationFacetRow, MutationRow, EventRow, JobRow, same_key, has_entity,
  has_relation, has_grant, has_schema, has_commit, has_event, has_job,
}

unfoldable pub insert_schema_row : SchemaRow → Db → StorageResult Db
insert_schema_row row db = do
  guard (not (has_schema db.schemas row.key)) (sqlite "world_schemas")
  ok (record db { schemas = db.schemas ++ row ∷ [] })

unfoldable pub insert_commit_row : CommitRow → Db → StorageResult Db
insert_commit_row row db = do
  guard (not (has_commit db.commits row.commit_position)) (sqlite "world_commits")
  guard (not (any (λ r. r.command_id == row.command_id) db.commits)) (sqlite "world_commits")
  guard (has_schema db.schemas row.command_schema) (sqlite "world_commits")
  ok (record db { commits = db.commits ++ row ∷ [] })

unfoldable pub insert_entity_row : EntityRow → Db → StorageResult Db
insert_entity_row row db = do
  guard (not (has_entity db.entities row.entity_id)) (sqlite "entities")
  guard (has_schema db.schemas row.schema) (sqlite "entities")
  guard (has_commit db.commits row.created_position) (sqlite "entities")
  ok (record db { entities = db.entities ++ row ∷ [] })

unfoldable pub insert_relation_row : RelationRow → Db → StorageResult Db
insert_relation_row row db = do
  guard (not (has_relation db.relations row.relation_id)) (sqlite "relations")
  guard (has_schema db.schemas row.schema) (sqlite "relations")
  guard (has_entity db.entities row.from_entity_id) (sqlite "relations")
  guard (has_entity db.entities row.to_entity_id) (sqlite "relations")
  guard (has_commit db.commits row.created_position) (sqlite "relations")
  ok (record db { relations = db.relations ++ row ∷ [] })

unfoldable pub insert_grant_row : GrantRow → Db → StorageResult Db
insert_grant_row row db = do
  guard (not (has_grant db.grants row.grant_id)) (sqlite "control_grants")
  guard (has_entity db.entities row.actor_entity_id) (sqlite "control_grants")
  guard (has_commit db.commits row.created_position) (sqlite "control_grants")
  ok (record db { grants = db.grants ++ row ∷ [] })

unfoldable pub insert_grant_schema_row : GrantSchemaRow → Db → StorageResult Db
insert_grant_schema_row row db = do
  guard
      (not (any (λ r. r.grant_id == row.grant_id && same_key r.schema row.schema) db.grant_schemas))
      (sqlite "control_grant_schemas")
  guard (has_grant db.grants row.grant_id) (sqlite "control_grant_schemas")
  guard (has_schema db.schemas row.schema) (sqlite "control_grant_schemas")
  ok (record db { grant_schemas = db.grant_schemas ++ row ∷ [] })

-- `INSERT .. ON CONFLICT(key) DO UPDATE`.
unfoldable pub upsert {ℓ} : {A : Type ℓ} → (A → Bool) → (A → A) → A → List A → List A
upsert conflict set row rows =
    if any conflict rows then update_where conflict set rows else rows ++ row ∷ []

unfoldable pub upsert_world_facet : WorldFacetRow → Db → StorageResult Db
upsert_world_facet row db = do
  guard (has_schema db.schemas row.schema) (sqlite "world_facets")
  guard (has_commit db.commits row.updated_position) (sqlite "world_facets")
  ok (record db {
    world_facets =
        upsert (λ r. same_key r.schema row.schema)
          (λ r. record r {
            payload_json = row.payload_json;
            updated_position = row.updated_position;
          })
          row db.world_facets;
  })

unfoldable pub upsert_entity_facet : EntityFacetRow → Db → StorageResult Db
upsert_entity_facet row db = do
  guard (has_entity db.entities row.entity_id) (sqlite "entity_facets")
  guard (has_schema db.schemas row.schema) (sqlite "entity_facets")
  guard (has_commit db.commits row.updated_position) (sqlite "entity_facets")
  ok (record db {
    entity_facets =
        upsert (λ r. r.entity_id == row.entity_id && same_key r.schema row.schema)
          (λ r. record r {
            payload_json = row.payload_json;
            updated_position = row.updated_position;
          })
          row db.entity_facets;
  })

unfoldable pub upsert_relation_facet : RelationFacetRow → Db → StorageResult Db
upsert_relation_facet row db = do
  guard (has_relation db.relations row.relation_id) (sqlite "relation_facets")
  guard (has_schema db.schemas row.schema) (sqlite "relation_facets")
  guard (has_commit db.commits row.updated_position) (sqlite "relation_facets")
  ok (record db {
    relation_facets =
        upsert (λ r. r.relation_id == row.relation_id && same_key r.schema row.schema)
          (λ r. record r {
            payload_json = row.payload_json;
            updated_position = row.updated_position;
          })
          row db.relation_facets;
  })

unfoldable pub insert_mutation_row : MutationRow → Db → StorageResult Db
insert_mutation_row row db = do
  guard
      (not (
        any
          (λ r. r.commit_position == row.commit_position && r.mutation_index == row.mutation_index)
          db.mutations))
      (sqlite "world_mutations")
  guard (has_commit db.commits row.commit_position) (sqlite "world_mutations")
  ok (record db { mutations = db.mutations ++ row ∷ [] })

unfoldable pub insert_event_row : EventRow → Db → StorageResult Db
insert_event_row row db = do
  guard (not (has_event db.events row.event_id)) (sqlite "world_events")
  guard
      (not (
        any (λ r. r.commit_position == row.commit_position && r.event_index == row.event_index)
          db.events))
      (sqlite "world_events")
  guard (has_commit db.commits row.commit_position) (sqlite "world_events")
  guard (has_schema db.schemas row.schema) (sqlite "world_events")
  ok (record db { events = db.events ++ row ∷ [] })

unfoldable pub insert_job_row : JobRow → Db → StorageResult Db
insert_job_row row db = do
  guard (not (has_job db.jobs row.job_id)) (sqlite "effect_jobs")
  guard
      (not (
        any (λ r. r.commit_position == row.commit_position && r.job_index == row.job_index)
          db.jobs))
      (sqlite "effect_jobs")
  guard (has_commit db.commits row.commit_position) (sqlite "effect_jobs")
  guard (has_schema db.schemas row.schema) (sqlite "effect_jobs")
  ok (record db { jobs = db.jobs ++ row ∷ [] })

-- `DELETE FROM relations WHERE doomed`; the facets of a deleted relation go with it.
unfoldable pub delete_relations : (RelationRow → Bool) → Db → Db
delete_relations doomed db = record db {
  relations = delete_where doomed db.relations;
  relation_facets =
      delete_where (λ f. any (λ r. doomed r && r.relation_id == f.relation_id) db.relations)
        db.relation_facets;
}

-- `DELETE FROM control_grants WHERE doomed`; the schemas of a deleted grant go with it.
unfoldable pub delete_grants : (GrantRow → Bool) → Db → Db
delete_grants doomed db = record db {
  grants = delete_where doomed db.grants;
  grant_schemas =
      delete_where (λ s. any (λ g. doomed g && g.grant_id == s.grant_id) db.grants)
        db.grant_schemas;
}

abbrev pub touches : EntityId → RelationRow → Bool
touches id r = r.from_entity_id == id || r.to_entity_id == id

-- `DELETE FROM entities WHERE entity_id = ?1`, with the relations, grants and facets that refer to it.
unfoldable pub delete_entity_rows : EntityId → Db → Db
unfolding delete_relations delete_grants
delete_entity_rows id db =
    delete_grants (λ g. g.actor_entity_id == id)
      (delete_relations (touches id) (record db {
        entities = delete_where (λ r. r.entity_id == id) db.entities;
        entity_facets = delete_where (λ f. f.entity_id == id) db.entity_facets;
      }))
