-- ===== src/Storage/Mutation/Consistency.antt =====
-- Referential integrity of the current state under the mutations of crates/storage/src/sqlite/commit.rs.
pub mod Inserts
pub mod Deletes
pub mod Keeps
use rintawa.Prelude.{◌≡◌, true, List, All}
use rintawa.Storage.Tables.{
  Db, EntityRow, RelationRow, GrantRow, GrantSchemaRow, EntityFacetRow, RelationFacetRow,
  has_entity, has_relation, has_grant,
}

-- The references of the tables, over the tables that they point to.
abbrev pub RelationOk : List EntityRow → RelationRow → Type 0
RelationOk entities r =
    (has_entity entities r.from_entity_id ≡ true) × (has_entity entities r.to_entity_id ≡ true)

abbrev pub EntityFacetOk : List EntityRow → EntityFacetRow → Type 0
EntityFacetOk entities f = has_entity entities f.entity_id ≡ true

abbrev pub RelationFacetOk : List RelationRow → RelationFacetRow → Type 0
RelationFacetOk relations f = has_relation relations f.relation_id ≡ true

abbrev pub GrantOk : List EntityRow → GrantRow → Type 0
GrantOk entities g = has_entity entities g.actor_entity_id ≡ true

abbrev pub GrantSchemaOk : List GrantRow → GrantSchemaRow → Type 0
GrantSchemaOk grants s = has_grant grants s.grant_id ≡ true

-- Every relation joins stored entities, every facet stands on a stored entity or relation, every grant
-- controls a stored entity, and every schema of an exact grant belongs to a stored grant.
pub record IsConsistent (db : Db) : Type 0 where
  pub relations : All (RelationOk db.entities) db.relations
  pub entity_facets : All (EntityFacetOk db.entities) db.entity_facets
  pub relation_facets : All (RelationFacetOk db.relations) db.relation_facets
  pub grants : All (GrantOk db.entities) db.grants
  pub grant_schemas : All (GrantSchemaOk db.grants) db.grant_schemas
