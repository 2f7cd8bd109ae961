-- ===== src/Storage/Mutation/Consistency/Deletes.antt =====
-- The deletions of crates/storage/src/sqlite/commit.rs, with their cascades, leave no dangling reference.
use rintawa.Prelude.{
  ◌≡◌, ◌∙◌, Bool, false, ◌&&◌, List, any, any-delete, any-delete_ne, All-delete, delete_where,
  arith, ◌==◌,
}
use rintawa.World.Ids.{EntityId}
use rintawa.Storage.Tables.{Db, EntityRow, RelationRow, GrantRow, EntityFacetRow, has_entity}
use rintawa.Storage.Statements.{delete_relations, delete_grants, delete_entity_rows, touches}
use rintawa.Storage.Mutation.Consistency.{
  IsConsistent, RelationOk, EntityFacetOk, RelationFacetOk, GrantOk, GrantSchemaOk,
}

pub delete_relations-IsConsistent :
    (doomed : RelationRow → Bool) (db : Db)
    → IsConsistent db
    → IsConsistent (delete_relations doomed db)
unfolding delete_relations
delete_relations-IsConsistent doomed db v = record {
  relations =
      All-delete (RelationOk db.entities) (RelationOk db.entities) doomed db.relations (λ r e o. o)
        v.relations;
  entity_facets = v.entity_facets;
  relation_facets =
      All-delete (RelationFacetOk db.relations) (RelationFacetOk (delete_where doomed db.relations))
        (λ f. any (λ r. doomed r && r.relation_id == f.relation_id) db.relations) db.relation_facets
        (λ f spared o.
          any-delete (λ r. r.relation_id == f.relation_id) doomed db.relations o spared)
        v.relation_facets;
  grants = v.grants;
  grant_schemas = v.grant_schemas;
}

pub delete_grants-IsConsistent :
    (doomed : GrantRow → Bool) (db : Db) → IsConsistent db → IsConsistent (delete_grants doomed db)
unfolding delete_grants
delete_grants-IsConsistent doomed db v = record {
  relations = v.relations;
  entity_facets = v.entity_facets;
  relation_facets = v.relation_facets;
  grants =
      All-delete (GrantOk db.entities) (GrantOk db.entities) doomed db.grants (λ g e o. o) v.grants;
  grant_schemas =
      All-delete (GrantSchemaOk db.grants) (GrantSchemaOk (delete_where doomed db.grants))
        (λ s. any (λ g. doomed g && g.grant_id == s.grant_id) db.grants) db.grant_schemas
        (λ s spared o. any-delete (λ g. g.grant_id == s.grant_id) doomed db.grants o spared)
        v.grant_schemas;
}

-- Another entity is still stored after the deletion of one.
other_entity :
    (id other : EntityId) (entities : List EntityRow)
    → (other == id) ≡ false
    → has_entity (delete_where (λ r. r.entity_id == id) entities) other ≡ has_entity entities other
other_entity id other entities ne =
    any-delete_ne (λ r. r.entity_id == other) (λ r. r.entity_id == id) entities
      (λ r e. ground arith)

-- The references into the entities after the deletion of an entity and of what names it.
module _ (id : EntityId) (db : Db) where
  abbrev rest : List EntityRow
  rest = delete_where (λ r. r.entity_id == id) db.entities

  relation_spared :
      (r : RelationRow) → touches id r ≡ false → RelationOk db.entities r → RelationOk rest r
  relation_spared r spared o =
      let from = other_entity id r.from_entity_id db.entities (ground arith) in
      let to = other_entity id r.to_entity_id db.entities (ground arith) in (from ∙ o.0, to ∙ o.1)

  facet_spared :
      (f : EntityFacetRow)
      → (f.entity_id == id) ≡ false
      → EntityFacetOk db.entities f
      → EntityFacetOk rest f
  facet_spared f spared o = other_entity id f.entity_id db.entities spared ∙ o

  grant_spared :
      (g : GrantRow) → (g.actor_entity_id == id) ≡ false → GrantOk db.entities g → GrantOk rest g
  grant_spared g spared o = other_entity id g.actor_entity_id db.entities spared ∙ o

-- Deleting an entity deletes every relation, facet and grant that refers to it, and nothing dangles.
pub delete_entity-IsConsistent :
    (id : EntityId) (db : Db) → IsConsistent db → IsConsistent (delete_entity_rows id db)
unfolding delete_entity_rows
delete_entity-IsConsistent id db v = record {
  relations =
      All-delete (RelationOk db.entities) (RelationOk (rest id db)) (touches id) db.relations
        (relation_spared id db) v.relations;
  entity_facets =
      All-delete (EntityFacetOk db.entities) (EntityFacetOk (rest id db)) (λ f. f.entity_id == id)
        db.entity_facets (facet_spared id db) v.entity_facets;
  relation_facets =
      All-delete (RelationFacetOk db.relations)
        (RelationFacetOk (delete_where (touches id) db.relations))
        (λ f. any (λ r. touches id r && r.relation_id == f.relation_id) db.relations)
        db.relation_facets
        (λ f spared o.
          any-delete (λ r. r.relation_id == f.relation_id) (touches id) db.relations o spared)
        v.relation_facets;
  grants =
      All-delete (GrantOk db.entities) (GrantOk (rest id db)) (λ g. g.actor_entity_id == id)
        db.grants (grant_spared id db) v.grants;
  grant_schemas =
      All-delete (GrantSchemaOk db.grants)
        (GrantSchemaOk (delete_where (λ g. g.actor_entity_id == id) db.grants))
        (λ s. any (λ g. g.actor_entity_id == id && g.grant_id == s.grant_id) db.grants)
        db.grant_schemas
        (λ s spared o.
          any-delete (λ g. g.grant_id == s.grant_id) (λ g. g.actor_entity_id == id) db.grants o
            spared)
        v.grant_schemas;
}
