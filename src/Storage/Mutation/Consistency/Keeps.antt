-- ===== src/Storage/Mutation/Consistency/Keeps.antt =====
-- Every mutation of crates/storage/src/sqlite/commit.rs keeps the current state consistent.
use rintawa.Prelude.{
  Option, fold_result, sym, delete_where, ◌>>=◌, ℕ, String, ◌≡◌, subst, ◌&&◌, ok, >>=-eq-ok,
  guard->>-eq-ok, ok_or, All-delete, fold_result-keeps, arith, ◌==◌,
}
use rintawa.World.Ids.{EntityId, RelationId, ControlGrantId, SchemaKey}
use rintawa.World.Authority.{ControlGrant}
use rintawa.World.State.{
  EntityRecord, RelationRecord, FacetTarget, FacetRecord, WorldMutation, create_entity,
  delete_entity, create_relation, delete_relation, set_facet, remove_facet, grant_control,
  revoke_control,
}
use rintawa.Storage.Errors.{StorageResult, json}
use rintawa.Storage.External.{External}
use rintawa.Storage.Tables.{Db, same_key}
use rintawa.Storage.Statements.{insert_grant_row}
use rintawa.Storage.Mutation.{
  entity_row, relation_row, grant_row, apply_create_entity, apply_delete_entity,
  apply_create_relation, ensure_relation_endpoint, apply_delete_relation, apply_set_facet,
  apply_remove_facet, apply_grant_control, insert_scope_schema, apply_revoke_control,
  apply_mutation, set_payload, optional_position_to_sql, scope_schemas,
}
use rintawa.Storage.Mutation.Consistency.{IsConsistent, EntityFacetOk, RelationFacetOk}
use rintawa.Storage.Mutation.Consistency.Inserts.{
  insert_entity-IsConsistent, insert_relation-IsConsistent, insert_grant-IsConsistent,
  insert_grant_schema-IsConsistent, upsert_world_facet-IsConsistent,
  upsert_entity_facet-IsConsistent, upsert_relation_facet-IsConsistent,
}
use rintawa.Storage.Mutation.Consistency.Deletes.{
  delete_relations-IsConsistent, delete_grants-IsConsistent, delete_entity-IsConsistent,
}

abbrev KeepsConsistency : (Db → StorageResult Db) → Type 0
KeepsConsistency f = (db db' : Db) → IsConsistent db → f db ≡ ok db' → IsConsistent db'

create_entity-Keeps :
    (e : EntityRecord) (position : ℕ) → KeepsConsistency (apply_create_entity e position)
unfolding apply_create_entity
create_entity-Keeps e position db db' v h =
    insert_entity-IsConsistent (entity_row e position) db db' v (ground arith)

delete_entity-Keeps : (id : EntityId) → KeepsConsistency (apply_delete_entity id)
unfolding apply_delete_entity
delete_entity-Keeps id db db' v h =
    subst IsConsistent (ground arith) (delete_entity-IsConsistent id db v)

create_relation-Keeps :
    (r : RelationRecord) (position : ℕ) → KeepsConsistency (apply_create_relation r position)
unfolding apply_create_relation ensure_relation_endpoint
create_relation-Keeps r position db db' v h =
    insert_relation-IsConsistent (relation_row r position) db db' v (ground arith)

delete_relation-Keeps : (id : RelationId) → KeepsConsistency (apply_delete_relation id)
unfolding apply_delete_relation
delete_relation-Keeps id db db' v h =
    subst IsConsistent (ground arith)
      (delete_relations-IsConsistent (λ r. r.relation_id == id) db v)

set_payload-Keeps :
    (target : FacetTarget) (schema : SchemaKey) (payload : String) (position : ℕ)
    → KeepsConsistency (set_payload target schema payload position)
unfolding set_payload
set_payload-Keeps FacetTarget.world schema payload position db db' v h =
    upsert_world_facet-IsConsistent _ db db' v h
set_payload-Keeps (FacetTarget.entity id) schema payload position db db' v h =
    upsert_entity_facet-IsConsistent _ db db' v (guard->>-eq-ok _ _ _ h).1
set_payload-Keeps (FacetTarget.relation id) schema payload position db db' v h =
    upsert_relation_facet-IsConsistent _ db db' v (guard->>-eq-ok _ _ _ h).1

set_facet-Keeps :
    (x : External) (f : FacetRecord) (position : ℕ)
    → KeepsConsistency (apply_set_facet x f position)
unfolding apply_set_facet
set_facet-Keeps x f position db db' v h =
    let (payload, e, rest) =
      >>=-eq-ok (ok_or (x.value_to_string f.payload) json)
        (λ payload. set_payload f.target f.schema payload position db) h in
    set_payload-Keeps f.target f.schema payload position db db' v rest

remove_facet-Keeps :
    (target : FacetTarget) (schema : SchemaKey)
    → KeepsConsistency (apply_remove_facet target schema)
unfolding apply_remove_facet
remove_facet-Keeps FacetTarget.world schema db db' v h = ground arith
remove_facet-Keeps (FacetTarget.entity id) schema db db' v h =
    let gone : db' ≡ record db {
      entity_facets =
          delete_where (λ r. r.entity_id == id && same_key r.schema schema) db.entity_facets;
    } =
      ground arith in
    subst IsConsistent (sym gone) (record {
      relations = v.relations;
      entity_facets =
          All-delete (EntityFacetOk db.entities) (EntityFacetOk db.entities)
            (λ r. r.entity_id == id && same_key r.schema schema) db.entity_facets (λ f e o. o)
            v.entity_facets;
      relation_facets = v.relation_facets;
      grants = v.grants;
      grant_schemas = v.grant_schemas;
    })
remove_facet-Keeps (FacetTarget.relation id) schema db db' v h =
    let gone : db' ≡ record db {
      relation_facets =
          delete_where (λ r. r.relation_id == id && same_key r.schema schema) db.relation_facets;
    } =
      ground arith in
    subst IsConsistent (sym gone) (record {
      relations = v.relations;
      entity_facets = v.entity_facets;
      relation_facets =
          All-delete (RelationFacetOk db.relations) (RelationFacetOk db.relations)
            (λ r. r.relation_id == id && same_key r.schema schema) db.relation_facets (λ f e o. o)
            v.relation_facets;
      grants = v.grants;
      grant_schemas = v.grant_schemas;
    })

scope_schema-Keeps :
    (id : ControlGrantId) (db : Db) (schema : SchemaKey) (db' : Db)
    → IsConsistent db
    → insert_scope_schema id db schema ≡ ok db'
    → IsConsistent db'
unfolding insert_scope_schema
scope_schema-Keeps id db schema db' v h = insert_grant_schema-IsConsistent _ db db' v h

-- The statements of `grant_control` that succeed.
pub grant_control-steps :
    (g : ControlGrant) (position : ℕ) (db db' : Db)
    → apply_grant_control g position db ≡ ok db'
    → (through : Option ℕ) × (mid : Db) × (insert_grant_row (grant_row g through position) db
        ≡ ok mid)
      × (fold_result (insert_scope_schema g.id) mid (scope_schemas g.scope) ≡ ok db')
unfolding apply_grant_control
grant_control-steps g position db db' h =
    let rest = λ (db' : Db). fold_result (insert_scope_schema g.id) db' (scope_schemas g.scope) in
    let insert =
      λ (through : Option ℕ). insert_grant_row (grant_row g through position) db >>= rest in
    let bound : (optional_position_to_sql g.valid_through_position >>= insert) ≡ ok db' =
      ground arith in
    let (through, e, h3) =
      >>=-eq-ok (optional_position_to_sql g.valid_through_position) insert bound in
    let (mid, inserted, h4) =
      >>=-eq-ok (insert_grant_row (grant_row g through position) db) rest h3 in
    (through, mid, inserted, h4)

grant_control-Keeps :
    (g : ControlGrant) (position : ℕ) → KeepsConsistency (apply_grant_control g position)
grant_control-Keeps g position db db' v h =
    let (through, mid, inserted, written) = grant_control-steps g position db db' h in
    fold_result-keeps IsConsistent (insert_scope_schema g.id) (scope_schema-Keeps g.id) mid
      (scope_schemas g.scope) db'
      (insert_grant-IsConsistent (grant_row g through position) db mid v inserted) written

revoke_control-Keeps : (id : ControlGrantId) → KeepsConsistency (apply_revoke_control id)
unfolding apply_revoke_control
revoke_control-Keeps id db db' v h =
    subst IsConsistent (ground arith) (delete_grants-IsConsistent (λ r. r.grant_id == id) db v)

-- A mutation that succeeds keeps a consistent current state consistent: what it creates refers to stored entities
-- and relations only, and what it deletes takes everything along that referred to it.
pub apply_mutation-IsConsistent :
    (x : External) (position : ℕ) (db : Db) (m : WorldMutation) {db' : Db}
    → IsConsistent db
    → apply_mutation x position db m ≡ ok db'
    → IsConsistent db'
unfolding apply_mutation
apply_mutation-IsConsistent x position db (create_entity e) {db'} v h =
    create_entity-Keeps e position db db' v h
apply_mutation-IsConsistent x position db (delete_entity id) {db'} v h =
    delete_entity-Keeps id db db' v h
apply_mutation-IsConsistent x position db (create_relation r) {db'} v h =
    create_relation-Keeps r position db db' v h
apply_mutation-IsConsistent x position db (delete_relation id) {db'} v h =
    delete_relation-Keeps id db db' v h
apply_mutation-IsConsistent x position db (set_facet f) {db'} v h =
    set_facet-Keeps x f position db db' v h
apply_mutation-IsConsistent x position db (remove_facet target schema) {db'} v h =
    remove_facet-Keeps target schema db db' v h
apply_mutation-IsConsistent x position db (grant_control g) {db'} v h =
    grant_control-Keeps g position db db' v h
apply_mutation-IsConsistent x position db (revoke_control id) {db'} v h =
    revoke_control-Keeps id db db' v h
