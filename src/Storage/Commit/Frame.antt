-- ===== src/Storage/Commit/Frame.antt =====
-- What a mutation of crates/storage/src/sqlite/commit.rs leaves alone: the log, the outbox, the schemas
-- and the position of the world.
use rintawa.Prelude.{
  ℕ, String, Option, ◌≡◌, ◌∙◌, refl, ok, >>=-eq-ok, ok_or, fold_result-keeps, arith,
}
use rintawa.World.Ids.{SchemaKey, ControlGrantId}
use rintawa.World.Authority.{ControlGrant}
use rintawa.World.State.{
  FacetTarget, FacetRecord, WorldMutation, create_entity, delete_entity, create_relation,
  delete_relation, set_facet, remove_facet, grant_control, revoke_control,
}
use rintawa.Storage.Errors.{json}
use rintawa.Storage.External.{External}
use rintawa.Storage.Tables.{Db}
use rintawa.Storage.Statements.{
  insert_entity_row, insert_relation_row, insert_grant_row, insert_grant_schema_row,
  upsert_world_facet, upsert_entity_facet, upsert_relation_facet, delete_relations, delete_grants,
  delete_entity_rows,
}
use rintawa.Storage.Mutation.{
  grant_row, apply_create_entity, apply_delete_entity, apply_create_relation,
  ensure_relation_endpoint, apply_delete_relation, set_payload, apply_set_facet, apply_remove_facet,
  apply_grant_control, insert_scope_schema, scope_schemas, apply_revoke_control, apply_mutation,
}
use rintawa.Storage.Mutation.Consistency.Keeps.{grant_control-steps}

-- Two databases with the same log.
pub record SameLog (db db' : Db) : Type 0 where
  pub world_id : db'.world_id ≡ db.world_id
  pub position : db'.commit_position ≡ db.commit_position
  pub schemas : db'.schemas ≡ db.schemas
  pub commits : db'.commits ≡ db.commits
  pub mutations : db'.mutations ≡ db.mutations
  pub events : db'.events ≡ db.events
  pub jobs : db'.jobs ≡ db.jobs

pub SameLog-refl : (db : Db) → SameLog db db
SameLog-refl db = record {
  world_id = refl;
  position = refl;
  schemas = refl;
  commits = refl;
  mutations = refl;
  events = refl;
  jobs = refl;
}

pub SameLog-trans : {a b c : Db} → SameLog a b → SameLog b c → SameLog a c
SameLog-trans s t = record {
  world_id = t.world_id ∙ s.world_id;
  position = t.position ∙ s.position;
  schemas = t.schemas ∙ s.schemas;
  commits = t.commits ∙ s.commits;
  mutations = t.mutations ∙ s.mutations;
  events = t.events ∙ s.events;
  jobs = t.jobs ∙ s.jobs;
}

set_payload-SameLog :
    (target : FacetTarget) (schema : SchemaKey) (payload : String) (position : ℕ) (db db' : Db)
    → set_payload target schema payload position db ≡ ok db'
    → SameLog db db'
unfolding set_payload upsert_world_facet upsert_entity_facet upsert_relation_facet
set_payload-SameLog FacetTarget.world schema payload position db db' h = ground arith
set_payload-SameLog (FacetTarget.entity id) schema payload position db db' h = ground arith
set_payload-SameLog (FacetTarget.relation id) schema payload position db db' h = ground arith

scope_schema-SameLog :
    (db0 : Db) (id : ControlGrantId) (db : Db) (schema : SchemaKey) (db' : Db)
    → SameLog db0 db
    → insert_scope_schema id db schema ≡ ok db'
    → SameLog db0 db'
unfolding insert_scope_schema insert_grant_schema_row
scope_schema-SameLog db0 id db schema db' s h = ground arith

insert_grant-SameLog :
    (g : ControlGrant) (through : Option ℕ) (position : ℕ) (db db' : Db)
    → insert_grant_row (grant_row g through position) db ≡ ok db'
    → SameLog db db'
unfolding insert_grant_row
insert_grant-SameLog g through position db db' h = ground arith

grant_control-SameLog :
    (g : ControlGrant) (position : ℕ) (db db' : Db)
    → apply_grant_control g position db ≡ ok db'
    → SameLog db db'
grant_control-SameLog g position db db' h =
    let (through, mid, inserted, written) = grant_control-steps g position db db' h in
    fold_result-keeps (SameLog db) (insert_scope_schema g.id) (scope_schema-SameLog db g.id) mid
      (scope_schemas g.scope) db' (insert_grant-SameLog g through position db mid inserted) written

set_facet-SameLog :
    (x : External) (f : FacetRecord) (position : ℕ) (db db' : Db)
    → apply_set_facet x f position db ≡ ok db'
    → SameLog db db'
unfolding apply_set_facet
set_facet-SameLog x f position db db' h =
    let (payload, e, rest) =
      >>=-eq-ok (ok_or (x.value_to_string f.payload) json)
        (λ payload. set_payload f.target f.schema payload position db) h in
    set_payload-SameLog f.target f.schema payload position db db' rest

remove_facet-SameLog :
    (target : FacetTarget) (schema : SchemaKey) (db db' : Db)
    → apply_remove_facet target schema db ≡ ok db'
    → SameLog db db'
unfolding apply_remove_facet
remove_facet-SameLog FacetTarget.world schema db db' h = ground arith
remove_facet-SameLog (FacetTarget.entity id) schema db db' h = ground arith
remove_facet-SameLog (FacetTarget.relation id) schema db db' h = ground arith

-- A mutation changes the current state and nothing else.
pub apply_mutation-SameLog :
    (x : External) (position : ℕ) (db : Db) (m : WorldMutation) (db' : Db)
    → apply_mutation x position db m ≡ ok db'
    → SameLog db db'
unfolding apply_mutation apply_create_entity insert_entity_row apply_delete_entity
    delete_entity_rows apply_create_relation ensure_relation_endpoint insert_relation_row
    apply_delete_relation delete_relations apply_revoke_control delete_grants
apply_mutation-SameLog x position db (create_entity e) db' h = ground arith
apply_mutation-SameLog x position db (delete_entity id) db' h = ground arith
apply_mutation-SameLog x position db (create_relation r) db' h = ground arith
apply_mutation-SameLog x position db (delete_relation id) db' h = ground arith
apply_mutation-SameLog x position db (set_facet f) db' h = set_facet-SameLog x f position db db' h
apply_mutation-SameLog x position db (remove_facet target schema) db' h =
    remove_facet-SameLog target schema db db' h
apply_mutation-SameLog x position db (grant_control g) db' h =
    grant_control-SameLog g position db db' h
apply_mutation-SameLog x position db (revoke_control id) db' h = ground arith
