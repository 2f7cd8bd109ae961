-- ===== src/Storage/Mutation/Control.antt =====
-- Control over entities (`principal_can_control` of crates/storage/src/sqlite/query.rs) under the mutations
-- of commit.rs.
use rintawa.Prelude.{
  ℕ, String, ◌≡◌, Bool, true, false, ◌&&◌, List, any, any_mono, any-of_delete, delete_where, ok,
  >>=-eq-ok, ok_or, ◌==◌, arith,
}
use rintawa.World.Ids.{PrincipalId, EntityId, SchemaKey}
use rintawa.World.State.{
  FacetTarget, FacetRecord, WorldMutation, create_entity, delete_entity, create_relation,
  delete_relation, set_facet, remove_facet, grant_control, revoke_control,
}
use rintawa.Storage.Errors.{json}
use rintawa.Storage.External.{External}
use rintawa.Storage.Codec.{position_to_sql}
use rintawa.Storage.Tables.{Db, GrantRow, GrantSchemaRow, same_key}
use rintawa.Storage.Statements.{
  insert_entity_row, insert_relation_row, upsert_world_facet, upsert_entity_facet,
  upsert_relation_facet, delete_relations, delete_grants, delete_entity_rows,
}
use rintawa.Storage.Query.{grant_matches, principal_can_control}
use rintawa.Storage.Mutation.{
  apply_create_entity, apply_delete_entity, apply_create_relation, ensure_relation_endpoint,
  apply_delete_relation, set_payload, apply_set_facet, apply_remove_facet, apply_revoke_control,
  apply_mutation,
}

-- No principal controls more in `db'` than in `db`.
abbrev pub Narrows : Db → Db → Type 0
Narrows db db' =
    (p : PrincipalId) (a : EntityId) (s : SchemaKey) (position : ℕ)
    → principal_can_control db' p a s position ≡ ok true
    → principal_can_control db p a s position ≡ ok true

pub Narrows-trans : (a b c : Db) → Narrows a b → Narrows b c → Narrows a c
Narrows-trans a b c f g p e s position h = f p e s position (g p e s position h)

-- With the same grants.
pub same_grants :
    (db db' : Db) → db'.grants ≡ db.grants → db'.grant_schemas ≡ db.grant_schemas → Narrows db db'
unfolding principal_can_control
same_grants db db' e f p a s position h = rw (e, f) at h

-- A grant that matches still matches where the schemas of exact grants are more.
matches_mono :
    (doomed : GrantSchemaRow → Bool) (schemas : List GrantSchemaRow) (p : PrincipalId)
    (a : EntityId) (s : SchemaKey) (position : ℕ) (g : GrantRow)
    → grant_matches (delete_where doomed schemas) p a s position g ≡ true
    → grant_matches schemas p a s position g ≡ true
unfolding grant_matches
matches_mono doomed schemas p a s position g h =
    let fewer =
      any-of_delete (λ r. r.grant_id == g.grant_id && same_key r.schema s) doomed schemas in
    ground (arith, fewer)

deleted_grants :
    (doomed : GrantRow → Bool) (gone : GrantSchemaRow → Bool) (db db' : Db)
    → db'.grants ≡ delete_where doomed db.grants
    → db'.grant_schemas ≡ delete_where gone db.grant_schemas
    → Narrows db db'
unfolding principal_can_control position_to_sql
deleted_grants doomed gone db db' e f p a s position h =
    let found : any (grant_matches db'.grant_schemas p a s position) db'.grants ≡ true =
      ground arith in
    let fewer =
      any-of_delete (grant_matches (delete_where gone db.grant_schemas) p a s position) doomed
        db.grants (rw (e, f) at found) in
    let all_schemas =
      any_mono (grant_matches (delete_where gone db.grant_schemas) p a s position)
        (grant_matches db.grant_schemas p a s position) db.grants
        (matches_mono gone db.grant_schemas p a s position) fewer in
    ground arith

delete_entity-Narrows :
    (id : EntityId) (db db' : Db) → apply_delete_entity id db ≡ ok db' → Narrows db db'
unfolding apply_delete_entity delete_entity_rows
delete_entity-Narrows id db db' h =
    deleted_grants (λ g. g.actor_entity_id == id)
      (λ s. any (λ g. (g.actor_entity_id == id) && g.grant_id == s.grant_id) db.grants) db db'
      (ground arith) (ground arith)

revoke_control-Narrows :
    (id : ℕ) (db db' : Db) → apply_revoke_control id db ≡ ok db' → Narrows db db'
unfolding apply_revoke_control delete_grants
revoke_control-Narrows id db db' h =
    deleted_grants (λ g. g.grant_id == id)
      (λ s. any (λ g. (g.grant_id == id) && g.grant_id == s.grant_id) db.grants) db db'
      (ground arith) (ground arith)

set_payload-Narrows :
    (target : FacetTarget) (schema : SchemaKey) (payload : String) (position : ℕ) (db db' : Db)
    → set_payload target schema payload position db ≡ ok db'
    → Narrows db db'
unfolding set_payload upsert_world_facet upsert_entity_facet upsert_relation_facet
set_payload-Narrows FacetTarget.world schema payload position db db' h =
    same_grants db db' (ground arith) (ground arith)
set_payload-Narrows (FacetTarget.entity id) schema payload position db db' h =
    same_grants db db' (ground arith) (ground arith)
set_payload-Narrows (FacetTarget.relation id) schema payload position db db' h =
    same_grants db db' (ground arith) (ground arith)

set_facet-Narrows :
    (x : External) (f : FacetRecord) (position : ℕ) (db db' : Db)
    → apply_set_facet x f position db ≡ ok db'
    → Narrows db db'
unfolding apply_set_facet
set_facet-Narrows x f position db db' h =
    let (payload, e, rest) =
      >>=-eq-ok (ok_or (x.value_to_string f.payload) json)
        (λ payload. set_payload f.target f.schema payload position db) h in
    set_payload-Narrows f.target f.schema payload position db db' rest

remove_facet-Narrows :
    (target : FacetTarget) (schema : SchemaKey) (db db' : Db)
    → apply_remove_facet target schema db ≡ ok db'
    → Narrows db db'
unfolding apply_remove_facet
remove_facet-Narrows FacetTarget.world schema db db' h =
    same_grants db db' (ground arith) (ground arith)
remove_facet-Narrows (FacetTarget.entity id) schema db db' h =
    same_grants db db' (ground arith) (ground arith)
remove_facet-Narrows (FacetTarget.relation id) schema db db' h =
    same_grants db db' (ground arith) (ground arith)

-- A mutation that grants.
abbrev pub grants_control : WorldMutation → Bool
grants_control (grant_control g) = true
grants_control m = false

-- Only a mutation that grants control lets a principal control more than before: what a principal controls
-- after any other that succeeds, the deletion of an entity and the revocation of a grant included, it
-- controlled before, for every command schema and at every position.
pub apply_mutation-Narrows :
    (x : External) (position : ℕ) (db : Db) (m : WorldMutation) {db' : Db}
    → grants_control m ≡ false
    → apply_mutation x position db m ≡ ok db'
    → (p : PrincipalId) (a : EntityId) (s : SchemaKey) (at : ℕ)
    → principal_can_control db' p a s at ≡ ok true
    → principal_can_control db p a s at ≡ ok true
unfolding apply_mutation apply_create_entity insert_entity_row apply_create_relation
    ensure_relation_endpoint insert_relation_row apply_delete_relation delete_relations
apply_mutation-Narrows x position db (create_entity e) {db'} n h =
    same_grants db db' (ground arith) (ground arith)
apply_mutation-Narrows x position db (delete_entity id) {db'} n h =
    delete_entity-Narrows id db db' h
apply_mutation-Narrows x position db (create_relation r) {db'} n h =
    same_grants db db' (ground arith) (ground arith)
apply_mutation-Narrows x position db (delete_relation id) {db'} n h =
    same_grants db db' (ground arith) (ground arith)
apply_mutation-Narrows x position db (set_facet f) {db'} n h =
    set_facet-Narrows x f position db db' h
apply_mutation-Narrows x position db (remove_facet target schema) {db'} n h =
    remove_facet-Narrows target schema db db' h
apply_mutation-Narrows x position db (grant_control g) {db'} n h = absurd (ground arith)
apply_mutation-Narrows x position db (revoke_control id) {db'} n h =
    revoke_control-Narrows id db db' h
