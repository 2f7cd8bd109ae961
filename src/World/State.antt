-- ===== src/World/State.antt =====
-- crates/world/src/state.rs: current-state records and the mutations that change them.
use rintawa.World.Ids.{SchemaKey, EntityId, RelationId, ControlGrantId, Json}
use rintawa.World.Authority.{ControlGrant}

pub record EntityRecord : Type 0 where
  pub id : EntityId
  pub schema : SchemaKey

pub record RelationRecord : Type 0 where
  pub id : RelationId
  pub schema : SchemaKey
  pub from : EntityId
  pub to : EntityId

pub data FacetTarget : Type 0 where
  world : FacetTarget
  entity : EntityId → FacetTarget
  relation : RelationId → FacetTarget

pub record FacetRecord : Type 0 where
  pub target : FacetTarget
  pub schema : SchemaKey
  pub payload : Json

pub data WorldMutation : Type 0 where
  create_entity : EntityRecord → WorldMutation
  delete_entity : EntityId → WorldMutation
  create_relation : RelationRecord → WorldMutation
  delete_relation : RelationId → WorldMutation
  set_facet : FacetRecord → WorldMutation
  remove_facet : FacetTarget → SchemaKey → WorldMutation
  grant_control : ControlGrant → WorldMutation
  revoke_control : ControlGrantId → WorldMutation
