-- ===== src/Tests/Mutations.antt =====
-- The theorems about single mutations on the test world.
use rintawa.Prelude.{
  ◌≡◌, refl, none, some, false, ok, [], ◌∷◌, any, count, fold_result, arith, ◌>>=◌, ◌==◌, ◌&&◌,
  ◌||◌,
}
use rintawa.World.Ids.{SchemaKey-discrete, null}
use rintawa.World.Authority.{ControlGrant, exact_schemas, allows}
use rintawa.World.State.{FacetTarget, FacetRecord}
use rintawa.Storage.Codec.{position_to_sql}
use rintawa.Storage.Tables.{Db}
use rintawa.Storage.Statements.{
  insert_grant_row, insert_grant_schema_row, upsert, upsert_entity_facet, touches,
  delete_entity_rows,
}
use rintawa.Storage.Query.{load_entity, load_facet, principal_can_control}
use rintawa.Storage.Mutation.{
  apply_delete_entity, set_payload, apply_set_facet, grant_row, optional_position_to_sql,
  scope_schemas, insert_scope_schema, apply_grant_control,
}
use rintawa.Storage.Mutation.Consistency.{IsConsistent}
use rintawa.Storage.Mutation.Reads.{apply_delete_entity-cascade, apply_set_facet-load_facet}
use rintawa.Storage.Mutation.Grants.{apply_grant_control-allows}
use rintawa.Tests.Worlds.{libraries, key, granted_world, spawned_world}

deletes_5 : apply_delete_entity 5 granted_world ≡ ok (delete_entity_rows 5 granted_world)
unfolding count apply_delete_entity
deletes_5 = refl

apply_delete_entity-cascade_example :
    (load_entity (delete_entity_rows 5 granted_world) 5 ≡ none)
    × (any (touches 5) (delete_entity_rows 5 granted_world).relations ≡ false)
    × (any (λ f. f.entity_id == 5) (delete_entity_rows 5 granted_world).entity_facets ≡ false)
    × (any (λ g. g.actor_entity_id == 5) (delete_entity_rows 5 granted_world).grants ≡ false)
apply_delete_entity-cascade_example =
    apply_delete_entity-cascade 5 granted_world {db' = delete_entity_rows 5 granted_world} deletes_5

abbrev mood : FacetRecord
mood = record { target = FacetTarget.entity 5; schema = key "person"; payload = null }

abbrev moody_world : Db
moody_world = record spawned_world {
  entity_facets =
      record { entity_id = 5; schema = key "person"; payload_json = "null"; updated_position = 1 }
      ∷ [];
}

sets_mood : apply_set_facet libraries mood 1 spawned_world ≡ ok moody_world
unfolding any SchemaKey-discrete upsert upsert_entity_facet set_payload apply_set_facet
sets_mood = refl

apply_set_facet-load_facet_example :
    load_facet libraries moody_world (FacetTarget.entity 5) (key "person") ≡ ok (some mood)
apply_set_facet-load_facet_example =
    apply_set_facet-load_facet libraries mood 1 spawned_world {db' = moody_world} "null" refl refl
      sets_mood

abbrev grant : ControlGrant
grant = record {
  id = 71;
  principal = 9;
  actor_entity = 5;
  scope = exact_schemas (key "spawn" ∷ []);
  valid_through_position = some 4;
}

abbrev controlled_world : Db
controlled_world = record spawned_world {
  grants = grant_row grant (some 4) 1 ∷ [];
  grant_schemas = record { grant_id = 71; schema = key "spawn" } ∷ [];
}

grants_71 : apply_grant_control grant 1 spawned_world ≡ ok controlled_world
unfolding any fold_result SchemaKey-discrete position_to_sql insert_grant_row
    insert_grant_schema_row optional_position_to_sql scope_schemas insert_scope_schema
    apply_grant_control
grants_71 = refl

spawned-IsConsistent : IsConsistent spawned_world
spawned-IsConsistent = record {
  relations = tt;
  entity_facets = tt;
  relation_facets = tt;
  grants = tt;
  grant_schemas = tt;
}

apply_grant_control-allows_example : principal_can_control controlled_world 9 5 (key "spawn") 3 ≡ (
    principal_can_control spawned_world 9 5 (key "spawn") 3 >>= λ before.
    ok (before || (9 == 9 && 5 == 5 && allows grant (key "spawn") 3)))
apply_grant_control-allows_example =
    apply_grant_control-allows grant 1 spawned_world {db' = controlled_world} 9 5 (key "spawn") 3
      spawned-IsConsistent grants_71 (omega arith)
