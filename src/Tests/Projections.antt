-- ===== src/Tests/Projections.antt =====
-- The theorems about projections, on a service that first reads an entity and then answers.
use rintawa.Prelude.{
  ℕ, suc, ◌≡◌, refl, true, some, ok, List, [], ◌∷◌, length, any, find, get, insert, ◌==◌,
}
use rintawa.World.Ids.{SchemaKey-discrete, SchemaKind-discrete, null}
use rintawa.World.Schema
use rintawa.World.Schema.{
  SchemaDefinition, SchemaRegistration, SchemaRegistry, register, require_kind, lookup,
  validate_payload,
}
use rintawa.Storage.Codec.{schema_kind_from_code}
use rintawa.Storage.Query.{load_entity}
use rintawa.Storage.Schemas.{decode_schema, load_schema}
use rintawa.Runtime.Systems.{WorldSnapshot}
use rintawa.Runtime.Projection.{
  read_entity, entity_value, WorldProjectionServiceResponse, complete, reads, ProjectionService,
  Reads, no_reads, WorldProjectionReadRequest-discrete, has_seen, load_schema_definition,
  schema_owned_by, visible_entity, resolve_read, resolve_reads, accept_reads, call_service, answer,
  continues, next_round, round, rounds, project, ServiceWorldProjection, WorldProjectionView,
}
use rintawa.Runtime.Projection.Filtered.{IsFiltered, round-IsFiltered}
use rintawa.Runtime.Projection.View.{IsBound, IsView, project-IsView}
use rintawa.Tests.Worlds.{libraries, key, schema_row, spawned_world}

-- The response to a request that carries the given number of reads.
abbrev reply : List ℕ → WorldProjectionServiceResponse
reply (suc n ∷ rest) = complete null
reply other = reads (read_entity 5 ∷ [])

abbrev service : ProjectionService
service = record {
  request_to_vec = λ request. some (length request.reads ∷ []);
  response_from_slice = λ bytes. some (reply bytes);
  client = λ contract request. ok request;
}

abbrev scene : ServiceWorldProjection
scene = record {
  world_id = spawned_world.world_id;
  projection_schema = key "scene";
  projection_owner = "test";
  contract = record { id = "example:projection"; version = 1 };
  service = service;
}

abbrev snapshot : WorldSnapshot
snapshot = record {
  database = record spawned_world { schemas = schema_row "scene" 7 ∷ spawned_world.schemas };
  position = 1;
}

abbrev one_read : Reads
one_read = record {
  seen = read_entity 5 ∷ [];
  results = entity_value 5 (some (record { id = 5; schema = key "person" })) ∷ [];
}

abbrev view : WorldProjectionView
view = record {
  world_id = spawned_world.world_id;
  snapshot_position = 1;
  schema = key "scene";
  principal = 9;
  value = null;
}

reads_5 : round libraries scene snapshot 9 null Schema.new no_reads ≡ ok (continues one_read)
unfolding any find SchemaKind-discrete WorldProjectionReadRequest-discrete load_entity has_seen
    SchemaKey-discrete load_schema decode_schema schema_kind_from_code load_schema_definition
    schema_owned_by visible_entity resolve_read resolve_reads accept_reads call_service answer round
reads_5 = refl

none_shown : IsFiltered libraries snapshot scene.projection_owner no_reads.results
unfolding IsFiltered
none_shown = tt

round-IsFiltered_example : IsFiltered libraries snapshot scene.projection_owner one_read.results
round-IsFiltered_example =
    round-IsFiltered libraries scene snapshot 9 null Schema.new no_reads one_read none_shown reads_5

projects : project libraries scene snapshot 9 null ≡ ok view
unfolding any find get insert SchemaKind-discrete WorldProjectionReadRequest-discrete load_entity
    has_seen SchemaKey-discrete load_schema decode_schema schema_kind_from_code
    load_schema_definition schema_owned_by visible_entity resolve_read resolve_reads accept_reads
    call_service answer next_round round rounds register lookup require_kind validate_payload
    project
projects = refl

project-IsView_example :
    (snapshot.database.world_id == scene.world_id ≡ true)
    × (definition : SchemaDefinition) × IsBound libraries scene snapshot definition
    × (registry : SchemaRegistry) × (a : SchemaRegistration) × (register libraries.schema Schema.new
          definition
        ≡ ok (registry, a))
    × IsView scene snapshot 9 registry view
project-IsView_example = project-IsView libraries scene snapshot 9 null view projects
