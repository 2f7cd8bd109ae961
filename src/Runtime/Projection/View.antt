-- ===== src/Runtime/Projection/View.antt =====
-- `ServiceWorldProjection::project` of crates/world-runtime/src/projection.rs: the view that it returns.
use rintawa.Prelude.{
  ℕ, zero, suc, ◌≡◌, ◌∙◌, refl, ap, subst, String-discrete, true, length, some, ok, ok_or,
  ok_or-eq-ok, map_err-eq-ok, map_err, >>=-eq-ok, guard->>-eq-ok, leb, holds, ◌==◌,
}
use rintawa.World.Ids.{SchemaKind, SchemaKind-discrete, PrincipalId, Json}
use rintawa.World.Schema
use rintawa.World.Schema.{
  SchemaDefinition, SchemaRegistry, SchemaRegistration, register, validate_payload,
}
use rintawa.Storage.External.{External}
use rintawa.Storage.Schemas.{load_schema}
use rintawa.Runtime.Systems.{WorldSnapshot}
use rintawa.Runtime.Projection.{
  invalid_output, schema_unavailable, request_encode, WorldProjectionServiceResponse, complete,
  reads, refused, broken, ServiceWorldProjection, WorldProjectionView, load_schema_definition,
  validate_diagnostic, Reads, no_reads, Round, finished, continues, accept_reads, answer,
  next_round, call_service, round, rounds, project, max_world_projection_service_rounds,
  max_world_projection_input_bytes,
}

-- A view of the snapshot for the principal, valid under a registry.
pub record IsView (projection : ServiceWorldProjection) (snapshot : WorldSnapshot)
    (principal : PrincipalId) (registry : SchemaRegistry) (view : WorldProjectionView)
    : Type 0 where
  pub of_world : view.world_id ≡ snapshot.database.world_id
  pub at_position : view.snapshot_position ≡ snapshot.position
  pub of_schema : view.schema ≡ projection.projection_schema
  pub for_principal : view.principal ≡ principal
  pub valid :
      validate_payload registry projection.projection_schema SchemaKind.projection view.value
      ≡ ok tt

module _ (x : External) (projection : ServiceWorldProjection) (snapshot : WorldSnapshot)
    (principal : PrincipalId) (registry : SchemaRegistry) where
  unfoldable ViewOf : Round → Type 0
  ViewOf (finished view) = IsView projection snapshot principal registry view
  ViewOf (continues r) = Unit

  answer-ViewOf :
      (r : Reads) (response : WorldProjectionServiceResponse) (result : Round)
      → answer x projection snapshot principal registry r response ≡ ok result
      → ViewOf result
  unfolding answer ViewOf
  answer-ViewOf r (complete value) result h =
      let (done, checked, e) =
        >>=-eq-ok
          (map_err invalid_output
            (validate_payload registry projection.projection_schema SchemaKind.projection value))
          _ h in
      let view : WorldProjectionView = record {
        world_id = snapshot.database.world_id;
        snapshot_position = snapshot.position;
        schema = projection.projection_schema;
        principal = principal;
        value = value;
      } in
      subst ViewOf {x = finished view} {y = result} (cc) (record {
        of_world = refl;
        at_position = refl;
        of_schema = refl;
        for_principal = refl;
        valid = map_err-eq-ok invalid_output _ checked;
      })
  answer-ViewOf r (refused reason) result h =
      let (diagnostic, valid, e) = >>=-eq-ok (validate_diagnostic reason) _ h in absurd (cc)
  answer-ViewOf r (broken reason) result h =
      let (diagnostic, valid, e) = >>=-eq-ok (validate_diagnostic reason) _ h in absurd (cc)
  answer-ViewOf r (reads requests) result h =
      let (r', accepted, e) =
        >>=-eq-ok (accept_reads x projection snapshot principal r requests) _ h in
      subst ViewOf {x = continues r'} {y = result} (cc) tt

  module _ (input : Json) where
    next_round-IsView :
        (n : ℕ) (result : Round) (view : WorldProjectionView)
        → ((r : Reads)
            → rounds x projection snapshot principal input registry n r ≡ ok view
            → IsView projection snapshot principal registry view)
        → ViewOf result
        → next_round (rounds x projection snapshot principal input registry n) result ≡ ok view
        → IsView projection snapshot principal registry view
    unfolding next_round ViewOf
    next_round-IsView n (finished v) view later p h =
        subst ViewOf {x = finished v} {y = finished view} (cc) p
    next_round-IsView n (continues r) view later p h = later r h

    rounds-IsView :
        (n : ℕ) (r : Reads) (view : WorldProjectionView)
        → rounds x projection snapshot principal input registry n r ≡ ok view
        → IsView projection snapshot principal registry view
    unfolding rounds round
    rounds-IsView zero r view h = absurd (cc)
    rounds-IsView (suc n) r view h =
        let (result, one, more) =
          >>=-eq-ok (round x projection snapshot principal input registry r)
            (next_round (rounds x projection snapshot principal input registry n)) h in
        let (response, called, answered) =
          >>=-eq-ok (call_service x projection snapshot principal input registry r)
            (answer x projection snapshot principal registry r) one in
        next_round-IsView n result view (λ r. rounds-IsView n r view)
          (answer-ViewOf r response result answered) more

-- The schema of a projection: stored in the snapshot, of the right kind and owner.
pub record IsBound (x : External) (projection : ServiceWorldProjection) (snapshot : WorldSnapshot)
    (definition : SchemaDefinition) : Type 0 where
  pub loaded : load_schema x snapshot.database projection.projection_schema ≡ ok (some definition)
  pub of_kind : holds (SchemaKind-discrete definition.kind SchemaKind.projection) ≡ true
  pub of_owner : holds (String-discrete definition.owner projection.projection_owner) ≡ true

-- A projection that returns a view was bound to the snapshot's world, its schema is stored in the snapshot with
-- the kind of projections and the bound owner, and the view is of the snapshot's position and for the given
-- principal, with a value that this schema validates.
pub project-IsView :
    (x : External) (projection : ServiceWorldProjection) (snapshot : WorldSnapshot)
    (principal : PrincipalId) (input : Json) (view : WorldProjectionView)
    → project x projection snapshot principal input ≡ ok view
    → (snapshot.database.world_id == projection.world_id ≡ true)
      × (definition : SchemaDefinition) × IsBound x projection snapshot definition
      × (registry : SchemaRegistry) × (a : SchemaRegistration) × (register x.schema Schema.new
            definition
          ≡ ok (registry, a))
      × IsView projection snapshot principal registry view
unfolding project load_schema_definition
project-IsView x projection snapshot principal input view h =
    let (here, h1) = guard->>-eq-ok (snapshot.database.world_id == projection.world_id) _ _ h in
    let (loaded, e1, h2) =
      >>=-eq-ok (load_schema_definition x snapshot projection.projection_schema) _ h1 in
    let (definition, e2, h3) =
      >>=-eq-ok (ok_or loaded (schema_unavailable projection.projection_schema)) _ h2 in
    let (kind, h4) =
      guard->>-eq-ok (holds (SchemaKind-discrete definition.kind SchemaKind.projection)) _ _ h3 in
    let (owner, h5) =
      guard->>-eq-ok (holds (String-discrete definition.owner projection.projection_owner)) _ _
        h4 in
    let (bytes, e3, h6) = >>=-eq-ok (ok_or (x.value_to_vec input) request_encode) _ h5 in
    let (small, h7) = guard->>-eq-ok (leb (length bytes) max_world_projection_input_bytes) _ _ h6 in
    let ((registry, a), e4, h8) =
      >>=-eq-ok (map_err invalid_output (register x.schema Schema.new definition)) _ h7 in
    let found = map_err-eq-ok _ (load_schema x snapshot.database projection.projection_schema) e1 in
    let bound : IsBound x projection snapshot definition = record {
      loaded = found ∙ ap ok (ok_or-eq-ok loaded _ e2);
      of_kind = kind;
      of_owner = owner;
    } in
    (
      here,
      definition,
      bound,
      registry,
      a,
      map_err-eq-ok invalid_output _ e4,
      rounds-IsView x projection snapshot principal registry input
          max_world_projection_service_rounds no_reads view h8,
    )
