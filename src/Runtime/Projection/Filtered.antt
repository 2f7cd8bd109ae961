-- ===== src/Runtime/Projection/Filtered.antt =====
-- `ServiceWorldProjection::project` of crates/world-runtime/src/projection.rs: what the service of a projection
-- is shown, and what a view is.
use rintawa.Prelude.{
  ℕ, ◌+◌, ◌≡◌, ◌∙◌, ap, subst, inl, inr, Result-cases, holds, holds_iff, &&_parts, String-discrete,
  String, Bool, true, false, not, List, [], ◌∷◌, ◌++◌, length, Option, none, some, ok, map_err,
  >>=-eq-ok, guard->>-eq-ok, leb, arith,
}
use rintawa.World.Ids.{SchemaKey, SchemaKind, SchemaKind-discrete, PrincipalId, Json}
use rintawa.World.State.{EntityRecord, RelationRecord, FacetTarget, FacetRecord}
use rintawa.World.Schema.{SchemaRegistry, SchemaDefinition, validate_payload}
use rintawa.Storage.External.{External}
use rintawa.Storage.Query.{load_entity, load_relation}
use rintawa.Runtime.Systems.{WorldSnapshot}
use rintawa.Runtime.Projection.{
  WorldProjectionReadRequest, read_entity, read_relation, read_facet, can_control,
  WorldProjectionReadResult, entity_value, relation_value, facet_value, control_allowed,
  WorldProjectionServiceResponse, complete, reads, refused, broken, ServiceWorldProjection,
  schema_owned_by, load_schema_definition, is_owned, visible_entity, visible_relation,
  visible_facet, visible_control, resolve_read, validate_diagnostic, Reads, has_seen, continues,
  resolve_reads, accept_reads, is_empty_round, max_world_projection_service_reads, answer,
  call_service, round,
}

module _ (x : External) (snapshot : WorldSnapshot) (owner : String) where
  -- The registry of the snapshot has a definition at the key, of the kind and registered by the owner.
  pub record IsOwned (schema : SchemaKey) (kind : SchemaKind) : Type 0 where
    pub definition : SchemaDefinition
    pub registered : load_schema_definition x snapshot schema ≡ ok (some definition)
    pub of_kind : definition.kind ≡ kind
    pub by_owner : definition.owner ≡ owner

  schema_owned_by-IsOwned :
      (schema : SchemaKey) (kind : SchemaKind)
      → schema_owned_by x snapshot schema owner kind ≡ ok true
      → IsOwned schema kind
  unfolding schema_owned_by
  schema_owned_by-IsOwned schema kind h =
      elim (Result-cases (load_schema_definition x snapshot schema)) [
        | inr (e, failed) ↦ let k = rw (failed, schema_owned_by) at h in absurd (cc)
        | inl (none, found) ↦ let k = rw (found, schema_owned_by) at h in absurd (cc)
        | inl (some d, found) ↦
            let k = rw (found, schema_owned_by) at h in
            let owned : is_owned owner kind (some d) ≡ true = cc in
            let (kinds, owners) =
              &&_parts (holds (SchemaKind-discrete d.kind kind))
                (holds (String-discrete d.owner owner)) owned in
            record {
              definition = d;
              registered = found;
              of_kind = (holds_iff (SchemaKind-discrete d.kind kind)).0 kinds;
              by_owner = (holds_iff (String-discrete d.owner owner)).0 owners;
            }
      ]

  -- A read shows nothing, or what is of a schema that the owner has registered with the right kind.
  unfoldable pub IsVisible : WorldProjectionReadResult → Type 0
  IsVisible (entity_value id none) = Unit
  IsVisible (entity_value id (some e)) = IsOwned e.schema SchemaKind.entity
  IsVisible (relation_value id none) = Unit
  IsVisible (relation_value id (some r)) = IsOwned r.schema SchemaKind.relation
  IsVisible (facet_value target schema none) = Unit
  IsVisible (facet_value target schema (some f)) = IsOwned schema SchemaKind.facet
  IsVisible (control_allowed actor schema false) = Unit
  IsVisible (control_allowed actor schema true) = IsOwned schema SchemaKind.command

  unfoldable pub IsFiltered : List WorldProjectionReadResult → Type 0
  IsFiltered [] = Unit
  IsFiltered (result ∷ rest) = IsVisible result × IsFiltered rest

  IsFiltered-snoc :
      (results : List WorldProjectionReadResult) (result : WorldProjectionReadResult)
      → IsFiltered results
      → IsVisible result
      → IsFiltered (results ++ result ∷ [])
  unfolding IsFiltered
  IsFiltered-snoc [] result p q = (q, tt)
  IsFiltered-snoc (r ∷ rest) result p q = (p.0, IsFiltered-snoc rest result p.1 q)

  entity-IsVisible :
      (id : ℕ) (found value : Option EntityRecord)
      → visible_entity x snapshot owner found ≡ ok value
      → IsVisible (entity_value id value)
  unfolding visible_entity IsVisible
  entity-IsVisible id found none h = tt
  entity-IsVisible id none (some e) h = absurd (cc)
  entity-IsVisible id (some entity) (some e) h =
      let (owned, e1, e2) =
        >>=-eq-ok (schema_owned_by x snapshot entity.schema owner SchemaKind.entity) _ h in
      let is : owned ≡ true = ground arith in
      let shown : entity ≡ e = ground arith in
      subst (λ (r : EntityRecord). IsOwned r.schema SchemaKind.entity) shown
        (schema_owned_by-IsOwned entity.schema SchemaKind.entity (e1 ∙ ap ok is))

  relation-IsVisible :
      (id : ℕ) (found value : Option RelationRecord)
      → visible_relation x snapshot owner found ≡ ok value
      → IsVisible (relation_value id value)
  unfolding visible_relation IsVisible
  relation-IsVisible id found none h = tt
  relation-IsVisible id none (some e) h = absurd (cc)
  relation-IsVisible id (some relation) (some e) h =
      let (owned, e1, e2) =
        >>=-eq-ok (schema_owned_by x snapshot relation.schema owner SchemaKind.relation) _ h in
      let is : owned ≡ true = ground arith in
      let shown : relation ≡ e = ground arith in
      subst (λ (r : RelationRecord). IsOwned r.schema SchemaKind.relation) shown
        (schema_owned_by-IsOwned relation.schema SchemaKind.relation (e1 ∙ ap ok is))

  facet-IsVisible :
      (target : FacetTarget) (schema : SchemaKey) (owned : Bool) (value : Option FacetRecord)
      → schema_owned_by x snapshot schema owner SchemaKind.facet ≡ ok owned
      → visible_facet x snapshot owner target schema owned ≡ ok value
      → IsVisible (facet_value target schema value)
  unfolding visible_facet IsVisible
  facet-IsVisible target schema owned none e h = tt
  facet-IsVisible target schema false (some f) e h = absurd (cc)
  facet-IsVisible target schema true (some f) e h =
      schema_owned_by-IsOwned schema SchemaKind.facet e

  control-IsVisible :
      (principal : PrincipalId) (actor : ℕ) (schema : SchemaKey) (owned allowed : Bool)
      → schema_owned_by x snapshot schema owner SchemaKind.command ≡ ok owned
      → visible_control x snapshot owner principal actor schema owned ≡ ok allowed
      → IsVisible (control_allowed actor schema allowed)
  unfolding visible_control IsVisible
  control-IsVisible principal actor schema owned false e h = tt
  control-IsVisible principal actor schema false true e h = absurd (cc)
  control-IsVisible principal actor schema true true e h =
      schema_owned_by-IsOwned schema SchemaKind.command e

  resolve_read-IsVisible :
      (principal : PrincipalId) (request : WorldProjectionReadRequest)
      (result : WorldProjectionReadResult)
      → resolve_read x snapshot principal owner request ≡ ok result
      → IsVisible result
  unfolding resolve_read
  resolve_read-IsVisible principal (read_entity id) result h =
      let (value, e1, e2) =
        >>=-eq-ok (visible_entity x snapshot owner (load_entity snapshot.database id)) _ h in
      subst IsVisible {x = entity_value id value} {y = result} (cc) (entity-IsVisible id _ value e1)
  resolve_read-IsVisible principal (read_relation id) result h =
      let (value, e1, e2) =
        >>=-eq-ok (visible_relation x snapshot owner (load_relation snapshot.database id)) _ h in
      subst IsVisible {x = relation_value id value} {y = result} (cc)
        (relation-IsVisible id _ value e1)
  resolve_read-IsVisible principal (read_facet target schema) result h =
      let (owned, e0, h1) =
        >>=-eq-ok (schema_owned_by x snapshot schema owner SchemaKind.facet) _ h in
      let (value, e1, e2) = >>=-eq-ok (visible_facet x snapshot owner target schema owned) _ h1 in
      subst IsVisible {x = facet_value target schema value} {y = result} (cc)
        (facet-IsVisible target schema owned value e0 e1)
  resolve_read-IsVisible principal (can_control actor schema) result h =
      let (owned, e0, h1) =
        >>=-eq-ok (schema_owned_by x snapshot schema owner SchemaKind.command) _ h in
      let (value, e1, e2) =
        >>=-eq-ok (visible_control x snapshot owner principal actor schema owned) _ h1 in
      subst IsVisible {x = control_allowed actor schema value} {y = result} (cc)
        (control-IsVisible principal actor schema owned value e0 e1)

module _ (x : External) (projection : ServiceWorldProjection) (snapshot : WorldSnapshot)
    (principal : PrincipalId) where
  resolve_reads-IsFiltered :
      (r : Reads) (requests : List WorldProjectionReadRequest) (r' : Reads)
      → IsFiltered x snapshot projection.projection_owner r.results
      → resolve_reads x projection snapshot principal r requests ≡ ok r'
      → IsFiltered x snapshot projection.projection_owner r'.results
  unfolding resolve_reads
  resolve_reads-IsFiltered r [] r' p h =
      subst (λ (q : Reads). IsFiltered x snapshot projection.projection_owner q.results) {x = r}
        {y = r'} (cc) p
  resolve_reads-IsFiltered r (request ∷ rest) r' p h =
      let (new, more) = guard->>-eq-ok (not (has_seen r.seen request)) _ _ h in
      let (result, resolved, later) =
        >>=-eq-ok (resolve_read x snapshot principal projection.projection_owner request)
          (λ result.
            resolve_reads x projection snapshot principal
              (record { seen = request ∷ r.seen; results = r.results ++ result ∷ [] }) rest)
          more in
      resolve_reads-IsFiltered
        (record { seen = request ∷ r.seen; results = r.results ++ result ∷ [] }) rest r'
        (IsFiltered-snoc x snapshot projection.projection_owner r.results result p (
          resolve_read-IsVisible x snapshot projection.projection_owner principal request result
            resolved))
        later

  answer-IsFiltered :
      (registry : SchemaRegistry) (r : Reads) (response : WorldProjectionServiceResponse)
      (r' : Reads)
      → IsFiltered x snapshot projection.projection_owner r.results
      → answer x projection snapshot principal registry r response ≡ ok (continues r')
      → IsFiltered x snapshot projection.projection_owner r'.results
  unfolding answer accept_reads
  answer-IsFiltered registry r (complete value) r' p h =
      let (valid, e1, e2) =
        >>=-eq-ok
          (map_err _
            (validate_payload registry projection.projection_schema SchemaKind.projection value))
          _ h in
      absurd (cc)
  answer-IsFiltered registry r (refused reason) r' p h =
      let (diagnostic, valid, e) = >>=-eq-ok (validate_diagnostic reason) _ h in absurd (cc)
  answer-IsFiltered registry r (broken reason) r' p h =
      let (diagnostic, valid, e) = >>=-eq-ok (validate_diagnostic reason) _ h in absurd (cc)
  answer-IsFiltered registry r (reads requests) r' p h =
      let (r2, accepted, e) =
        >>=-eq-ok (accept_reads x projection snapshot principal r requests) _ h in
      let (some_, more) = guard->>-eq-ok (not (is_empty_round requests)) _ _ accepted in
      let (fits, run) =
        guard->>-eq-ok (leb (length r.results + length requests) max_world_projection_service_reads)
          _ _ more in
      let same : r2 ≡ r' = cc in resolve_reads-IsFiltered r requests r' p (run ∙ ap ok same)

-- What the service of a projection is shown in its next round is filtered if what it was shown before is:
-- entities, relations, facets and control tests are hidden from it unless the snapshot's registry has a definition
-- of their schema, of the right kind and registered by the projection's owner, whatever the service asks for.
pub round-IsFiltered :
    (x : External) (projection : ServiceWorldProjection) (snapshot : WorldSnapshot)
    (principal : PrincipalId) (input : Json) (registry : SchemaRegistry) (r r' : Reads)
    → IsFiltered x snapshot projection.projection_owner r.results
    → round x projection snapshot principal input registry r ≡ ok (continues r')
    → IsFiltered x snapshot projection.projection_owner r'.results
unfolding round
round-IsFiltered x projection snapshot principal input registry r r' p h =
    let (response, called, answered) =
      >>=-eq-ok (call_service x projection snapshot principal input registry r)
        (answer x projection snapshot principal registry r) h in
    answer-IsFiltered x projection snapshot principal registry r response r' p answered
