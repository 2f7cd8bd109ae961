-- ===== src/Storage/Query.antt =====
-- crates/storage/src/sqlite/query.rs: the reads of current state, of the event log and of effect jobs.
use rintawa.Prelude.{
  ℕ, String, Bool, true, ◌&&◌, ◌||◌, List, [], ◌∷◌, ◌++◌, map, Option, none, some, ok, err, ◌>>=◌,
  ◌>>◌, guard, ok_or, any, select, find, take, ltb, leb, ◌==◌, if◌then◌else◌, order_by,
  collect_results,
}
use Prim.Native.Nat.{min}
use rintawa.Prelude.Int.{pos}
use rintawa.World.Ids.{WorldId, EntityId, RelationId, PrincipalId, EffectJobId, SchemaKey}
use rintawa.World.State.{EntityRecord, RelationRecord, FacetTarget, FacetRecord}
use rintawa.World.Transaction.{
  CommandProvenance, StoredWorldMutation, StoredWorldEvent, StoredEffectJob,
  world_mutation_format_version,
}
use rintawa.Storage.Errors.{StorageResult, json, unsupported_mutation_format, index_out_of_range}
use rintawa.Storage.External.{External}
use rintawa.Storage.Codec.{
  i64_max, position_to_sql, position_from_sql, index_from_sql, decode_actor, decode_causation,
}
use rintawa.Storage.Tables.{
  Db, CommitRow, GrantRow, GrantSchemaRow, MutationRow, EventRow, JobRow, same_key,
}

abbrev pub max_read_batch : ℕ
max_read_batch = 1024

unfoldable pub load_entity : Db → EntityId → Option EntityRecord
load_entity db id = elim (find (λ r. r.entity_id == id) db.entities) [
  | none ↦ none
  | some r ↦ some (record { id = r.entity_id; schema = r.schema })
]

unfoldable pub load_relation : Db → RelationId → Option RelationRecord
load_relation db id = elim (find (λ r. r.relation_id == id) db.relations) [
  | none ↦ none
  | some r ↦ some (record {
    id = r.relation_id;
    schema = r.schema;
    from = r.from_entity_id;
    to = r.to_entity_id;
  })
]

-- The `payload_json` column that `load_facet` selects.
unfoldable pub facet_payload : Db → FacetTarget → SchemaKey → Option String
facet_payload db FacetTarget.world schema =
    elim (find (λ r. same_key r.schema schema) db.world_facets) [
      | none ↦ none
      | some r ↦ some r.payload_json
    ]
facet_payload db (FacetTarget.entity id) schema =
    elim (find (λ r. r.entity_id == id && same_key r.schema schema) db.entity_facets) [
      | none ↦ none
      | some r ↦ some r.payload_json
    ]
facet_payload db (FacetTarget.relation id) schema =
    elim (find (λ r. r.relation_id == id && same_key r.schema schema) db.relation_facets) [
      | none ↦ none
      | some r ↦ some r.payload_json
    ]

unfoldable pub load_facet :
    External → Db → FacetTarget → SchemaKey → StorageResult (Option FacetRecord)
load_facet x db target schema = elim (facet_payload db target schema) [
  | none ↦ ok none
  | some text ↦ do
    payload ← ok_or (x.value_from_str text) json
    ok (some (record { target = target; schema = schema; payload = payload }))
]

-- `valid_through_position IS NULL OR valid_through_position >= ?3`.
abbrev pub is_current : Option ℕ → ℕ → Bool
is_current none position = true
is_current (some valid_through) position = leb position valid_through

-- The WHERE clause of the query for a grant; its inner EXISTS goes over the schemas of exact grants.
unfoldable pub grant_matches :
    List GrantSchemaRow → PrincipalId → EntityId → SchemaKey → ℕ → GrantRow → Bool
grant_matches schemas principal actor_entity command_schema position g =
    g.principal_id == principal
    && g.actor_entity_id == actor_entity
    && is_current g.valid_through_position position
    && (g.scope_kind == 1
        || (g.scope_kind == 2
            && any (λ s. s.grant_id == g.grant_id && same_key s.schema command_schema) schemas))

unfoldable pub principal_can_control :
    Db → PrincipalId → EntityId → SchemaKey → ℕ → StorageResult Bool
principal_can_control db principal actor_entity command_schema position = do
  position_sql ← position_to_sql position
  ok (
      any (grant_matches db.grant_schemas principal actor_entity command_schema position_sql)
        db.grants)

unfoldable pub bounded_limit : ℕ → ℕ
bounded_limit limit = min limit max_read_batch

unfoldable pub limit_to_sql : ℕ → StorageResult ℕ
limit_to_sql limit = if leb limit i64_max then ok limit else err (index_out_of_range "query limit")

unfoldable pub decode_mutation : External → MutationRow → StorageResult StoredWorldMutation
decode_mutation x row = do
  guard (row.format_version == world_mutation_format_version)
      (unsupported_mutation_format row.format_version world_mutation_format_version)
  mutation ← ok_or (x.mutation_from_str row.mutation_json) json
  position ← position_from_sql (pos row.commit_position)
  index ← index_from_sql "mutation_index" row.mutation_index
  ok (record {
    commit_position = position;
    mutation_index = index;
    format_version = row.format_version;
    mutation = mutation;
  })

unfoldable pub mutations_after : External → Db → ℕ → ℕ → StorageResult (List StoredWorldMutation)
mutations_after x db position limit = if bounded_limit limit == 0 then ok [] else do
  position_sql ← position_to_sql position
  limit_sql ← limit_to_sql (bounded_limit limit)
  collect_results (decode_mutation x) (
      take limit_sql (
        order_by (λ r. (r.commit_position, r.mutation_index))
          (select (λ r. ltb position_sql r.commit_position) db.mutations)))

-- `JOIN world_commits c ON c.commit_position = row.commit_position`.
unfoldable pub join_commits {ℓ} :
    {A : Type ℓ} → (A → ℕ) → List CommitRow → List A → List (A × CommitRow)
join_commits position commits [] = []
join_commits position commits (r ∷ rows) =
    map (λ c. (r, c)) (select (λ c. c.commit_position == position r) commits)
    ++ join_commits position commits rows

unfoldable pub decode_provenance : CommitRow → StorageResult CommandProvenance
decode_provenance c = do
  actor ← decode_actor c.actor_kind c.actor_id
  causation ← decode_causation c.causation_kind c.causation_id
  ok (record {
    command_id = c.command_id;
    command_schema = c.command_schema;
    principal = c.principal_id;
    actor = actor;
    causation = causation;
    correlation_id = c.correlation_id;
    effective_at = c.effective_at_ms;
    recorded_at = c.recorded_at_ms;
  })

unfoldable pub decode_event :
    External → WorldId → EventRow × CommitRow → StorageResult StoredWorldEvent
decode_event x world_id (e, c) = do
  position ← position_from_sql (pos e.commit_position)
  index ← index_from_sql "event_index" e.event_index
  provenance ← decode_provenance c
  payload ← ok_or (x.value_from_str e.payload_json) json
  ok (record {
    world_id = world_id;
    id = e.event_id;
    commit_position = position;
    event_index = index;
    provenance = provenance;
    schema = e.schema;
    payload = payload;
  })

abbrev pub event_key : EventRow × CommitRow → ℕ × ℕ
event_key r = (r.0.commit_position, r.0.event_index)

unfoldable pub events_at_position : External → Db → ℕ → StorageResult (List StoredWorldEvent)
events_at_position x db position = do
  position_sql ← position_to_sql position
  collect_results (decode_event x db.world_id) (
      order_by (λ r. (0, r.0.event_index))
        (select (λ r. r.0.commit_position == position_sql)
          (join_commits (λ e. e.commit_position) db.commits db.events)))

unfoldable pub events_after : External → Db → ℕ → ℕ → StorageResult (List StoredWorldEvent)
events_after x db position limit = if bounded_limit limit == 0 then ok [] else do
  position_sql ← position_to_sql position
  limit_sql ← limit_to_sql (bounded_limit limit)
  collect_results (decode_event x db.world_id) (
      take limit_sql (
        order_by event_key (
          select (λ r. ltb position_sql r.0.commit_position)
            (join_commits (λ e. e.commit_position) db.commits db.events))))

unfoldable pub decode_job : External → WorldId → JobRow × CommitRow → StorageResult StoredEffectJob
decode_job x world_id (j, c) = do
  position ← position_from_sql (pos j.commit_position)
  index ← index_from_sql "job_index" j.job_index
  provenance ← decode_provenance c
  payload ← ok_or (x.value_from_str j.payload_json) json
  attempt_count ← index_from_sql "attempt_count" j.attempt_count
  ok (record {
    world_id = world_id;
    id = j.job_id;
    commit_position = position;
    job_index = index;
    provenance = provenance;
    schema = j.schema;
    payload = payload;
    attempt_count = attempt_count;
  })

-- `row.map(decode).transpose()`.
abbrev pub decode_found :
    External → WorldId → Option (JobRow × CommitRow) → StorageResult (Option StoredEffectJob)
decode_found x world_id none = ok none
decode_found x world_id (some row) = do job ← decode_job x world_id row; ok (some job)

unfoldable pub effect_job_by_id :
    External → Db → EffectJobId → StorageResult (Option StoredEffectJob)
effect_job_by_id x db id =
    decode_found x db.world_id
      (find (λ r. r.0.job_id == id) (join_commits (λ j. j.commit_position) db.commits db.jobs))

abbrev pub job_key : JobRow × CommitRow → ℕ × ℕ
job_key r = (r.0.commit_position, r.0.job_index)

unfoldable pub pending_effects : External → Db → ℕ → StorageResult (List StoredEffectJob)
pending_effects x db limit = if bounded_limit limit == 0 then ok [] else do
  limit_sql ← limit_to_sql (bounded_limit limit)
  collect_results (decode_job x db.world_id) (
      take limit_sql (
        order_by job_key (
          select (λ r. r.0.status == 0)
            (join_commits (λ j. j.commit_position) db.commits db.jobs))))
