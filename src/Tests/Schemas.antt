-- ===== src/Tests/Schemas.antt =====
-- The theorems about transactions, columns and responses on concrete values.
use rintawa.Prelude.{◌≡◌, ◌↔◌, some, ok, ◌>>=◌, arith}
use rintawa.Prelude.Int.{pos}
use rintawa.World.Ids.{SchemaKind}
use rintawa.World.Errors.{ActorRef}
use rintawa.World.Command.{CausationRef}
use rintawa.World.Transaction.{validate_schemas}
use rintawa.World.Transaction.Admission.{IsAdmissible, validate_schemas_iff}
use rintawa.Storage.Codec.{
  position_to_sql, position_from_sql, schema_kind_code, schema_kind_from_code, actor_parts,
  decode_actor, causation_parts, decode_causation, codec_round_trip,
}
use rintawa.Runtime.Effect.{validate_response, complete}
use rintawa.Runtime.Effect.FollowUp.{IsTied, validate_response_iff}
use rintawa.Tests.Worlds.{one_schema, spawning, spawn_claim, follow_up}

validate_schemas_iff_example :
    (validate_schemas spawning one_schema ≡ ok tt) ↔ IsAdmissible one_schema spawning
validate_schemas_iff_example = validate_schemas_iff spawning one_schema

codec_round_trip_example :
    ((position_to_sql 12 >>= λ s. position_from_sql (pos s)) ≡ ok 12)
    × (schema_kind_from_code (schema_kind_code SchemaKind.event) ≡ ok SchemaKind.event)
    × (decode_actor (actor_parts (ActorRef.entity 5)).0 (actor_parts (ActorRef.entity 5)).1
        ≡ ok (ActorRef.entity 5))
    × (decode_causation
          (causation_parts (some (CausationRef.effect 6))).0
          (causation_parts (some (CausationRef.effect 6))).1
        ≡ ok (some (CausationRef.effect 6)))
codec_round_trip_example =
    codec_round_trip 12 SchemaKind.event (ActorRef.entity 5) (some (CausationRef.effect 6))
      (omega arith)

validate_response_iff_example :
    (validate_response spawn_claim.job (complete (some follow_up)) ≡ ok tt)
    ↔ IsTied spawn_claim.job (complete (some follow_up))
validate_response_iff_example = validate_response_iff spawn_claim.job (complete (some follow_up))
