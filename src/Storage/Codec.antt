-- ===== src/Storage/Codec.antt =====
-- crates/storage/src/sqlite/codec.rs and the conversions of commit.rs and query.rs: how values stand in
-- the columns. An INTEGER column is an `i64`.
use rintawa.Prelude.{
  ℕ, zero, suc, String, ◌≡◌, ◌≤◌, Option, none, some, ok, err, ◌>>=◌, leb, if◌then◌else◌, arith,
  ◌==◌,
}
use rintawa.Prelude.Int.{ℤ, pos, negsuc}
use rintawa.World.Ids.{SchemaKind, entity, relation, facet, command, event, effect, projection}
use rintawa.World.Errors.{ActorRef}
use rintawa.World.Command.{CausationRef}
use rintawa.Storage.Errors.{StorageResult, corrupt_data, index_out_of_range}
use rintawa.Storage.External.{ClockReading, since_epoch, before_epoch}

-- `i64::MAX`, `u64::MAX` and `u32::MAX`.
abbrev pub i64_max : ℕ
i64_max = 9223372036854775807

abbrev pub u64_max : ℕ
u64_max = 18446744073709551615

abbrev pub u32_max : ℕ
u32_max = 4294967295

-- `i64::try_from` of a `u64`: the result is not negative.
unfoldable pub position_to_sql : ℕ → StorageResult ℕ
position_to_sql position =
    if leb position i64_max then ok position else err (index_out_of_range "commit_position")

-- `u64::try_from` of an `i64`.
unfoldable pub position_from_sql : ℤ → StorageResult ℕ
position_from_sql (pos n) = ok n
position_from_sql (negsuc n) = err (corrupt_data "negative world commit position")

-- `u32::try_from` of a `usize`, for the index of a row within its commit.
unfoldable pub index_to_sql : String → ℕ → StorageResult ℕ
index_to_sql label index = if leb index u32_max then ok index else err (index_out_of_range label)

unfoldable pub index_from_sql : String → ℕ → StorageResult ℕ
index_from_sql label index = if leb index u32_max then ok index else err (corrupt_data label)

unfoldable pub schema_kind_code : SchemaKind → ℕ
schema_kind_code entity = 1
schema_kind_code relation = 2
schema_kind_code facet = 3
schema_kind_code command = 4
schema_kind_code event = 5
schema_kind_code effect = 6
schema_kind_code projection = 7

unfoldable pub schema_kind_from_code : ℕ → StorageResult SchemaKind
schema_kind_from_code code =
    if code == 1
    then ok entity
    else if code == 2
    then ok relation
    else if code == 3
    then ok facet
    else if code == 4
    then ok command
    else if code == 5
    then ok event
    else if code == 6
    then ok effect
    else if code == 7
    then ok projection
    else err (corrupt_data "unknown schema kind code")

-- The columns `actor_kind` and `actor_id`.
unfoldable pub actor_parts : ActorRef → ℕ × ℕ
actor_parts (ActorRef.principal id) = (1, id)
actor_parts (ActorRef.entity id) = (2, id)

unfoldable pub decode_actor : ℕ → ℕ → StorageResult ActorRef
decode_actor kind id =
    if kind == 1
    then ok (ActorRef.principal id)
    else if kind == 2
    then ok (ActorRef.entity id)
    else err (corrupt_data "unknown actor kind code")

-- The columns `causation_kind` and `causation_id`.
unfoldable pub causation_parts : Option CausationRef → Option ℕ × Option ℕ
causation_parts none = (none, none)
causation_parts (some (CausationRef.command id)) = (some 1, some id)
causation_parts (some (CausationRef.event id)) = (some 2, some id)
causation_parts (some (CausationRef.effect id)) = (some 3, some id)

unfoldable pub decode_causation : Option ℕ → Option ℕ → StorageResult (Option CausationRef)
decode_causation none none = ok none
decode_causation (some code) (some id) =
    if code == 1
    then ok (some (CausationRef.command id))
    else if code == 2
    then ok (some (CausationRef.event id))
    else if code == 3
    then ok (some (CausationRef.effect id))
    else err (corrupt_data "unknown causation kind code")
decode_causation _ _ = err (corrupt_data "causation kind/id presence mismatch")

-- `-millis` of a value that is not negative.
abbrev negate : ℕ → ℤ
negate zero = pos 0
negate (suc n) = negsuc n

unfoldable pub recorded_at_now : ClockReading → StorageResult ℤ
recorded_at_now (since_epoch millis) =
    if leb millis i64_max then ok (pos millis) else err (index_out_of_range "recorded_at_ms")
recorded_at_now (before_epoch millis) =
    if leb millis i64_max then ok (negate millis) else err (index_out_of_range "recorded_at_ms")

-- What is written in the columns is read back: a position in the range of `i64`, a schema kind, an actor and
-- a causation.
pub codec_round_trip :
    (n : ℕ) (k : SchemaKind) (a : ActorRef) (c : Option CausationRef)
    → n ≤ i64_max
    → ((position_to_sql n >>= λ s. position_from_sql (pos s)) ≡ ok n)
      × (schema_kind_from_code (schema_kind_code k) ≡ ok k)
      × (decode_actor (actor_parts a).0 (actor_parts a).1 ≡ ok a)
      × (decode_causation (causation_parts c).0 (causation_parts c).1 ≡ ok c)
unfolding position_to_sql position_from_sql schema_kind_code schema_kind_from_code actor_parts
    decode_actor causation_parts decode_causation
codec_round_trip n k a c h = (ground arith, ground arith, ground arith, ground arith)
