-- ===== src/Tests/Worlds.antt =====
-- A world database with a schema of each kind that a commit uses, and libraries that print every value alike and
-- digest a command by its payload.
use rintawa.Prelude.{ℕ, String, List, [], ◌∷◌, none, some, ok, true}
use rintawa.Prelude.Int.{pos}
use rintawa.World.Ids.{SchemaKey, SchemaKind, Json, null}
use rintawa.World.Errors.{ActorRef}
use rintawa.World.Schema.{SchemaDefinition, SchemaRegistry}
use rintawa.World.Authority.{any_command}
use rintawa.World.State.{create_entity}
use rintawa.World.Command.{WorldCommand, CausationRef}
use rintawa.World.Transaction.{WorldTransaction, CommitReceipt, committed, CommandProvenance}
use rintawa.Storage.Outbox.{ClaimedEffectJob}
use rintawa.Runtime.Systems.{Systems, ordinary, returned}
use rintawa.Runtime.Commands.{WorldCommandOutcome}
use rintawa.Runtime.Queue.{WorldRuntime}
use rintawa.Runtime.Effect.{EffectCodec, ServiceWorldEffectHandler, complete}
use rintawa.Storage.Commit.{commit_row, mutation_row, event_row, job_row}
use rintawa.Storage.Mutation.{entity_row, grant_row}
use rintawa.Storage.External.{External, ClockReading, since_epoch}
use rintawa.Storage.Tables.{Db, SchemaRow}

-- The bytes of a command's payload: none of null, one of any other value.
abbrev payload_bytes : Json → List ℕ
payload_bytes null = []
payload_bytes v = 1 ∷ []

abbrev digest_of : List ℕ → ℕ
digest_of [] = 77
digest_of (b ∷ bytes) = 78

-- Every schema compiles to the validator that accepts everything.
abbrev pub libraries : External
libraries = record {
  schema = record { validator_for = λ d. ok (λ v. none) };
  value_to_string = λ v. some "null";
  value_from_str = λ s. some null;
  mutation_to_string = λ m. some "mutation";
  mutation_from_str = λ s. none;
  command_to_value = λ c. some c.payload;
  value_to_vec = λ v. some (payload_bytes v);
  sha256 = digest_of;
}

abbrev pub key : String → SchemaKey
key id = record { id = id; version = 1 }

abbrev pub schema_row : String → ℕ → SchemaRow
schema_row id kind = record {
  key = key id;
  kind = kind;
  owner_extension_id = "test";
  definition_json = "{}";
}

abbrev pub empty_world : Db
empty_world = record {
  world_id = 1;
  world_format_version = 1;
  commit_position = 0;
  schemas =
      schema_row "spawn" 4
      ∷ schema_row "person" 1
      ∷ schema_row "spawned" 5
      ∷ schema_row "notify" 6
      ∷ [];
  commits = [];
  entities = [];
  grants = [];
  grant_schemas = [];
  relations = [];
  world_facets = [];
  entity_facets = [];
  relation_facets = [];
  mutations = [];
  events = [];
  jobs = [];
}

-- The principal 9 spawns the entity 5; the event 30 and the effect job 40 go with it.
abbrev pub spawn : WorldCommand
spawn = record {
  id = 20;
  schema = key "spawn";
  principal = 9;
  actor = ActorRef.principal 9;
  expected_position = some 0;
  causation = none;
  correlation_id = 8;
  effective_at = none;
  payload = null;
}

abbrev pub spawning : WorldTransaction
spawning = record {
  mutations = create_entity (record { id = 5; schema = key "person" }) ∷ [];
  events = record { id = 30; schema = key "spawned"; payload = null } ∷ [];
  effects = record { id = 40; schema = key "notify"; payload = null } ∷ [];
}

abbrev pub noon : ClockReading
noon = since_epoch 1000

-- What is stored after that commit.
abbrev pub spawned_world : Db
spawned_world = record empty_world {
  commit_position = 1;
  commits = commit_row spawn 77 1 (some 0) (pos 1000) "null" ∷ [];
  entities = entity_row (record { id = 5; schema = key "person" }) 1 ∷ [];
  mutations = mutation_row 1 0 "mutation" ∷ [];
  events = event_row 1 0 (record { id = 30; schema = key "spawned"; payload = null }) "null" ∷ [];
  jobs = job_row 1 0 (record { id = 40; schema = key "notify"; payload = null }) "null" ∷ [];
}

abbrev pub spawn_receipt : CommitReceipt
spawn_receipt = record {
  disposition = committed;
  command_id = 20;
  position = 1;
  event_ids = 30 ∷ [];
  effect_job_ids = 40 ∷ [];
}

-- After a claim of the effect job, with a lease from 50 to 90.
abbrev pub claimed_world : Db
claimed_world = record spawned_world {
  jobs =
      record (job_row 1 0 (record { id = 40; schema = key "notify"; payload = null }) "null") {
        status = 1;
        attempt_count = 1;
        lease_expires_at_ms = some (pos 90);
      }
      ∷ [];
}

abbrev pub spawn_provenance : CommandProvenance
spawn_provenance = record {
  command_id = 20;
  command_schema = key "spawn";
  principal = 9;
  actor = ActorRef.principal 9;
  causation = none;
  correlation_id = 8;
  effective_at = none;
  recorded_at = pos 1000;
}

abbrev pub spawn_claim : ClaimedEffectJob
spawn_claim = record {
  job = record {
    world_id = 1;
    id = 40;
    commit_position = 1;
    job_index = 0;
    provenance = spawn_provenance;
    schema = key "notify";
    payload = null;
    attempt_count = 1;
  };
  lease_expires_at = pos 90;
}

-- The System that answers with the transaction above, without a privilege.
abbrev pub systems : Systems
systems =
    (
      key "spawn",
      record {
        system = record {
          command_schema = key "spawn";
          evaluate = λ snapshot command. returned (ok spawning);
        };
        privileges = ordinary;
      },
    )
    ∷ []

abbrev pub spawn_outcome : WorldCommandOutcome
spawn_outcome = record {
  receipt = spawn_receipt;
  committed_events =
      record {
        world_id = 1;
        id = 30;
        commit_position = 1;
        event_index = 0;
        provenance = spawn_provenance;
        schema = key "spawned";
        payload = null;
      }
      ∷ [];
}

-- The runtime of the world with room for two commands, and after one submission and one turn.
abbrev pub idle : WorldRuntime
idle = record {
  database = empty_world;
  systems = systems;
  capacity = 2;
  accepting = true;
  queue = [];
  next_response = 0;
  answers = [];
}

abbrev pub busy : WorldRuntime
busy = record idle { queue = record { command = spawn; response = 0 } ∷ []; next_response = 1 }

abbrev pub done : WorldRuntime
done = record idle {
  database = spawned_world;
  next_response = 1;
  answers = (0, ok spawn_outcome) ∷ [];
}

-- A handler whose provider answers with a follow-up of the job 40.
abbrev pub follow_up : WorldCommand
follow_up = record {
  id = 40;
  schema = key "spawn";
  principal = 9;
  actor = ActorRef.principal 9;
  expected_position = none;
  causation = some (CausationRef.effect 40);
  correlation_id = 8;
  effective_at = none;
  payload = null;
}

abbrev pub codec : EffectCodec
codec = record {
  request_to_vec = λ r. some [];
  response_from_slice = λ bytes. some (complete (some follow_up));
}

abbrev pub handler : ServiceWorldEffectHandler
handler = record {
  world_id = 1;
  effect_schema = key "notify";
  contract = record { id = "rintawa.world.effect.notify.v1"; version = 1 };
  client = λ contract request. ok [];
}

-- Another System, whose transaction creates the entity 6 alone.
abbrev pub followers : Systems
followers =
    (
      key "spawn",
      record {
        system = record {
          command_schema = key "spawn";
          evaluate = λ snapshot command. returned (
              ok (record {
                mutations = create_entity (record { id = 6; schema = key "person" }) ∷ [];
                events = [];
                effects = [];
              }));
        };
        privileges = ordinary;
      },
    )
    ∷ []

abbrev pub followed_world : Db
followed_world = record empty_world {
  commit_position = 1;
  commits = commit_row follow_up 77 1 none (pos 1000) "null" ∷ [];
  entities = entity_row (record { id = 6; schema = key "person" }) 1 ∷ [];
  mutations = mutation_row 1 0 "mutation" ∷ [];
}

abbrev pub followed_outcome : WorldCommandOutcome
followed_outcome = record {
  receipt = record {
    disposition = committed;
    command_id = 40;
    position = 1;
    event_ids = [];
    effect_job_ids = [];
  };
  committed_events = [];
}

-- The principal 9 controls the entity 5 by the grant 70; the entity 6 stands alone.
abbrev pub granted_world : Db
granted_world = record empty_world {
  entities =
      entity_row (record { id = 5; schema = key "person" }) 0
      ∷ entity_row (record { id = 6; schema = key "person" }) 0
      ∷ [];
  grants =
      grant_row
        (record {
          id = 70;
          principal = 9;
          actor_entity = 5;
          scope = any_command;
          valid_through_position = some 4;
        })
        (some 4) 0
      ∷ [];
}

-- A System that creates the entity 7, in a world where it may.
abbrev pub creators : Systems
creators =
    (
      key "spawn",
      record {
        system = record {
          command_schema = key "spawn";
          evaluate = λ snapshot command. returned (
              ok (record {
                mutations = create_entity (record { id = 7; schema = key "person" }) ∷ [];
                events = [];
                effects = [];
              }));
        };
        privileges = ordinary;
      },
    )
    ∷ []

abbrev pub person : SchemaDefinition
person = record { key = key "person"; kind = SchemaKind.entity; owner = "test"; definition = null }

abbrev pub one_schema : SchemaRegistry
one_schema = record {
  definitions = (key "person", person) ∷ [];
  validators = (key "person", λ v. none) ∷ [];
}
