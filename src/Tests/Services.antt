-- ===== src/Tests/Services.antt =====
-- The theorems about service-backed Systems, on a service that first reads an entity and then answers.
use rintawa.Prelude.{ℕ, suc, ◌≡◌, refl, some, ok, List, [], ◌∷◌, length, any, find, ◌≤◌, ◌<◌}
use rintawa.World.Ids.{SchemaKey-discrete, null}
use rintawa.World.Transaction.{WorldTransaction}
use rintawa.Storage.Query.{load_entity}
use rintawa.Runtime.Systems.{WorldSnapshot, ordinary}
use rintawa.Runtime.Commands.{reject_privileged_authority_output}
use rintawa.Runtime.Service.{
  read_entity, entity_value, WorldSystemServiceResponse, transaction, reads, delete_entity, Service,
  Reads, no_reads, WorldSystemReadRequest-discrete, has_seen, resolve_read, resolve_reads,
  accept_reads, call_service, answer, continues, next_round, round, rounds, decode_transaction,
  ServiceWorldSystem, evaluate, max_world_system_service_reads,
}
use rintawa.Runtime.Service.Rounds.{evaluate-passes, IsResolved, none_yet, round-reads}
use rintawa.Tests.Worlds.{libraries, key, spawn, spawned_world}

-- The response to a request that carries the given number of reads.
abbrev reply : List ℕ → WorldSystemServiceResponse
reply (suc n ∷ rest) = transaction (record {
  mutations = delete_entity 5 ∷ [];
  events = record { schema = key "gone"; payload = null } ∷ [];
  effects = [];
})
reply other = reads (read_entity 5 ∷ [])

abbrev service : Service
service = record {
  request_to_vec = λ request. some (length request.reads ∷ []);
  response_from_slice = λ bytes. some (reply bytes);
  client = λ contract request. ok request;
  transport_message = λ e. "System service transport failed";
}

abbrev system : ServiceWorldSystem
system = record {
  world_id = spawned_world.world_id;
  command_schema = key "spawn";
  contract = record { id = "example:system"; version = 1 };
  service = service;
}

abbrev snapshot : WorldSnapshot
snapshot = record { database = spawned_world; position = 1 }

abbrev one_read : Reads
one_read = record {
  seen = read_entity 5 ∷ [];
  results = entity_value 5 (some (record { id = 5; schema = key "person" })) ∷ [];
}

abbrev deletion : WorldTransaction
deletion =
    decode_transaction (λ n. 100)
      (record {
        mutations = delete_entity 5 ∷ [];
        events = record { schema = key "gone"; payload = null } ∷ [];
        effects = [];
      })

reads_5 :
    round libraries service system.contract (λ n. 100) snapshot spawn no_reads
    ≡ ok (continues one_read)
unfolding any find WorldSystemReadRequest-discrete load_entity has_seen resolve_read resolve_reads
    accept_reads call_service answer round
reads_5 = refl

round-reads_example :
    IsResolved libraries snapshot one_read
    × (length no_reads.results < length one_read.results)
    × (length one_read.results ≤ max_world_system_service_reads)
round-reads_example =
    round-reads libraries service system.contract (λ n. 100) snapshot spawn no_reads one_read
      none_yet reads_5

answers : evaluate libraries (λ n. 100) system snapshot spawn ≡ ok deletion
unfolding any find SchemaKey-discrete WorldSystemReadRequest-discrete load_entity has_seen
    resolve_read resolve_reads accept_reads call_service answer next_round round rounds evaluate
answers = refl

evaluate-passes_example : reject_privileged_authority_output (key "spawn") deletion ordinary ≡ ok tt
evaluate-passes_example =
    evaluate-passes libraries (λ n. 100) system snapshot spawn (key "spawn") ordinary {t = deletion}
      answers
