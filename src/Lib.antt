-- ===== src/Lib.antt =====
-- A verification library for rintawa, the runtime of persistent, extensible worlds. It models the core of
-- the program: the world model, its SQLite storage, the single-writer runtime on top of it, the routing of
-- the services that extensions offer each other, and the validation of the surfaces that they show.
--
-- How the parts interact. A client submits a `WorldCommand` to the runtime (crates/world-runtime), whose
-- worker looks for an earlier receipt, asks the System of the command's schema for a `WorldTransaction` on a
-- snapshot, refuses authority mutations of ordinary Systems, and commits the transaction in the storage
-- (crates/storage). The commit checks the command and the transaction against the schema registry
-- (crates/world), the position and the authority of the actor, writes the log of commits, mutations and
-- events, changes the current state and fills the outbox of effect jobs. Effect workers claim those jobs
-- under leases; an extension handles one and may answer with a follow-up command, which goes the same way.
-- Systems, effect handlers and projections reach their extensions through service calls. The extension engine
-- (crates/extension-engine) resolves the contract that a component consumes to the components that provide it
-- and hold the grants that it requires, and calls them; a provider may call other services in turn. What
-- extensions show is a tree of nodes, which the user interface runtime (crates/ui-runtime) validates.
--
-- Which file models what:
--   Prelude and below it: Booleans, lists, results, association lists and sorting that the parts share.
--   World.Ids: identifiers, schema keys and JSON values (crates/sdk/src/world.rs).
--   World.Errors, World.State, World.Command, World.Session: the files of the same names in crates/world/src.
--   World.Schema: SchemaRegistry (crates/world/src/schema.rs); World.Schema.Registry has its lemmas.
--   World.Authority: ControlScope and ControlGrant (crates/world/src/authority.rs).
--   World.Transaction: WorldTransaction::validate_schemas and the stored records
--     (crates/world/src/transaction.rs); World.Transaction.Admission has its specification.
--   Storage.Tables, Storage.Statements: the tables of storage schema 3 with their keys, foreign keys and
--     cascades (crates/storage/src/sqlite/migration.rs), as lists of rows and functions on them.
--   Storage.Codec, Storage.Schemas, Storage.Query, Storage.Session: codec.rs, query.rs and mod.rs beside it.
--   Storage.Mutation, Storage.Digest, Storage.Commit: crates/storage/src/sqlite/commit.rs. `commit` is the
--     function of that name, its parts are cut at the calls and loops of its body.
--   Storage.Mutation.Consistency, Control, Grants, Reads: the references of the current state, who
--     controls what, and what the reads see, under mutations.
--   Storage.Commit.Frame, Log, Writes, Steps, History, Retry, Receipts, Guards, Integrity: what a commit leaves
--     alone, appends and checks, and what a later lookup finds.
--   Storage.Outbox: crates/storage/src/sqlite/outbox.rs; Rows, Wakeup, Found, Fencing, Updates and
--     Lifecycle below it.
--   Storage.Reach: sequences of commits and outbox operations.
--   Runtime.Systems, Runtime.Commands, Runtime.Queue: crates/world-runtime/src/runtime.rs, system.rs and
--     snapshot.rs; Runtime.Effect: crates/world-runtime/src/effect.rs; Runtime.Service:
--     crates/world-runtime/src/service.rs, with the messages of crates/sdk/src/world_system.rs;
--     Runtime.Projection: crates/world-runtime/src/projection.rs and crates/sdk/src/world_projection.rs.
--   Engine.Contracts, Engine.Composition: crates/sdk/src/contracts.rs and
--     crates/extension-engine/src/composition.rs; Order and Eligible have the properties of a resolution.
--   Engine.Secrets: crates/extension-engine/src/secrets.rs and the patterns of crates/sdk/src/secrets.rs;
--     Policy below it relates the grant of a pattern to the reading of its paths, and Paths parses both.
--   Engine.Component: what a component may do in a callback (the traits Component and ComponentContext of the
--     SDK). Engine.Services and Topology, Binding, Routing, Calls below it: crates/extension-engine/src/services.rs;
--     Current, Handles, Cache, Changes and Reach are about its caches, Calls.Stack, Resolved, Platform, Answers,
--     Nesting and Limits about nested calls.
--   Ui: the nodes of crates/sdk/src/ui/nodes.rs. Ui.Layout, Ui.Validation: crates/ui-runtime/src/validation.rs;
--     Ui.Validation.Entries, Seen, Checks, Records and Orphans are about its maps, Visits and Walks about its
--     loops, Tree and Grids about what it accepts.
--   Tests: concrete worlds, and runs of the definitions on them.
--
-- State. A database (`Db`) is the record of its tables and of the single row of `world_metadata`; a table is
-- the list of its rows in the order of insertion. A call that fails is rolled back, so that a failed result
-- carries no database. A runtime is a record of its database, its Systems, its queue and the answers that
-- were sent; the threads are steps in any order.
--
-- Bounds. Identifiers are 128-bit values as natural numbers; positions keep the checks of `i64` and `u64`,
-- indices and attempt counters those of `u32`. The revisions of topology and policy wrap as `u64` does;
-- that the policy's does not come round is a premise of the steps that raise it. Nested service calls have
-- fuel, one for each level: as much as there are registered components is enough, since a running provider
-- is never called again. The walks over a surface have fuel too: one more than there are nodes, and two
-- more than there are references to children. All other loops are structural, on the rows, on the queue or
-- on the 8 rounds of a service.
--
-- What is a parameter: serde_json, jsonschema, sha2 and the clock (Storage.External), the Systems, the
-- service transports with their codecs (Runtime.Effect, Runtime.Service, Runtime.Projection), and for the
-- engine the credential vault, the locks of components that other threads hold, and the components themselves.
-- A callback of a component is a finite sequence of requests to its context, so that one that computes or
-- calls for ever is not represented. A theorem that relies on a parameter says so. A hash map is the list of its entries; a resolution of services is
-- one step, on the policy that it ends with, where the code starts again if the policy changed meanwhile.
--
-- Not modelled: files, connections, locks and pragmas of SQLite; the migrations between storage versions;
-- the text forms of identifiers; the installation, activation and Wasm execution of extensions; the
-- artifact and host crates and the rest of the user interface runtime; the application and tools.
pub mod Prelude
pub mod World
pub mod Storage
pub mod Runtime
pub mod Engine
pub mod Ui
pub mod Tests
