-- ===== src/Storage/Schemas.antt =====
-- crates/storage/src/sqlite/codec.rs (the schema registry of a database) and the registration of
-- schemas in crates/storage/src/sqlite/mod.rs.
use rintawa.Prelude.{
  List, [], ◌∷◌, ◌++◌, Option, none, some, ok, ◌>>=◌, ok_or, map_err, find, fold_result,
}
use rintawa.World.Ids.{SchemaKey}
use rintawa.World.Schema
use rintawa.World.Schema.{
  SchemaDefinition, SchemaRegistry, SchemaRegistration, registered, already_present,
}
use rintawa.Storage.Errors.{StorageResult, world, json}
use rintawa.Storage.External.{External}
use rintawa.Storage.Codec.{schema_kind_code, schema_kind_from_code}
use rintawa.Storage.Tables.{Db, SchemaRow, same_key}
use rintawa.Storage.Statements.{insert_schema_row}

unfoldable pub decode_schema : External → SchemaRow → StorageResult SchemaDefinition
decode_schema x row = do
  definition ← ok_or (x.value_from_str row.definition_json) json
  kind ← schema_kind_from_code row.kind
  ok (record {
    key = row.key;
    kind = kind;
    owner = row.owner_extension_id;
    definition = definition;
  })

-- The body of the loop over the rows.
unfoldable pub load_row : External → SchemaRegistry → SchemaRow → StorageResult SchemaRegistry
load_row x registry row = do
  definition ← decode_schema x row
  (registry', _) ← map_err world (Schema.register x.schema registry definition)
  ok registry'

-- The rows come in the order of their keys; a registry does not depend on it, since the primary key
-- keeps the keys apart.
unfoldable pub load_schema_registry : External → Db → StorageResult SchemaRegistry
load_schema_registry x db = fold_result (load_row x) Schema.new db.schemas

-- `row.map(decode).transpose()`.
abbrev decode_found : External → Option SchemaRow → StorageResult (Option SchemaDefinition)
decode_found x none = ok none
decode_found x (some row) = do definition ← decode_schema x row; ok (some definition)

unfoldable pub load_schema : External → Db → SchemaKey → StorageResult (Option SchemaDefinition)
load_schema x db key = decode_found x (find (λ r. same_key r.key key) db.schemas)

-- `INSERT INTO world_schemas` of a definition.
unfoldable pub store_schema : External → SchemaDefinition → Db → StorageResult Db
store_schema x d db = do
  definition_json ← ok_or (x.value_to_string d.definition) json
  insert_schema_row
      (record {
        key = d.key;
        kind = schema_kind_code d.kind;
        owner_extension_id = d.owner;
        definition_json = definition_json;
      })
      db

-- The branch of `register_schema` for a key that is stored already.
register_stored :
    External → Db → SchemaDefinition → SchemaDefinition → StorageResult (Db × SchemaRegistration)
register_stored x db existing d = do
  (registry, _) ← map_err world (Schema.register x.schema Schema.new existing)
  (_, registration) ← map_err world (Schema.register x.schema registry d)
  ok (db, registration)

-- The branch for a new key: the definition is validated in a registry of its own, then stored.
register_fresh : External → Db → SchemaDefinition → StorageResult (Db × SchemaRegistration)
register_fresh x db d = do
  _ ← map_err world (Schema.register x.schema Schema.new d)
  db' ← store_schema x d db
  ok (db', registered)

unfoldable pub register_schema :
    External → Db → SchemaDefinition → StorageResult (Db × SchemaRegistration)
unfolding register_stored register_fresh
register_schema x db d = do
  stored ← load_schema x db d.key
  elim stored [ none ↦ register_fresh x db d | some existing ↦ register_stored x db existing d ]

-- The row that one round of `register_schemas` writes, if any.
store_registered : External → SchemaRegistration → SchemaDefinition → Db → StorageResult Db
store_registered x registered d db = store_schema x d db
store_registered x already_present d db = ok db

-- The body of the loop of `register_schemas`.
unfoldable pub register_one :
    External
    → Db × SchemaRegistry × List SchemaRegistration
    → SchemaDefinition
    → StorageResult (Db × SchemaRegistry × List SchemaRegistration)
unfolding store_registered
register_one x (db, registry, registrations) d = do
  (registry', registration) ← map_err world (Schema.register x.schema registry d)
  db' ← store_registered x registration d db
  ok (db', registry', registrations ++ registration ∷ [])

-- A failure leaves the database as it was: the transaction is rolled back.
unfoldable pub register_schemas :
    External → Db → List SchemaDefinition → StorageResult (Db × List SchemaRegistration)
register_schemas x db [] = ok (db, [])
register_schemas x db (d ∷ ds) = do
  registry ← load_schema_registry x db
  (db', _, registrations) ← fold_result (register_one x) (db, registry, []) (d ∷ ds)
  ok (db', registrations)
