-- ===== src/Storage/Mutation/Consistency/Inserts.antt =====
-- The inserting statements of crates/storage/src/sqlite/commit.rs keep the references of the tables.
use rintawa.Prelude.{
  ◌≡◌, sym, subst, Bool, true, ◌&&◌, List, [], ◌∷◌, ◌++◌, ok, any, any-append, All, All-mono,
  All-snoc, All-update, arith, ◌==◌, Bool-cases, inl, inr,
}
use rintawa.Storage.Tables.{
  Db, EntityRow, RelationRow, GrantRow, GrantSchemaRow, WorldFacetRow, EntityFacetRow,
  RelationFacetRow, same_key, has_entity, has_relation, has_grant,
}
use rintawa.Storage.Statements.{
  insert_entity_row, insert_relation_row, insert_grant_row, insert_grant_schema_row, upsert,
  upsert_world_facet, upsert_entity_facet, upsert_relation_facet,
}
use rintawa.Storage.Mutation.Consistency.{
  IsConsistent, RelationOk, EntityFacetOk, RelationFacetOk, GrantOk, GrantSchemaOk,
}

-- A new row in a table keeps what pointed into it.
any-snoc {ℓ} :
    {A : Type ℓ} (p : A → Bool) (xs : List A) (x : A)
    → any p xs ≡ true
    → any p (xs ++ x ∷ []) ≡ true
any-snoc p xs x h = rw (any-append p xs (x ∷ []), h)

pub All-upsert {ℓ κ} :
    {A : Type ℓ} (P : A → Type κ) (conflict : A → Bool) (set : A → A) (row : A) (rows : List A)
    → ((x : A) → conflict x ≡ true → P x → P (set x))
    → P row
    → All P rows
    → All P (upsert conflict set row rows)
unfolding upsert
All-upsert P conflict set row rows keep p h = elim (Bool-cases (any conflict rows)) [
  | inl old ↦ rw old (All-update P conflict set rows keep h)
  | inr new ↦ rw new (All-snoc P rows row h p)
]

pub insert_entity-IsConsistent :
    (row : EntityRow) (db db' : Db)
    → IsConsistent db
    → insert_entity_row row db ≡ ok db'
    → IsConsistent db'
unfolding insert_entity_row
insert_entity-IsConsistent row db db' v h =
    let e : db' ≡ record db { entities = db.entities ++ row ∷ [] } = ground arith in
    subst IsConsistent (sym e) (record {
      relations =
          All-mono (RelationOk db.entities) (RelationOk (db.entities ++ row ∷ [])) db.relations
            (λ r o. (any-snoc _ db.entities row o.0, any-snoc _ db.entities row o.1)) v.relations;
      entity_facets =
          All-mono (EntityFacetOk db.entities) (EntityFacetOk (db.entities ++ row ∷ []))
            db.entity_facets (λ f o. any-snoc _ db.entities row o) v.entity_facets;
      relation_facets = v.relation_facets;
      grants =
          All-mono (GrantOk db.entities) (GrantOk (db.entities ++ row ∷ [])) db.grants
            (λ g o. any-snoc _ db.entities row o) v.grants;
      grant_schemas = v.grant_schemas;
    })

pub insert_relation-IsConsistent :
    (row : RelationRow) (db db' : Db)
    → IsConsistent db
    → insert_relation_row row db ≡ ok db'
    → IsConsistent db'
unfolding insert_relation_row
insert_relation-IsConsistent row db db' v h =
    let e : db' ≡ record db { relations = db.relations ++ row ∷ [] } = ground arith in
    let from : has_entity db.entities row.from_entity_id ≡ true = ground arith in
    let to : has_entity db.entities row.to_entity_id ≡ true = ground arith in
    subst IsConsistent (sym e) (record {
      relations = All-snoc (RelationOk db.entities) db.relations row v.relations (from, to);
      entity_facets = v.entity_facets;
      relation_facets =
          All-mono (RelationFacetOk db.relations) (RelationFacetOk (db.relations ++ row ∷ []))
            db.relation_facets (λ f o. any-snoc _ db.relations row o) v.relation_facets;
      grants = v.grants;
      grant_schemas = v.grant_schemas;
    })

pub insert_grant-IsConsistent :
    (row : GrantRow) (db db' : Db)
    → IsConsistent db
    → insert_grant_row row db ≡ ok db'
    → IsConsistent db'
unfolding insert_grant_row
insert_grant-IsConsistent row db db' v h =
    let e : db' ≡ record db { grants = db.grants ++ row ∷ [] } = ground arith in
    let actor : has_entity db.entities row.actor_entity_id ≡ true = ground arith in
    subst IsConsistent (sym e) (record {
      relations = v.relations;
      entity_facets = v.entity_facets;
      relation_facets = v.relation_facets;
      grants = All-snoc (GrantOk db.entities) db.grants row v.grants actor;
      grant_schemas =
          All-mono (GrantSchemaOk db.grants) (GrantSchemaOk (db.grants ++ row ∷ []))
            db.grant_schemas (λ s o. any-snoc _ db.grants row o) v.grant_schemas;
    })

pub insert_grant_schema-IsConsistent :
    (row : GrantSchemaRow) (db db' : Db)
    → IsConsistent db
    → insert_grant_schema_row row db ≡ ok db'
    → IsConsistent db'
unfolding insert_grant_schema_row
insert_grant_schema-IsConsistent row db db' v h =
    let e : db' ≡ record db { grant_schemas = db.grant_schemas ++ row ∷ [] } = ground arith in
    let grant : has_grant db.grants row.grant_id ≡ true = ground arith in
    subst IsConsistent (sym e) (record {
      relations = v.relations;
      entity_facets = v.entity_facets;
      relation_facets = v.relation_facets;
      grants = v.grants;
      grant_schemas = All-snoc (GrantSchemaOk db.grants) db.grant_schemas row v.grant_schemas grant;
    })

pub upsert_world_facet-IsConsistent :
    (row : WorldFacetRow) (db db' : Db)
    → IsConsistent db
    → upsert_world_facet row db ≡ ok db'
    → IsConsistent db'
unfolding upsert_world_facet
upsert_world_facet-IsConsistent row db db' v h = ground arith

pub upsert_entity_facet-IsConsistent :
    (row : EntityFacetRow) (db db' : Db)
    → IsConsistent db
    → upsert_entity_facet row db ≡ ok db'
    → IsConsistent db'
unfolding upsert_entity_facet
upsert_entity_facet-IsConsistent row db db' v h =
    let conflict =
      λ (r : EntityFacetRow). r.entity_id == row.entity_id && same_key r.schema row.schema in
    let set = λ (r : EntityFacetRow). record r {
      payload_json = row.payload_json;
      updated_position = row.updated_position;
    } in
    let e : db' ≡ record db { entity_facets = upsert conflict set row db.entity_facets } =
      ground arith in
    let owner : has_entity db.entities row.entity_id ≡ true = ground arith in
    subst IsConsistent (sym e) (record {
      relations = v.relations;
      entity_facets =
          All-upsert (EntityFacetOk db.entities) conflict set row db.entity_facets (λ x c o. o)
            owner v.entity_facets;
      relation_facets = v.relation_facets;
      grants = v.grants;
      grant_schemas = v.grant_schemas;
    })

pub upsert_relation_facet-IsConsistent :
    (row : RelationFacetRow) (db db' : Db)
    → IsConsistent db
    → upsert_relation_facet row db ≡ ok db'
    → IsConsistent db'
unfolding upsert_relation_facet
upsert_relation_facet-IsConsistent row db db' v h =
    let conflict =
      λ (r : RelationFacetRow). r.relation_id == row.relation_id && same_key r.schema row.schema in
    let set = λ (r : RelationFacetRow). record r {
      payload_json = row.payload_json;
      updated_position = row.updated_position;
    } in
    let e : db' ≡ record db { relation_facets = upsert conflict set row db.relation_facets } =
      ground arith in
    let owner : has_relation db.relations row.relation_id ≡ true = ground arith in
    subst IsConsistent (sym e) (record {
      relations = v.relations;
      entity_facets = v.entity_facets;
      relation_facets =
          All-upsert (RelationFacetOk db.relations) conflict set row db.relation_facets (λ x c o. o)
            owner v.relation_facets;
      grants = v.grants;
      grant_schemas = v.grant_schemas;
    })
