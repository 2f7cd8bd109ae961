-- ===== src/Storage/Mutation/Reads.antt =====
-- What the reads of crates/storage/src/sqlite/query.rs see after the mutations of commit.rs.
use rintawa.Prelude.{
  ℕ, String, ◌≡◌, ◌∙◌, refl, ap, inl, inr, Bool, Bool-cases, true, false, ◌&&◌, List, [], ◌∷◌, any,
  delete_where, find, find-append_none, find-eq-none, update_where, Option, none, some, ok,
  holds_iff, ◌==◌, arith,
}
use rintawa.World.Ids.{EntityId, SchemaKey, SchemaKey-discrete}
use rintawa.World.State.{FacetTarget, FacetRecord}
use rintawa.Storage.External.{External}
use rintawa.Storage.Tables.{Db, WorldFacetRow, EntityFacetRow, RelationFacetRow, same_key}
use rintawa.Storage.Statements.{
  upsert, upsert_world_facet, upsert_entity_facet, upsert_relation_facet, touches, delete_relations,
  delete_grants, delete_entity_rows,
}
use rintawa.Storage.Query.{load_entity, facet_payload, load_facet}
use rintawa.Storage.Mutation.{apply_delete_entity, set_payload, apply_set_facet}

any-delete_same {ℓ} : {A : Type ℓ} (p : A → Bool) (xs : List A) → any p (delete_where p xs) ≡ false
unfolding any delete_where
any-delete_same p [] = refl
any-delete_same p (x ∷ xs) = ground (arith, any-delete_same p xs)

load_entity-none :
    (db : Db) (id : EntityId)
    → find (λ r. r.entity_id == id) db.entities ≡ none
    → load_entity db id ≡ none
unfolding load_entity
load_entity-none db id h = ground arith

-- After the deletion of an entity nothing in the current state refers to it: it is not loaded, and no relation
-- has it as an end, no facet stands on it and no grant controls it.
pub apply_delete_entity-cascade :
    (id : EntityId) (db : Db) {db' : Db}
    → apply_delete_entity id db ≡ ok db'
    → (load_entity db' id ≡ none)
      × (any (touches id) db'.relations ≡ false)
      × (any (λ f. f.entity_id == id) db'.entity_facets ≡ false)
      × (any (λ g. g.actor_entity_id == id) db'.grants ≡ false)
unfolding apply_delete_entity delete_entity_rows delete_relations delete_grants
apply_delete_entity-cascade id db {db'} h =
    let same : db' ≡ delete_entity_rows id db = ground arith in
    let gone =
      find-eq-none (λ r. r.entity_id == id) (delete_where (λ r. r.entity_id == id) db.entities)
        (any-delete_same (λ r. r.entity_id == id) db.entities) in
    rw same (
      load_entity-none (delete_entity_rows id db) id gone,
      any-delete_same (touches id) db.relations,
      any-delete_same (λ f. f.entity_id == id) db.entity_facets,
      any-delete_same (λ g. g.actor_entity_id == id) db.grants,
    )

-- The value of a found row.
abbrev column {ℓ} : {A : Type ℓ} → (A → String) → Option A → Option String
column f none = none
column f (some row) = some (f row)

module _ {ℓ} {A : Type ℓ} (conflict : A → Bool) (set : A → A) (row : A) (f : A → String) where
  column-update_where :
      ((r : A) → conflict (set r) ≡ conflict r)
      → ((r : A) → f (set r) ≡ f row)
      → (rows : List A) → any conflict rows ≡ true
      → column f (find conflict (update_where conflict set rows)) ≡ some (f row)
  unfolding any find update_where
  column-update_where keeps sets [] h = absurd (ground arith)
  column-update_where keeps sets (r ∷ rows) h = elim (Bool-cases (conflict r)) [
    | inl here ↦ let still = keeps r ∙ here in rw (here, still) (ap some (sets r))
    | inr gone ↦ rw (gone, gone) (column-update_where keeps sets rows (rw gone at h))
  ]

  column-upsert :
      ((r : A) → conflict (set r) ≡ conflict r)
      → ((r : A) → f (set r) ≡ f row)
      → conflict row ≡ true
      → (rows : List A) → column f (find conflict (upsert conflict set row rows)) ≡ some (f row)
  unfolding upsert find
  column-upsert keeps sets own rows = elim (Bool-cases (any conflict rows)) [
    | inl stored ↦ rw stored (column-update_where keeps sets rows stored)
    | inr fresh ↦ rw (fresh, find-append_none conflict rows (row ∷ []) fresh, own) refl
  ]

from_column {ℓ} :
    {A : Type ℓ} (f : A → String) (o : Option A) {s : String}
    → column f o ≡ some s
    → (elim o [ none ↦ none | some r ↦ some (f r) ]) ≡ some s
from_column f none h = h
from_column f (some r) h = h

set_payload-facet_payload :
    (target : FacetTarget) (schema : SchemaKey) (text : String) (position : ℕ) (db db' : Db)
    → set_payload target schema text position db ≡ ok db'
    → facet_payload db' target schema ≡ some text
unfolding set_payload upsert_world_facet upsert_entity_facet upsert_relation_facet facet_payload
set_payload-facet_payload FacetTarget.world schema text position db db' h =
    let row : WorldFacetRow = record {
      schema = schema;
      payload_json = text;
      updated_position = position;
    } in
    let conflict = λ (r : WorldFacetRow). same_key r.schema schema in
    let set =
      λ (r : WorldFacetRow). record r { payload_json = text; updated_position = position } in
    let own = (holds_iff (SchemaKey-discrete schema schema)).1 refl in
    let rows : db'.world_facets ≡ upsert conflict set row db.world_facets = ground arith in
    rw rows (
      from_column (λ (r : WorldFacetRow). r.payload_json)
        (find conflict (upsert conflict set row db.world_facets))
        (column-upsert conflict set row (λ r. r.payload_json) (λ r. refl) (λ r. refl) own
          db.world_facets))
set_payload-facet_payload (FacetTarget.entity id) schema text position db db' h =
    let row : EntityFacetRow = record {
      entity_id = id;
      schema = schema;
      payload_json = text;
      updated_position = position;
    } in
    let conflict = λ (r : EntityFacetRow). r.entity_id == id && same_key r.schema schema in
    let set =
      λ (r : EntityFacetRow). record r { payload_json = text; updated_position = position } in
    let same = (holds_iff (SchemaKey-discrete schema schema)).1 refl in
    let own : conflict row ≡ true = ground arith in
    let rows : db'.entity_facets ≡ upsert conflict set row db.entity_facets = ground arith in
    rw rows (
      from_column (λ (r : EntityFacetRow). r.payload_json)
        (find conflict (upsert conflict set row db.entity_facets))
        (column-upsert conflict set row (λ r. r.payload_json) (λ r. refl) (λ r. refl) own
          db.entity_facets))
set_payload-facet_payload (FacetTarget.relation id) schema text position db db' h =
    let row : RelationFacetRow = record {
      relation_id = id;
      schema = schema;
      payload_json = text;
      updated_position = position;
    } in
    let conflict = λ (r : RelationFacetRow). r.relation_id == id && same_key r.schema schema in
    let set =
      λ (r : RelationFacetRow). record r { payload_json = text; updated_position = position } in
    let same = (holds_iff (SchemaKey-discrete schema schema)).1 refl in
    let own : conflict row ≡ true = ground arith in
    let rows : db'.relation_facets ≡ upsert conflict set row db.relation_facets = ground arith in
    rw rows (
      from_column (λ (r : RelationFacetRow). r.payload_json)
        (find conflict (upsert conflict set row db.relation_facets))
        (column-upsert conflict set row (λ r. r.payload_json) (λ r. refl) (λ r. refl) own
          db.relation_facets))

loaded :
    (x : External) (db : Db) (f : FacetRecord) (text : String)
    → facet_payload db f.target f.schema ≡ some text
    → x.value_from_str text ≡ some f.payload
    → load_facet x db f.target f.schema ≡ ok (some f)
unfolding load_facet
loaded x db f text stored read = ground arith

-- A facet that was set is loaded as it was, on the world, on an entity and on a relation, whatever stood there
-- before; where the JSON text of its payload reads back as the payload.
pub apply_set_facet-load_facet :
    (x : External) (f : FacetRecord) (position : ℕ) (db : Db) {db' : Db} (text : String)
    → x.value_to_string f.payload ≡ some text
    → x.value_from_str text ≡ some f.payload
    → apply_set_facet x f position db ≡ ok db'
    → load_facet x db' f.target f.schema ≡ ok (some f)
unfolding apply_set_facet
apply_set_facet-load_facet x f position db {db'} text printed read h =
    let written : set_payload f.target f.schema text position db ≡ ok db' = rw printed at h in
    loaded x db' f text (set_payload-facet_payload f.target f.schema text position db db' written)
      read
