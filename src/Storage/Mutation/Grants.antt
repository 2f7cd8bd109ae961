-- ===== src/Storage/Mutation/Grants.antt =====
-- `grant_control` of crates/storage/src/sqlite/commit.rs against `ControlGrant::allows` of
-- crates/world/src/authority.rs.
use rintawa.Prelude.{
  ℕ, Bool-cases, ◌≤◌, ◌≡◌, ◌∙◌, refl, ap, subst, inl, inr, Bool, true, false, ◌&&◌, ◌||◌, List, [],
  ◌∷◌, ◌++◌, append-nil, append_assoc, map, any, any-append, All, Option, none, some, ok, ◌>>=◌,
  >>=-eq-ok, fold_result, ◌==◌, arith,
}
use rintawa.World.Ids.{PrincipalId, EntityId, ControlGrantId, SchemaKey}
use rintawa.World.Authority.{
  ControlScope, any_command, exact_schemas, ControlGrant, contains, scope_allows, still_valid,
  allows,
}
use rintawa.Storage.Codec.{i64_max, position_to_sql}
use rintawa.Storage.Tables.{Db, GrantRow, GrantSchemaRow, same_key, has_grant}
use rintawa.Storage.Statements.{insert_grant_row, insert_grant_schema_row}
use rintawa.Storage.Query.{is_current, grant_matches, principal_can_control}
use rintawa.Storage.Mutation.{
  scope_kind, grant_row, optional_position_to_sql, scope_schemas, insert_scope_schema,
  apply_grant_control,
}
use rintawa.Storage.Mutation.Consistency.{IsConsistent, GrantSchemaOk}

-- The rows of `control_grant_schemas` of a grant.
abbrev schema_rows : ControlGrantId → List SchemaKey → List GrantSchemaRow
schema_rows id schemas = map (λ s. record { grant_id = id; schema = s }) schemas

insert_scope_schemas :
    (id : ControlGrantId) (schemas : List SchemaKey) (db db' : Db)
    → fold_result (insert_scope_schema id) db schemas ≡ ok db'
    → db' ≡ record db { grant_schemas = db.grant_schemas ++ schema_rows id schemas }
unfolding fold_result insert_scope_schema insert_grant_schema_row
insert_scope_schemas id [] db db' h = rw (append-nil db.grant_schemas) (ground arith)
insert_scope_schemas id (s ∷ rest) db db' h =
    let (mid, first, more) =
      >>=-eq-ok (insert_scope_schema id db s) (λ mid. fold_result (insert_scope_schema id) mid rest)
        h in
    let mid_eq : mid ≡ record db {
      grant_schemas = db.grant_schemas ++ record { grant_id = id; schema = s } ∷ [];
    } =
      ground arith in
    insert_scope_schemas id rest mid db' more
    ∙ ap (λ (d : Db). record d { grant_schemas = d.grant_schemas ++ schema_rows id rest }) mid_eq
    ∙ ap (λ l. record db { grant_schemas = l })
        (append_assoc db.grant_schemas (record { grant_id = id; schema = s } ∷ [])
          (schema_rows id rest))

-- The test of the inner query on the rows of one grant.
abbrev names : ControlGrantId → SchemaKey → GrantSchemaRow → Bool
names id s r = r.grant_id == id && same_key r.schema s

names_own :
    (id : ControlGrantId) (s : SchemaKey) (schemas : List SchemaKey)
    → any (names id s) (schema_rows id schemas) ≡ contains schemas s
unfolding any contains
names_own id s [] = refl
names_own id s (k ∷ schemas) = ground (arith, names_own id s schemas)

names_other :
    (id other : ControlGrantId) (s : SchemaKey) (schemas : List SchemaKey)
    → (id == other) ≡ false
    → any (names other s) (schema_rows id schemas) ≡ false
unfolding any
names_other id other s [] h = refl
names_other id other s (k ∷ schemas) h = ground (arith, names_other id other s schemas h)

other_row :
    (a b : ControlGrantId) (grants : List GrantRow)
    → has_grant grants a ≡ true
    → has_grant grants b ≡ false
    → (a == b) ≡ false
other_row a b grants stored fresh = elim (Bool-cases (a == b)) [
  | inl same ↦
      let e : a ≡ b = ground arith in
      absurd (let stored_b = subst (λ c. has_grant grants c ≡ true) e stored in ground arith)
  | inr other ↦ other
]

-- No stored row belongs to a grant that is not stored.
names_fresh :
    (id : ControlGrantId) (s : SchemaKey) (grants : List GrantRow) (rows : List GrantSchemaRow)
    → All (GrantSchemaOk grants) rows
    → has_grant grants id ≡ false
    → any (names id s) rows ≡ false
unfolding any
names_fresh id s grants [] ok_rows fresh = refl
names_fresh id s grants (r ∷ rows) ok_rows fresh = ground (
  arith,
  names_fresh id s grants rows ok_rows.1 fresh,
  other_row r.grant_id id grants ok_rows.0 fresh,
)

-- The stored grants match as before, and the new one as its scope and validity tell.
matches_old :
    (id : ControlGrantId) (schemas : List SchemaKey) (rows : List GrantSchemaRow) (p : PrincipalId)
    (a : EntityId) (s : SchemaKey) (at : ℕ) (grants : List GrantRow)
    → has_grant grants id ≡ false
    → any (grant_matches (rows ++ schema_rows id schemas) p a s at) grants
      ≡ any (grant_matches rows p a s at) grants
unfolding any grant_matches
matches_old id schemas rows p a s at [] fresh = refl
matches_old id schemas rows p a s at (g ∷ grants) fresh =
    let split = any-append (names g.grant_id s) rows (schema_rows id schemas) in
    let other : (id == g.grant_id) ≡ false = ground arith in
    let none_new = names_other id g.grant_id s schemas other in
    ground (arith, matches_old id schemas rows p a s at grants)

still_valid_iff : (through : Option ℕ) (at : ℕ) → is_current through at ≡ still_valid through at
unfolding still_valid
still_valid_iff none at = refl
still_valid_iff (some through) at = refl

scope_matches :
    (scope : ControlScope) (s : SchemaKey)
    → (scope_kind scope == 1 || (scope_kind scope == 2 && contains (scope_schemas scope) s))
      ≡ scope_allows scope s
unfolding scope_kind scope_schemas scope_allows
scope_matches any_command s = refl
scope_matches (exact_schemas schemas) s = refl

through_same :
    (through : Option ℕ) (sql : Option ℕ)
    → optional_position_to_sql through ≡ ok sql
    → sql ≡ through
unfolding optional_position_to_sql position_to_sql
through_same none sql h = ground arith
through_same (some n) sql h = ground arith

matches_new :
    (g : ControlGrant) (position : ℕ) (rows : List GrantSchemaRow) (p : PrincipalId) (a : EntityId)
    (s : SchemaKey) (at : ℕ)
    → any (names g.id s) rows ≡ false
    → grant_matches
        (rows ++ schema_rows g.id (scope_schemas g.scope))
        p
        a
        s
        at
        (grant_row g g.valid_through_position position)
      ≡ (g.principal == p && g.actor_entity == a && allows g s at)
unfolding grant_matches allows
matches_new g position rows p a s at fresh =
    let split = any-append (names g.id s) rows (schema_rows g.id (scope_schemas g.scope)) in
    let own = names_own g.id s (scope_schemas g.scope) in
    let valid = still_valid_iff g.valid_through_position at in
    let scope = scope_matches g.scope s in ground arith

insert_grant_row-rows :
    (row : GrantRow) (db db' : Db)
    → insert_grant_row row db ≡ ok db'
    → (db' ≡ record db { grants = db.grants ++ row ∷ [] })
      × (has_grant db.grants row.grant_id ≡ false)
unfolding insert_grant_row
insert_grant_row-rows row db db' h = (ground arith, ground arith)

apply_grant_control-rows :
    (g : ControlGrant) (position : ℕ) (db db' : Db)
    → apply_grant_control g position db ≡ ok db'
    → (db'.grants ≡ db.grants ++ grant_row g g.valid_through_position position ∷ [])
      × (db'.grant_schemas ≡ db.grant_schemas ++ schema_rows g.id (scope_schemas g.scope))
      × (has_grant db.grants g.id ≡ false)
unfolding apply_grant_control
apply_grant_control-rows g position db db' h =
    let rest = λ (d : Db). fold_result (insert_scope_schema g.id) d (scope_schemas g.scope) in
    let insert =
      λ (through : Option ℕ). insert_grant_row (grant_row g through position) db >>= rest in
    let bound : (optional_position_to_sql g.valid_through_position >>= insert) ≡ ok db' =
      ground arith in
    let (through, e, h3) =
      >>=-eq-ok (optional_position_to_sql g.valid_through_position) insert bound in
    let (mid, inserted, written) =
      >>=-eq-ok (insert_grant_row (grant_row g through position) db) rest h3 in
    let same = through_same g.valid_through_position through e in
    let (mid_eq, fresh) = insert_grant_row-rows (grant_row g through position) db mid inserted in
    let end = insert_scope_schemas g.id (scope_schemas g.scope) mid db' written in
    (
      ap (λ (d : Db). d.grants) end
          ∙ ap (λ (d : Db). d.grants) mid_eq
          ∙ ap (λ t. db.grants ++ grant_row g t position ∷ []) same,
      ap (λ (d : Db). d.grant_schemas) end
          ∙ ap (λ (d : Db). d.grant_schemas ++ schema_rows g.id (scope_schemas g.scope)) mid_eq,
      fresh,
    )

controls_any :
    (db : Db) (p : PrincipalId) (a : EntityId) (s : SchemaKey) (at : ℕ)
    → at ≤ i64_max
    → principal_can_control db p a s at
      ≡ ok (any (grant_matches db.grant_schemas p a s at) db.grants)
unfolding principal_can_control position_to_sql
controls_any db p a s at h = ground arith

-- The stored authority is the one of the model: after a grant was stored in a consistent state, a principal
-- controls an entity, for a command schema and at a position in the range of the column, exactly if it did
-- before or the grant is its own, of that entity, and `ControlGrant::allows` the schema at the position.
pub apply_grant_control-allows :
    (g : ControlGrant) (position : ℕ) (db : Db) {db' : Db} (p : PrincipalId) (a : EntityId)
    (s : SchemaKey) (at : ℕ)
    → IsConsistent db
    → apply_grant_control g position db ≡ ok db'
    → at ≤ i64_max
    → principal_can_control db' p a s at ≡ (
        principal_can_control db p a s at >>= λ before.
        ok (before || (g.principal == p && g.actor_entity == a && allows g s at)))
unfolding any
apply_grant_control-allows g position db {db'} p a s at v h in_range =
    let (grants, schemas, fresh) = apply_grant_control-rows g position db db' h in
    let rows = db.grant_schemas ++ schema_rows g.id (scope_schemas g.scope) in
    let row = grant_row g g.valid_through_position position in
    let split = any-append (grant_matches rows p a s at) db.grants (row ∷ []) in
    let old = matches_old g.id (scope_schemas g.scope) db.grant_schemas p a s at db.grants fresh in
    let unnamed = names_fresh g.id s db.grants db.grant_schemas v.grant_schemas fresh in
    let new = matches_new g position db.grant_schemas p a s at unnamed in
    let after : any (grant_matches db'.grant_schemas p a s at) db'.grants ≡ (
        any (grant_matches db.grant_schemas p a s at) db.grants
        || (g.principal == p && g.actor_entity == a && allows g s at)) =
      rw (grants, schemas) (ground arith) in
    rw (controls_any db' p a s at in_range, controls_any db p a s at in_range) (ap ok after)
