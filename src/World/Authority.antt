-- ===== src/World/Authority.antt =====
-- crates/world/src/authority.rs: control scopes and durable control grants. A `BTreeSet` of schema keys
-- is a list without repetitions.
use rintawa.Prelude.{
  ℕ, Bool, true, ◌&&◌, List, [], ◌∷◌, Option, none, some, ok, err, holds, leb, any, if◌then◌else◌,
}
use rintawa.World.Ids.{SchemaKey, SchemaKey-discrete, PrincipalId, EntityId, ControlGrantId}
use rintawa.World.Errors.{WorldResult, empty_control_scope}

pub data ControlScope : Type 0 where
  any_command : ControlScope
  exact_schemas : List SchemaKey → ControlScope

unfoldable pub contains : List SchemaKey → SchemaKey → Bool
unfolding any SchemaKey-discrete
contains schemas schema = any (λ s. holds (SchemaKey-discrete s schema)) schemas

-- `into_iter().collect::<BTreeSet<_>>()`.
unfoldable pub collect : List SchemaKey → List SchemaKey
unfolding contains
collect [] = []
collect (s ∷ rest) = let set = collect rest in if contains set s then set else s ∷ set

-- The check of `ControlScope::exact` on the collected set.
exact_of : List SchemaKey → WorldResult ControlScope
exact_of [] = err empty_control_scope
exact_of (s ∷ rest) = ok (exact_schemas (s ∷ rest))

unfoldable pub exact : List SchemaKey → WorldResult ControlScope
unfolding exact_of collect
exact schemas = exact_of (collect schemas)

unfoldable pub scope_allows : ControlScope → SchemaKey → Bool
unfolding contains
scope_allows any_command schema = true
scope_allows (exact_schemas schemas) schema = contains schemas schema

pub record ControlGrant : Type 0 where
  pub id : ControlGrantId
  pub principal : PrincipalId
  pub actor_entity : EntityId
  pub scope : ControlScope
  pub valid_through_position : Option ℕ

-- `valid_through_position.is_none_or(|valid_through| position <= valid_through)`.
unfoldable pub still_valid : Option ℕ → ℕ → Bool
still_valid none position = true
still_valid (some valid_through) position = leb position valid_through

unfoldable pub allows : ControlGrant → SchemaKey → ℕ → Bool
unfolding scope_allows still_valid
allows grant schema position =
    scope_allows grant.scope schema && still_valid grant.valid_through_position position
