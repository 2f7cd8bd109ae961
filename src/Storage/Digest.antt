-- ===== src/Storage/Digest.antt =====
-- crates/storage/src/sqlite/commit.rs: the digest of a command, over a canonical form of its JSON value.
use Prim.Native.Nat.{Ordering}
use Prim.Native.String.{compare}
use rintawa.Prelude.{ℕ, String, Bool, true, false, ok, ◌>>=◌, ok_or, if◌then◌else◌}
use rintawa.World.Ids.{
  Json, Items, nil, item, Members, no_members, member, null, bool, number, string, array, object,
}
use rintawa.World.Command.{WorldCommand}
use rintawa.Storage.Errors.{StorageResult, json}
use rintawa.Storage.External.{External}

-- `left.cmp(right)` is not `Greater`.
abbrev pub str_le : String → String → Bool
str_le left right = elim (compare left right) [ Ordering.gt ↦ false | _ ↦ true ]

unfoldable pub place : String → Json → Members → Members
place key value no_members = member key value no_members
place key value (member k v rest) =
    let rest' = place key value rest in
    if str_le key k then member key value (member k v rest) else member k v rest'

-- `entries.sort_by(|left, right| left.0.cmp(&right.0))`, a stable sort by the key.
unfoldable pub sort_members : Members → Members
unfolding place
sort_members no_members = no_members
sort_members (member k v rest) = place k v (sort_members rest)

-- The code sorts the entries and then makes each value canonical; the sort looks at the keys alone, so
-- here the values come first.
unfoldable mutual
  unfolding sort_members

  pub canonical_json : Json → Json
  canonical_json null = null
  canonical_json (bool b) = bool b
  canonical_json (number n) = number n
  canonical_json (string s) = string s
  canonical_json (array values) = array (canonical_items values)
  canonical_json (object values) = object (sort_members (canonical_members values))

  pub canonical_items : Items → Items
  canonical_items nil = nil
  canonical_items (item v rest) = item (canonical_json v) (canonical_items rest)

  pub canonical_members : Members → Members
  canonical_members no_members = no_members
  canonical_members (member k v rest) = member k (canonical_json v) (canonical_members rest)

unfoldable pub command_digest : External → WorldCommand → StorageResult ℕ
command_digest x command = do
  value ← ok_or (x.command_to_value command) json
  bytes ← ok_or (x.value_to_vec (canonical_json value)) json
  ok (x.sha256 bytes)
