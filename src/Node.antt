-- ===== src/Node.antt =====
-- cmd/sharddnsd/main.go: how a node joins the store, the caches and the change events of other nodes.
-- The bus (internal/events/bus.go) is the list of events that a node publishes, and the events that
-- it receives; NATS carries them. A node without a cache, or without a bus, has `none`, or `false`.
pub mod Chain
pub mod Coherent
pub mod Denial
pub mod Reads
pub mod Runs
pub mod Alone
pub mod Serial
pub mod Uniform
use shard_dns.Cache.{Shard}
use shard_dns.Cached.{CachedResolver, invalidate, invalidate_all}
use shard_dns.Prelude.Text.{GoRuntime}
use shard_dns.Store.RecordTable.{lookup_name}
use shard_dns.Store.ZoneTable.{find_zone}
use shard_dns.Store.{Tables}
use shard_dns.Zones.{Zone, NameSet, Resolver}
use shard_dns.Prelude.{
  ℕ, Bool, true, false, if◌then◌else◌, Option, none, some, List, [], ◌∷◌, Bytes, bytes_eq,
}

pub data ChangeKind : Type 0 where
  kind_unspecified kind_zone kind_record : ChangeKind

pub record ChangeEvent : Type 0 where
  pub origin : Bytes
  pub kind : ChangeKind
  pub zone : Bytes
  pub name : Bytes

-- `if kind == KIND_ZONE { name = "" }`
abbrev pub name_of : ChangeKind → Bytes → Bytes
name_of kind_zone name = []
name_of kind_record name = name
name_of kind_unspecified name = name

-- The store as the resolver behind the caches.
unfoldable pub store_resolver : ⦃u : GoRuntime⦄ → (ℕ → Bool) → Tables → Resolver
store_resolver faults db = record {
  find_zone = find_zone faults db;
  lookup_name = lookup_name faults db;
}

module _ (zone_hash : Bytes → ℕ) (zone_order : Shard (Option Zone) → List Bytes)
    (name_hash : Bytes → ℕ) (name_order : Shard NameSet → List Bytes) where
  unfoldable pub on_change : CachedResolver → ChangeKind → Bytes → Bytes → CachedResolver
  on_change c kind zone name =
      invalidate zone_hash zone_order name_hash name_order c zone (name_of kind name)

  -- The change notifier that the API service calls: the caches, and what is published.
  unfoldable pub notify :
      Option CachedResolver
      → Bool
      → Bytes
      → ChangeKind
      → Bytes
      → Bytes
      → Option CachedResolver × List ChangeEvent
  notify cached has_bus origin kind zone name = (
    elim cached [ none ↦ none | some c ↦ some (on_change c kind zone name) ],
    if has_bus
        then record {
          origin = origin;
          kind = kind;
          zone = zone;
          name = elim cached [ none ↦ name | some c ↦ name_of kind name ];
        }
          ∷ []
        else [],
  )

  -- `Subscribe`: an event of the node's own origin is passed over.
  unfoldable pub on_event : Bytes → CachedResolver → ChangeEvent → CachedResolver
  on_event origin c ev =
      if bytes_eq ev.origin origin then c else on_change c ev.kind ev.zone ev.name
