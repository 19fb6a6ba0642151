-- ===== src/Cached.antt =====
-- internal/store/cached.go: the resolver with a cache of zones and a cache of names.
-- A missing zone is cached as `none`. The resolver behind the caches is an argument of each call,
-- since its answers change with the database; calls for one key at one time, which `singleflight`
-- joins, are one call here. The hashes and map orders are those of the two caches.
pub mod Fresh
use shard_dns.Cache.{Cache, Shard, new_cache, get, set, clear, delete, delete_group, len, stats}
use shard_dns.Handler.Lookup.{enclosers}
use shard_dns.Prelude.Int.{ℤ, pos, negsuc}
use shard_dns.Zones.{StoreError, not_found, conflict, failure, Zone, NameSet, Resolver}
use shard_dns.Prelude.{
  ℕ, ◌+◌, ◌/◌, ◌%◌, ◌^◌, Bool, true, false, if◌then◌else◌, Option, none, some, List, [], ◌∷◌, ◌++◌,
  Bytes, bytes_eq, is_empty, Outcome, ok, err,
}

pub record CachedResolver : Type 0 where
  pub zones : Cache (Option Zone)
  pub names : Cache NameSet

unfoldable pub new_cached_resolver : ℕ → ℤ → CachedResolver
new_cached_resolver max_entries ttl = record {
  zones = new_cache (pos (max_entries / 8 + 64)) ttl;
  names = new_cache (pos max_entries) ttl;
}

-- `zone + "\x00" + name`
unfoldable pub name_key : Bytes → Bytes → Bytes
name_key zone name = zone ++ 0 ∷ name

unfoldable pub zone_or_missing : Option Zone → Outcome StoreError Zone
zone_or_missing none = err not_found
zone_or_missing (some z) = ok z

-- The names that the loop of `Invalidate` deletes: the name and the names above it, down the list
-- until the zone's own.
unfoldable pub until_zone : Bytes → List Bytes → List Bytes
until_zone zone [] = []
until_zone zone (n ∷ ns) =
    let rest = until_zone zone ns in n ∷ (if bytes_eq n zone then [] else rest)

module _ (zone_hash : Bytes → ℕ) (zone_order : Shard (Option Zone) → List Bytes)
    (name_hash : Bytes → ℕ) (name_order : Shard NameSet → List Bytes) where
  -- The loaded zone is stored under the epoch that was read before the load.
  unfoldable pub store_zone : CachedResolver → ℕ → Bytes → Option Zone → ℕ → CachedResolver
  store_zone c now qname z epoch = record c {
    zones = set zone_hash zone_order c.zones now qname [] z epoch;
  }

  -- The function that `FindZone` passes to `group.Do`, and what becomes of its result.
  unfoldable pub load_zone :
      CachedResolver
      → ℕ
      → Bytes
      → Outcome StoreError Zone
      → CachedResolver × Outcome StoreError Zone
  load_zone c now qname (ok z) = (store_zone c now qname (some z) c.zones.epoch, ok z)
  load_zone c now qname (err not_found) = (store_zone c now qname none c.zones.epoch, err not_found)
  load_zone c now qname (err conflict) = (c, err conflict)
  load_zone c now qname (err failure) = (c, err failure)

  unfoldable pub after_zone_get :
      CachedResolver
      → ℕ
      → Resolver
      → Bytes
      → Option (Option Zone)
      → CachedResolver × Outcome StoreError Zone
  after_zone_get c now next qname (some z) = (c, zone_or_missing z)
  after_zone_get c now next qname none = load_zone c now qname (next.find_zone qname)

  unfoldable pub find_zone_cached :
      CachedResolver → ℕ → Resolver → Bytes → CachedResolver × Outcome StoreError Zone
  find_zone_cached c now next qname =
      let hit = get zone_hash zone_order c.zones now qname in
      after_zone_get (record c { zones = hit.0 }) now next qname hit.1

  unfoldable pub load_name :
      CachedResolver
      → ℕ
      → Bytes
      → Bytes
      → Outcome StoreError NameSet
      → CachedResolver × Outcome StoreError NameSet
  load_name c now zone name (ok found) = (
    record c {
      names = set name_hash name_order c.names now (name_key zone name) zone found c.names.epoch;
    },
    ok found,
  )
  load_name c now zone name (err e) = (c, err e)

  unfoldable pub after_name_get :
      CachedResolver
      → ℕ
      → Resolver
      → Bytes
      → Bytes
      → Option NameSet
      → CachedResolver × Outcome StoreError NameSet
  after_name_get c now next zone name (some found) = (c, ok found)
  after_name_get c now next zone name none = load_name c now zone name (next.lookup_name zone name)

  unfoldable pub lookup_name_cached :
      CachedResolver → ℕ → Resolver → Bytes → Bytes → CachedResolver × Outcome StoreError NameSet
  lookup_name_cached c now next zone name =
      let hit = get name_hash name_order c.names now (name_key zone name) in
      after_name_get (record c { names = hit.0 }) now next zone name hit.1

  unfoldable pub delete_names : Cache NameSet → Bytes → List Bytes → Cache NameSet
  delete_names c zone [] = c
  delete_names c zone (n ∷ ns) =
      delete_names (delete name_hash name_order c (name_key zone n)) zone ns

  unfoldable pub invalidate : CachedResolver → Bytes → Bytes → CachedResolver
  invalidate c zone name = record {
    zones = clear c.zones;
    names =
        if is_empty name
        then delete_group c.names zone
        else delete_names c.names zone (until_zone zone (name ∷ enclosers name));
  }

  unfoldable pub invalidate_all : CachedResolver → CachedResolver
  invalidate_all c = record { zones = clear c.zones; names = clear c.names }

  unfoldable pub cached_stats : CachedResolver → ℕ × ℕ × ℕ
  cached_stats c =
      let z = stats c.zones in
      let n = stats c.names in
      ((z.0 + n.0) % 2 ^ 64, (z.1 + n.1) % 2 ^ 64, len c.zones + len c.names)
