-- ===== src/Zones.antt =====
-- The data of internal/store/store.go: zones, records, name sets, the store's errors, and the
-- interface `Resolver` between the store and the handler. Database times are left out.
use shard_dns.Prelude.Int.{ℤ}
use shard_dns.Prelude.{ℕ, Bool, not, ◌||◌, Option, List, Bytes, is_empty, Outcome}

-- `ErrNotFound`, `ErrConflict`, and every other error.
pub data StoreError : Type 0 where
  not_found conflict failure : StoreError

pub record Zone : Type 0 where
  pub name : Bytes
  pub primary_ns : Bytes
  pub admin_email : Bytes
  pub serial : ℤ
  pub refresh : ℤ
  pub retry : ℤ
  pub expire : ℤ
  pub min_ttl : ℤ

-- `wire` is the field `Wire`, with `none` for nil; `wire_err` tells whether `WireErr` is set.
pub record Record : Type 0 where
  pub id : ℕ
  pub zone : Bytes
  pub name : Bytes
  pub rtype : Bytes
  pub ttl : ℤ
  pub rdata : Bytes
  pub wire : Option Bytes
  pub wire_err : Bool

pub record NameSet : Type 0 where
  pub records : List Record
  pub has_children : Bool

unfoldable pub exists : NameSet → Bool
exists n = not (is_empty n.records) || n.has_children

-- What answers one query: the answers do not change while it runs.
pub record Resolver : Type 0 where
  pub find_zone : Bytes → Outcome StoreError Zone
  pub lookup_name : Bytes → Bytes → Outcome StoreError NameSet
