-- ===== src/Store.antt =====
-- internal/store/store.go, zone.go and record.go: the normal form of names, and the tables.
-- The tables zones and records of db/schema.sql are lists of rows in the order of insertion, and
-- each SQL statement is the operation on them that its text says. The times of creation and change
-- are left out. An identifier of a row is the next number; numbers that a rolled-back insertion
-- would skip are not skipped. A query without ORDER BY answers in the table's order.
pub mod Names
pub mod ZoneTable
pub mod RecordTable
pub mod Below
pub mod Untouched
pub mod Lookup
pub mod Enclosing
pub mod Alone
pub mod Serial
pub mod After
pub mod Created
pub mod Token
pub mod Paging
use mathlib.Core.List.{reverse}
use shard_dns.Name.{PackError, pack_name_too_long, empty_label, pack_label_too_long}
use shard_dns.Prelude.Int.{ℤ, pos, negsuc}
use shard_dns.Prelude.Text.{
  GoRuntime, to_lower, to_upper, trim_space, trim_suffix, has_suffix, split, join,
}
use shard_dns.RData.Build.{build_rdata}
use shard_dns.RData.{RDataError, bad_name}
use shard_dns.Wire.TypeNames.{type_code}
use shard_dns.Zones.{StoreError, not_found, conflict, failure, Zone, Record}
use shard_dns.Prelude.{
  ℕ, zero, suc, ◌+◌, ◌<◌, Bool, true, false, not, ◌||◌, ◌&&◌, ltb, leb, ◌==◌, if◌then◌else◌, Option,
  none, some, List, [], ◌∷◌, ◌++◌, map, Bytes, bytes_eq, codes, is_empty, length, take, get_elem?,
  ◌-◌, select, Outcome, ok, err,
}

-- The swaps of `labels` from both ends turn it round.
unfoldable pub reverse_name : Bytes → Bytes
reverse_name name = join (codes ".") (reverse (split b'.' name))

module _ ⦃u : GoRuntime⦄ where
  unfoldable pub normalize_zone : Bytes → Bytes
  normalize_zone name = trim_suffix (to_lower (trim_space name)) (codes ".")

  -- `NormalizeName`, behind its first line.
  unfoldable pub place_in_zone : Bytes → Bytes → Bytes
  place_in_zone zone name =
      if is_empty name || bytes_eq name (codes "@") || bytes_eq name zone
      then zone
      else if has_suffix name (b'.' ∷ zone)
      then name
      else name ++ b'.' ∷ zone

  unfoldable pub normalize_name : Bytes → Bytes → Bytes
  normalize_name zone name = place_in_zone zone (normalize_zone name)

  unfoldable pub normalize_type : Bytes → Bytes
  normalize_type t = to_upper (trim_space t)

-- A row of the table records.
pub record Row : Type 0 where
  pub id : ℕ
  pub zone : Bytes
  pub name : Bytes
  pub name_rev : Bytes
  pub rtype : Bytes
  pub ttl : ℤ
  pub rdata : Bytes

pub record Tables : Type 0 where
  pub zones : List Zone
  pub records : List Row
  pub next_id : ℕ

-- `serial + 1` on a bigint, whose overflow fails the statement.
unfoldable pub next_serial : ℤ → Option ℤ
next_serial (pos n) = if ltb n 9223372036854775807 then some (pos (n + 1)) else none
next_serial (negsuc zero) = some (pos 0)
next_serial (negsuc (suc n)) = some (negsuc n)

unfoldable pub less : ℤ → ℤ → Bool
less (pos a) (pos b) = ltb a b
less (pos a) (negsuc b) = false
less (negsuc a) (pos b) = true
less (negsuc a) (negsuc b) = ltb b a

-- `GREATEST(serial + 1, extract(epoch from now()))`
unfoldable pub bump_serial : ℤ → ℤ → Option ℤ
bump_serial now serial = elim (next_serial serial) [
  | none ↦ none
  | some s ↦ some (if less s now then now else s)
]

abbrev pub pack_buffer : PackError → Bytes
pack_buffer (pack_name_too_long b) = b
pack_buffer (empty_label b) = b
pack_buffer (pack_label_too_long b) = b

module _ ⦃u : GoRuntime⦄ where
  -- What the encoder of cmd/sharddnsd/main.go returns beside an error.
  unfoldable pub partial_wire : RDataError → Option Bytes
  partial_wire (bad_name e) = let b = pack_buffer e in if is_empty b then none else some b
  partial_wire _ = none

  unfoldable pub scan_record : Row → Record
  scan_record r = elim (build_rdata (type_code r.rtype) r.rdata) [
    | ok w ↦ record {
      id = r.id;
      zone = r.zone;
      name = r.name;
      rtype = r.rtype;
      ttl = r.ttl;
      rdata = r.rdata;
      wire = some w;
      wire_err = false;
    }
    | err e ↦ record {
      id = r.id;
      zone = r.zone;
      name = r.name;
      rtype = r.rtype;
      ttl = r.ttl;
      rdata = r.rdata;
      wire = partial_wire e;
      wire_err = true;
    }
  ]

  unfoldable pub collect_records : List Row → List Record
  collect_records rows = map scan_record rows

-- A statement of a call: `faults i` tells whether the database fails at the call's statement `i`.
abbrev pub statement : (ℕ → Bool) → ℕ → Outcome StoreError (Unit {0})
statement faults i = if faults i then err failure else ok tt

-- A page of the rows that were read with one row more than the limit, and the token of the next.
unfoldable pub page {ℓ} : {A : Type ℓ} → (A → Bytes) → ℕ → List A → List A × Bytes
page token limit rows =
    if ltb limit (length rows)
    then (take limit rows, elim (get_elem? rows (limit - 1)) [ none ↦ [] | some last ↦ token last ])
    else (rows, [])

-- ORDER BY, for the order in which `before x y` says that `x` comes before `y`.
unfoldable pub insert_by {ℓ} : {A : Type ℓ} → (A → A → Bool) → A → List A → List A
insert_by before x [] = x ∷ []
insert_by before x (y ∷ ys) =
    let rest = insert_by before x ys in if before y x then y ∷ rest else x ∷ y ∷ ys

unfoldable pub order_by {ℓ} : {A : Type ℓ} → (A → A → Bool) → List A → List A
unfolding insert_by
order_by before [] = []
order_by before (x ∷ xs) = insert_by before x (order_by before xs)
