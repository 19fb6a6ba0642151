-- ===== src/Store/ZoneTable.antt =====
-- internal/store/zone.go. The collation of the database, in which zones are listed, is a parameter.
use shard_dns.Handler.Lookup.{enclosers}
use shard_dns.Prelude.Int.{ℤ}
use shard_dns.Prelude.Text.{GoRuntime}
use shard_dns.Store.{Tables, normalize_zone, bump_serial, statement, page, order_by}
use shard_dns.Zones.{StoreError, not_found, conflict, failure, Zone}
use shard_dns.Prelude.{
  ℕ, ◌+◌, Bool, true, false, not, ltb, if◌then◌else◌, Option, none, some, List, [], ◌∷◌, ◌++◌,
  Bytes, bytes_eq, is_empty, take, length, select, Outcome, ok, err, ◌>>=◌, ◌>>◌,
}

-- `SELECT … FROM zones WHERE name = $1`
unfoldable pub zone_row : Bytes → List Zone → Option Zone
zone_row name [] = none
zone_row name (z ∷ zs) =
    let rest = zone_row name zs in if bytes_eq z.name name then some z else rest

-- `scanZone`
abbrev pub scan_zone : Option Zone → Outcome StoreError Zone
scan_zone none = err not_found
scan_zone (some z) = ok z

-- `UPDATE zones SET … WHERE name = $1`: an update of a row that has no value fails.
unfoldable pub update_zones :
    Bytes → (Zone → Option Zone) → List Zone → Outcome StoreError (List Zone)
update_zones name f [] = ok []
update_zones name f (z ∷ zs) =
    let rest = update_zones name f zs in
    if bytes_eq z.name name
    then elim (f z) [ none ↦ err failure | some z' ↦ rest >>= λ zs'. ok (z' ∷ zs') ]
    else (rest >>= λ zs'. ok (z ∷ zs'))

-- The assignment `bumpSerial` alone.
unfoldable pub bump : ℤ → Zone → Option Zone
bump now z = elim (bump_serial now z.serial) [
  | none ↦ none
  | some s ↦ some (record z { serial = s })
]

unfoldable pub in_list : Bytes → List Bytes → Bool
in_list b [] = false
in_list b (c ∷ cs) = let rest = in_list b cs in if bytes_eq b c then true else rest

-- The loop over `name` in `FindZone`: it stops behind the last dot, or at an empty name.
unfoldable pub until_empty : List Bytes → List Bytes
until_empty [] = []
until_empty (n ∷ ns) = let rest = until_empty ns in if is_empty n then [] else n ∷ rest

unfoldable pub candidates : Bytes → List Bytes
candidates qname = until_empty (qname ∷ enclosers qname)

-- `ORDER BY length(name) DESC LIMIT 1`
unfoldable pub longest : List Zone → Option Zone
longest [] = none
longest (z ∷ zs) = elim (longest zs) [
  | none ↦ some z
  | some w ↦ some (if ltb (length z.name) (length w.name) then w else z)
]

-- The assignments of `UpdateZone`.
unfoldable pub set_soa : ℤ → Zone → Zone → Option Zone
set_soa now z row = bump now (record row {
  primary_ns = z.primary_ns;
  admin_email = z.admin_email;
  refresh = z.refresh;
  retry = z.retry;
  expire = z.expire;
  min_ttl = z.min_ttl;
})

module _ ⦃u : GoRuntime⦄ (faults : ℕ → Bool) where
  unfoldable pub create_zone : ℤ → Tables → Zone → Outcome StoreError (Tables × Zone)
  create_zone now db z =
      let name = normalize_zone z.name in
      let row = record z { name = name; serial = now } in
      if is_empty name
      then err failure
      else (statement faults 0 >> elim (zone_row name db.zones) [
        | some _ ↦ err conflict
        | none ↦ ok (record db { zones = db.zones ++ (row ∷ []) }, row)
      ])

  unfoldable pub get_zone : Tables → Bytes → Outcome StoreError Zone
  get_zone db name = statement faults 0 >> scan_zone (zone_row (normalize_zone name) db.zones)

  unfoldable pub update_zone : ℤ → Tables → Zone → Outcome StoreError (Tables × Zone)
  update_zone now db z =
      let name = normalize_zone z.name in
      statement faults 0 >> update_zones name (set_soa now z) db.zones >>= λ zones'.
      scan_zone (zone_row name zones') >>= λ out. ok (record db { zones = zones' }, out)

  -- The records of a zone go with it: `ON DELETE CASCADE`.
  unfoldable pub delete_zone : Tables → Bytes → Outcome StoreError Tables
  delete_zone db name =
      let zone = normalize_zone name in
      statement faults 0 >> elim (zone_row zone db.zones) [
        | none ↦ err not_found
        | some _ ↦ ok (record db {
          zones = select (λ z. not (bytes_eq z.name zone)) db.zones;
          records = select (λ r. not (bytes_eq r.zone zone)) db.records;
        })
      ]

  -- `before` is the order of zone names in the database's collation.
  unfoldable pub list_zones :
      (Bytes → Bytes → Bool) → Tables → ℕ → Bytes → Outcome StoreError (List Zone × Bytes)
  list_zones before db limit after =
      statement faults 0
      >> ok (
          page (λ z. z.name) limit
            (take (limit + 1) (
              order_by (λ y z. before y.name z.name) (select (λ z. before after z.name) db.zones))))

  -- The lengths are those of names that end alike, which bytes and characters order in one way.
  unfoldable pub find_zone : Tables → Bytes → Outcome StoreError Zone
  find_zone db qname =
      let names = candidates (normalize_zone qname) in
      if is_empty names
      then err not_found
      else (statement faults 0 >> scan_zone (longest (select (λ z. in_list z.name names) db.zones)))
