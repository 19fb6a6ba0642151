-- ===== src/Store/RecordTable.antt =====
-- internal/store/record.go. The function `md5` of the database is a parameter.
use shard_dns.Prelude.Int.{ℤ}
use shard_dns.Prelude.Text.{GoRuntime, decimal, parse_uint_base10}
use shard_dns.Store.ZoneTable.{zone_row, update_zones, bump}
use shard_dns.Store.{
  Row, Tables, normalize_zone, normalize_name, normalize_type, reverse_name, scan_record,
  collect_records, statement, page, order_by,
}
use shard_dns.Zones.{StoreError, not_found, conflict, failure, Zone, Record, NameSet}
use shard_dns.Prelude.{
  ℕ, ◌+◌, Bool, true, false, not, ◌||◌, ◌&&◌, ltb, ◌==◌, if◌then◌else◌, Option, none, some, List,
  [], ◌∷◌, ◌++◌, Bytes, bytes_eq, codes, is_empty, take, select, Outcome, ok, err, ◌>>=◌, ◌>>◌,
  guard,
}

-- `EXISTS (SELECT 1 FROM records WHERE …)`
unfoldable pub any_row : (Row → Bool) → List Row → Bool
any_row p [] = false
any_row p (r ∷ rs) = let rest = any_row p rs in if p r then true else rest

-- `UPDATE records SET ttl = … WHERE …`
unfoldable pub set_ttl : (Row → Bool) → ℤ → List Row → List Row
set_ttl p ttl [] = []
set_ttl p ttl (r ∷ rs) = (if p r then record r { ttl = ttl } else r) ∷ set_ttl p ttl rs

unfoldable pub at_name_row : Bytes → Bytes → Row → Bool
at_name_row zone name r = bytes_eq r.zone zone && bytes_eq r.name name

unfoldable pub in_set : Bytes → Bytes → Bytes → Row → Bool
in_set zone name rtype r = at_name_row zone name r && bytes_eq r.rtype rtype

-- `r >= $2 AND r < $3` in the collation "C": the order of the bytes.
unfoldable pub bytes_lt : Bytes → Bytes → Bool
bytes_lt a [] = false
bytes_lt [] (y ∷ b) = true
bytes_lt (x ∷ a) (y ∷ b) = ltb x y || (x == y && bytes_lt a b)

unfoldable pub in_range : Bytes → Bytes → Bytes → Bool
in_range lo hi b = not (bytes_lt b lo) && bytes_lt b hi

-- `strconv.ParseInt(after, 10, 64)` and the test `id < 0`: `none` is an invalid token.
unfoldable pub token_value : Bytes → Option ℕ
token_value [] = none
token_value (c ∷ s) =
    if c == b'+'
    then parse_uint_base10 s 9223372036854775808
    else if c == b'-'
    then parse_uint_base10 s 1
    else parse_uint_base10 (c ∷ s) 9223372036854775808

unfoldable pub after_id : Bytes → Outcome StoreError ℕ
after_id after =
    if is_empty after
    then ok 0
    else elim (token_value after) [ none ↦ err failure | some id ↦ ok id ]

-- Is there a row below the name? The range of `name_rev` begins with the reversed name and a dot.
unfoldable pub has_below : Bytes → Bytes → List Row → Bool
has_below zone name rows =
    let rev = reverse_name name in
    any_row (λ r. bytes_eq r.zone zone && in_range (rev ++ codes ".") (rev ++ codes "/") r.name_rev)
      rows

module _ (md5 : Bytes → Bytes) where
  unfoldable pub same_member : Bytes → Bytes → Bytes → Bytes → Row → Bool
  same_member zone name rtype rdata r =
      in_set zone name rtype r && bytes_eq (md5 r.rdata) (md5 rdata)

  -- The row of `INSERT … ON CONFLICT … DO UPDATE`, and the table after it.
  unfoldable pub upsert : Row → List Row → Row × List Row
  upsert new [] = (new, new ∷ [])
  upsert new (r ∷ rs) =
      let kept = record r { ttl = new.ttl } in
      let rest = upsert new rs in
      if same_member new.zone new.name new.rtype new.rdata r
      then (kept, kept ∷ rs)
      else (rest.0, r ∷ rest.1)

  -- The tables after the insertion and the update of the set's time to live.
  unfoldable pub inserted : List Zone → Tables → Row → Tables
  inserted zones' db new = record {
    zones = zones';
    records = set_ttl (in_set new.zone new.name new.rtype) new.ttl (upsert new db.records).1;
    next_id = db.next_id + 1;
  }

module _ ⦃u : GoRuntime⦄ where
  -- The row that `CreateRecord` asks for, under the next identifier.
  unfoldable pub new_row : Tables → Record → Row
  new_row db r =
      let zone = normalize_zone r.zone in
      let name = normalize_name zone r.name in
      record {
        id = db.next_id;
        zone = zone;
        name = name;
        name_rev = reverse_name name;
        rtype = normalize_type r.rtype;
        ttl = r.ttl;
        rdata = r.rdata;
      }

module _ ⦃u : GoRuntime⦄ (faults : ℕ → Bool) where
  module _ (md5 : Bytes → Bytes) where
    -- The tests of `CreateRecord` on what stands at the name.
    unfoldable pub check_cname :
        Bytes → Bytes → Bytes → Bytes → List Row → Outcome StoreError (Unit {0})
    check_cname zone name rtype rdata rows =
        if bytes_eq rtype (codes "CNAME")
        then guard (not (bytes_eq name zone)) conflict
          >> statement faults 2
          >> guard
              (not (
                any_row
                  (λ r.
                    at_name_row zone name r
                    && (not (bytes_eq r.rtype (codes "CNAME"))
                        || not (bytes_eq (md5 r.rdata) (md5 rdata))))
                  rows))
              conflict
        else statement faults 2
          >> guard (not (any_row (in_set zone name (codes "CNAME")) rows)) conflict

    -- What stands between the new serial and the end of the transaction.
    unfoldable pub create_checks : Tables → Row → Outcome StoreError (Unit {0})
    create_checks db new =
        (elim (zone_row new.zone db.zones) [ none ↦ err not_found | some _ ↦ ok tt ])
        >> check_cname new.zone new.name new.rtype new.rdata db.records
        >> statement faults 3
        >> statement faults 4
        >> statement faults 5

    unfoldable pub create_record : ℤ → Tables → Record → Outcome StoreError (Tables × Record)
    create_record now db r =
        let new = new_row db r in
        statement faults 0
        >> statement faults 1
        >> update_zones new.zone (bump now) db.zones
        >>= λ zones'.
            create_checks db new
            >> ok (inserted md5 zones' db new, scan_record (upsert md5 new db.records).0)

    unfoldable pub delete_record :
        ℤ → Tables → Bytes → Bytes → Bytes → Bytes → Outcome StoreError Tables
    delete_record now db zone_name record_name type_text rdata =
        let zone = normalize_zone zone_name in
        let name = normalize_name zone record_name in
        let gone = same_member md5 zone name (normalize_type type_text) rdata in
        statement faults 0
        >> statement faults 1
        >> guard (any_row gone db.records) not_found
        >> statement faults 2
        >> update_zones zone (bump now) db.zones
        >>= λ zones'.
            statement faults 3
            >> ok (record db { zones = zones'; records = select (λ r. not (gone r)) db.records })

  unfoldable pub list_records :
      Tables → Bytes → ℕ → Bytes → Outcome StoreError (List Record × Bytes)
  list_records db zone limit after = after_id after >>= λ id.
      statement faults 0
      >> ok (
          page (λ r. decimal r.id) limit
            (collect_records (
              take (limit + 1) (
                order_by (λ a b. ltb a.id b.id)
                  (select (λ r. bytes_eq r.zone (normalize_zone zone) && ltb id r.id)
                    db.records)))))

  unfoldable pub get_records : Tables → Bytes → Bytes → Bytes → Outcome StoreError (List Record)
  get_records db zone_name name type_text =
      let zone = normalize_zone zone_name in
      statement faults 0
      >> ok (
          collect_records (
            order_by (λ a b. ltb a.id b.id)
              (select (in_set zone (normalize_name zone name) (normalize_type type_text))
                db.records)))

  unfoldable pub lookup_name : Tables → Bytes → Bytes → Outcome StoreError NameSet
  lookup_name db zone name =
      let records = collect_records (select (at_name_row zone name) db.records) in
      statement faults 0
      >> (if not (is_empty records)
          then ok (record { records = records; has_children = false })
          else (statement faults 1
              >> ok (record { records = []; has_children = has_below zone name db.records })))
