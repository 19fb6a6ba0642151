-- ===== src/Tests/Creation.antt =====
-- A record is created and looked up.
use shard_dns.Cached.{new_cached_resolver}
use shard_dns.Node.Coherent.{quiet}
use shard_dns.Node.Runs.{Node, record_created, Reach, here, next, started}
use shard_dns.Node.Uniform.{IsUniform, Reach-IsUniform}
use shard_dns.Node.{kind_record, on_change}
use shard_dns.Prelude.Int.{pos}
use shard_dns.Prelude.Text.{
  has_suffix, split, join, to_lower, to_upper, trim_space, trim_suffix, trim_left, trim_ascii,
  is_space, is_ascii, lower_byte, upper_byte,
}
use shard_dns.Store.Created.{create_record-lookup_name}
use shard_dns.Store.RecordTable.{
  any_row, at_name_row, in_set, upsert, inserted, new_row, check_cname, create_checks,
  create_record, lookup_name,
}
use shard_dns.Store.ZoneTable.{zone_row, update_zones, bump}
use shard_dns.Store.{
  Row, reverse_name, normalize_zone, normalize_name, place_in_zone, normalize_type, bump_serial,
  next_serial, less, scan_record,
}
use shard_dns.Tests.Answers.{ascii, example_zone}
use shard_dns.Tests.Caches.{by_length, keys}
use shard_dns.Tests.Stores.{tables}
use shard_dns.Zones.{Zone, Record, NameSet}
use shard_dns.Prelude.{
  IsIn, false, none, List, [], ◌∷◌, ◌≡◌, refl, inr, Bytes, bytes_eq, codes, ok, all,
}

abbrev mail : Record
mail = record {
  id = 0;
  zone = codes "example";
  name = codes "mail";
  rtype = codes "ptr";
  ttl = pos 60;
  rdata = codes "a";
  wire = none;
  wire_err = false;
}

abbrev mail_name : Bytes
mail_name = codes "mail.example"

abbrev mail_row : Row
mail_row = record {
  id = 2;
  zone = codes "example";
  name = mail_name;
  name_rev = codes "example.mail";
  rtype = codes "PTR";
  ttl = pos 60;
  rdata = codes "a";
}

abbrev risen : List Zone
risen = record example_zone { serial = pos 9 } ∷ []

program : Unit {0}
unfolding normalize_name place_in_zone normalize_zone to_lower to_upper trim_space trim_suffix
    is_ascii trim_ascii trim_left is_space lower_byte upper_byte has_suffix all normalize_type
    reverse_name split join
program = tt

mail_name-normal :
    normalize_name ⦃u = ascii⦄ (normalize_zone ⦃u = ascii⦄ (codes "example")) (codes "mail")
    ≡ mail_name
unfolding program
mail_name-normal = refl

mail_created :
    create_record ⦃u = ascii⦄ quiet (λ b. b) (pos 9) tables mail
    ≡ ok (
      inserted (λ b. b) risen tables mail_row,
      scan_record ⦃u = ascii⦄ (upsert (λ b. b) mail_row tables.records).0,
    )
unfolding program create_record create_checks check_cname new_row any_row in_set at_name_row
    bytes_eq update_zones bump bump_serial next_serial less zone_row
mail_created = refl

create_record-lookup_name_example :
    (set : NameSet) × (lookup_name ⦃u = ascii⦄ quiet
        (inserted (λ b. b) risen tables mail_row)
        (normalize_zone ⦃u = ascii⦄ (codes "example"))
        (normalize_name ⦃u = ascii⦄ (normalize_zone ⦃u = ascii⦄ (codes "example")) (codes "mail"))
      ≡ ok set)
    × IsIn (scan_record ⦃u = ascii⦄ (upsert (λ b. b) mail_row tables.records).0) set.records
create_record-lookup_name_example =
    create_record-lookup_name ⦃u = ascii⦄ quiet quiet (λ b. b) (pos 9) tables mail mail_created refl

-- A node on which the record is created.
abbrev filled : Node
filled = record {
  db = inserted (λ b. b) risen tables mail_row;
  caches =
      on_change by_length keys by_length keys (new_cached_resolver 100 (pos 60)) kind_record
        (normalize_zone ⦃u = ascii⦄ (codes "example"))
        (normalize_name ⦃u = ascii⦄ (normalize_zone ⦃u = ascii⦄ (codes "example")) (codes "mail"));
}

creation :
    Reach ⦃u = ascii⦄ by_length keys by_length keys (λ b. b) (started tables 100 (pos 60)) filled
creation = next here (
    record_created quiet (pos 9) mail
      (scan_record ⦃u = ascii⦄ (upsert (λ b. b) mail_row tables.records).0) mail_created refl)

tables-IsUniform : IsUniform tables.records
tables-IsUniform = ((inr refl, tt), tt)

Reach-IsUniform_example : IsUniform filled.db.records
Reach-IsUniform_example =
    Reach-IsUniform ⦃u = ascii⦄ by_length keys by_length keys (λ b. b) creation tables-IsUniform
