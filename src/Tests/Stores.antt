-- ===== src/Tests/Stores.antt =====
-- The theorems of Store, Node and Service at concrete inputs.
use shard_dns.Cached.{new_cached_resolver, find_zone_cached, lookup_name_cached}
use shard_dns.Handler.{in_zone}
use shard_dns.Node.Alone.{Reach-IsLone}
use shard_dns.Node.Serial.{IsNoticed, Step-IsNoticed}
use shard_dns.Store.Alone.{IsLone}
use shard_dns.Node.Runs.{Step}
use shard_dns.Store.ZoneTable.{zone_row}
use shard_dns.Prelude.{inl, some, Option}
use shard_dns.Node.Chain.{HasNoZero}
use shard_dns.Node.Coherent.{quiet}
use shard_dns.Node.Runs.{
  Node, asked_name, record_deleted, Reach, here, next, started, answers-Reach,
}
use shard_dns.Node.{kind_record, store_resolver, on_change}
use shard_dns.Prelude.Int.{pos}
use shard_dns.Prelude.Text.{
  has_suffix, split, join, to_lower, to_upper, trim_space, trim_suffix, trim_left, trim_ascii,
  is_space, is_ascii, lower_byte, upper_byte,
}
use shard_dns.Service.Requests.{delete_record_of}
use shard_dns.Service.Steps.{IsSettled, IsStepOrNothing, call, call-Step}
use shard_dns.Service.{internal}
use shard_dns.Store.Below.{HasReverses, has_below_lem}
use shard_dns.Store.Enclosing.{encloses, IsLongest, find_zone-IsLongest}
use shard_dns.Store.RecordTable.{
  any_row, in_set, at_name_row, has_below, same_member, delete_record, lookup_name,
}
use shard_dns.Zones.{Zone}
use shard_dns.Store.ZoneTable.{scan_zone, update_zones, bump, find_zone}
use shard_dns.Store.{
  Row, Tables, reverse_name, normalize_zone, normalize_name, place_in_zone, normalize_type,
  bump_serial, next_serial, less,
}
use shard_dns.Tests.Answers.{ascii, example_zone}
use shard_dns.Tests.Caches.{by_length, keys}
use shard_dns.Tests.Wire.{www}
use shard_dns.Prelude.{
  ◌&&◌, true, List, [], ◌∷◌, ◌≡◌, refl, arith, bytes_eq, codes, select, ok, all,
}

abbrev www_row : Row
www_row = record {
  id = 1;
  zone = codes "example";
  name = www;
  name_rev = codes "example.www";
  rtype = codes "A";
  ttl = pos 300;
  rdata = codes "192.0.2.1";
}

abbrev pub rows : List Row
rows = www_row ∷ []

abbrev pub tables : Tables
tables = record { zones = example_zone ∷ []; records = rows; next_id = 2 }

pub rows-HasReverses : HasReverses rows
unfolding reverse_name split join
rows-HasReverses = (refl, tt)

has_below_lem_example :
    has_below (codes "example") (codes "example") rows
    ≡ any_row
        (λ r. bytes_eq r.zone (codes "example") && has_suffix r.name (b'.' ∷ codes "example"))
        rows
has_below_lem_example = has_below_lem (codes "example") (codes "example") rows rows-HasReverses

find_zone-IsLongest_example :
    (z : Option Zone) × (find_zone ⦃u = ascii⦄ quiet tables www ≡ scan_zone z)
    × IsLongest (encloses (normalize_zone ⦃u = ascii⦄ www)) tables.zones z
find_zone-IsLongest_example = find_zone-IsLongest ⦃u = ascii⦄ quiet tables www refl

example-HasNoZero : HasNoZero (codes "example")
example-HasNoZero = omega arith

abbrev asked : Node
asked = record (started tables 100 (pos 60)) {
  caches =
      (lookup_name_cached by_length keys by_length keys (new_cached_resolver 100 (pos 60)) 5
        (store_resolver ⦃u = ascii⦄ quiet tables) (codes "example") www).0;
}

-- The record has gone, and the zone has a new serial.
abbrev emptied : Tables
emptied = record { zones = record example_zone { serial = pos 9 } ∷ []; records = []; next_id = 2 }

abbrev deleted : Node
deleted = record {
  db = emptied;
  caches = on_change by_length keys by_length keys asked.caches kind_record (codes "example") www;
}

normal_zone : normalize_zone ⦃u = ascii⦄ (codes "example") ≡ codes "example"
unfolding normalize_zone to_lower trim_space trim_suffix is_ascii trim_ascii trim_left is_space
    lower_byte has_suffix
normal_zone = refl

delete_record-tables :
    delete_record ⦃u = ascii⦄ quiet
      (λ b. b)
      (pos 9)
      tables
      (codes "example")
      www
      (codes "A")
      (codes "192.0.2.1")
    ≡ ok emptied
unfolding delete_record normalize_zone normalize_name place_in_zone normalize_type to_lower to_upper
    trim_space trim_suffix is_ascii trim_ascii trim_left is_space lower_byte upper_byte has_suffix
    any_row same_member in_set at_name_row bytes_eq select update_zones bump bump_serial next_serial
    less all
delete_record-tables = refl

normal_name : normalize_name ⦃u = ascii⦄ (codes "example") www ≡ www
unfolding normalize_name place_in_zone normalize_zone to_lower trim_space trim_suffix is_ascii
    trim_ascii trim_left is_space lower_byte has_suffix all
normal_name = refl

www-in_zone : in_zone www (codes "example") ≡ true
unfolding in_zone has_suffix
www-in_zone = refl

deletion : Step ⦃u = ascii⦄ by_length keys by_length keys (λ b. b) asked deleted
deletion =
    record_deleted quiet (pos 9) (codes "example") www (codes "A") (codes "192.0.2.1")
      delete_record-tables (rw (normal_zone, normal_name) refl)

run : Reach ⦃u = ascii⦄ by_length keys by_length keys (λ b. b) (started tables 100 (pos 60)) deleted
run = next (next here (asked_name 5 quiet (codes "example") www example-HasNoZero refl)) deletion

rows-IsLone : IsLone rows
unfolding bytes_eq
rows-IsLone = (inl refl, tt)

Reach-IsLone_example : IsLone []
Reach-IsLone_example =
    Reach-IsLone ⦃u = ascii⦄ by_length keys by_length keys (λ b. b) run rows-IsLone

zone_before : zone_row (codes "example") tables.zones ≡ some example_zone
unfolding zone_row bytes_eq
zone_before = refl

zone_after :
    zone_row (codes "example") emptied.zones ≡ some (record example_zone { serial = pos 9 })
unfolding zone_row bytes_eq
zone_after = refl

Step-IsNoticed_example :
    IsNoticed (codes "example") tables emptied example_zone (record example_zone { serial = pos 9 })
Step-IsNoticed_example =
    Step-IsNoticed ⦃u = ascii⦄ by_length keys by_length keys (λ b. b) deletion (codes "example")
      zone_before zone_after

answers-Reach_example :
    ((lookup_name_cached by_length keys by_length keys deleted.caches 9
        (store_resolver ⦃u = ascii⦄ quiet emptied)
        (codes "example")
        www).1
      ≡ lookup_name ⦃u = ascii⦄ quiet emptied (codes "example") www)
    × ((find_zone_cached by_length keys by_length keys deleted.caches 9
          (store_resolver ⦃u = ascii⦄ quiet emptied)
          www).1
        ≡ find_zone ⦃u = ascii⦄ quiet emptied www)
answers-Reach_example =
    answers-Reach ⦃u = ascii⦄ by_length keys by_length keys (λ b. b) tables 100 (pos 60)
      rows-HasReverses run 9 (codes "example") www www example-HasNoZero www-in_zone

example-IsSettled :
    IsSettled ⦃u = ascii⦄
      (delete_record_of (codes "Example.") (codes "www") (codes "a") (codes "192.0.2.1"))
unfolding normalize_name place_in_zone normalize_zone to_lower trim_space trim_suffix is_ascii
    trim_ascii trim_left is_space lower_byte has_suffix all
example-IsSettled = (refl, refl)

call-Step_example :
    IsStepOrNothing ⦃u = ascii⦄ by_length keys by_length keys internal
      (λ b. b)
      asked
      (call ⦃u = ascii⦄ by_length keys by_length keys internal
        (λ b. b)
        (λ i. quiet)
        (pos 9)
        (delete_record_of (codes "Example.") (codes "www") (codes "a") (codes "192.0.2.1"))
        asked)
call-Step_example =
    call-Step ⦃u = ascii⦄ by_length keys by_length keys internal (λ b. b) (λ i. quiet) (pos 9) asked
      (delete_record_of (codes "Example.") (codes "www") (codes "a") (codes "192.0.2.1"))
      example-IsSettled
