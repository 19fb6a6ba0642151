-- ===== src/Store/After.antt =====
-- The zones after each operation that changes the tables.
use shard_dns.Prelude.Int.{ℤ}
use shard_dns.Prelude.Text.{GoRuntime}
use shard_dns.Store.RecordTable.{
  any_row, create_checks, same_member, new_row, inserted, create_record, delete_record,
}
use shard_dns.Store.ZoneTable.{
  zone_row, scan_zone, update_zones, bump, set_soa, create_zone, update_zone, delete_zone,
}
use shard_dns.Store.{Tables, normalize_zone, normalize_name, normalize_type, statement}
use shard_dns.Zones.{not_found, conflict, failure, Zone, Record}
use shard_dns.Prelude.{
  ℕ, Bool, not, if◌then◌else◌, none, some, List, [], ◌∷◌, ◌++◌, ◌≡◌, refl, sym, ap, ◌∙◌, Bytes,
  bytes_eq, bytes_eq_iff, bytes_eq_refl, is_empty, select, Bool-cases, Option-cases, inl, inr, ok,
  err, >>=-eq-ok, >>-eq-ok, guard, ◌>>◌,
}

module _ ⦃u : GoRuntime⦄ (faults : ℕ → Bool) (md5 : Bytes → Bytes) (now : ℤ) (db : Tables) where
  pub create_record-zones :
      (r : Record) {db' : Tables} {out : Record}
      → create_record faults md5 now db r ≡ ok (db', out)
      → update_zones (normalize_zone r.zone) (bump now) db.zones ≡ ok db'.zones
  unfolding create_record new_row
  create_record-zones r {db'} {out} h =
      let new = new_row db r in
      let (zones', up, rest) =
        >>=-eq-ok
          (statement faults 0 >> statement faults 1 >> update_zones new.zone (bump now) db.zones) _
          h in
      let (checked, made) = >>-eq-ok (create_checks faults md5 db new) _ rest in
      let (started, risen) = >>-eq-ok (statement faults 0 >> statement faults 1) _ up in
      let same : inserted md5 zones' db new ≡ db' = cc in
      risen ∙ unfold inserted in ap (λ d. ok d.zones) same

  pub delete_record-zones :
      (z n t d : Bytes) {db' : Tables}
      → delete_record faults md5 now db z n t d ≡ ok db'
      → update_zones (normalize_zone z) (bump now) db.zones ≡ ok db'.zones
  unfolding delete_record
  delete_record-zones z n t d {db'} h =
      let zone = normalize_zone z in
      let gone = same_member md5 zone (normalize_name zone n) (normalize_type t) d in
      let before =
        statement faults 0
        >> statement faults 1
        >> guard (any_row gone db.records) not_found
        >> statement faults 2 in
      let (zones', up, rest) = >>=-eq-ok (before >> update_zones zone (bump now) db.zones) _ h in
      let (committed, made) = >>-eq-ok (statement faults 3) _ rest in
      let (started, risen) = >>-eq-ok before _ up in
      let left : Tables = record db {
        zones = zones';
        records = select (λ r. not (gone r)) db.records;
      } in
      let same : left ≡ db' = cc in risen ∙ ap (λ d. ok d.zones) same

  pub update_zone-zones :
      (z : Zone) {db' : Tables} {out : Zone}
      → update_zone faults now db z ≡ ok (db', out)
      → update_zones (normalize_zone z.name) (set_soa now z) db.zones ≡ ok db'.zones
  unfolding update_zone
  update_zone-zones z {db'} {out} h =
      let name = normalize_zone z.name in
      let (zones', up, rest) =
        >>=-eq-ok (statement faults 0 >> update_zones name (set_soa now z) db.zones) _ h in
      let (started, risen) = >>-eq-ok (statement faults 0) _ up in
      let (row, found, made) = >>=-eq-ok (scan_zone (zone_row name zones')) _ rest in
      let left : Tables = record db { zones = zones' } in
      let same : left ≡ db' = cc in risen ∙ ap (λ d. ok d.zones) same

pub zone_row-append :
    (m : Bytes) (zs : List Zone) (w : Zone) {z : Zone}
    → zone_row m zs ≡ some z
    → zone_row m (zs ++ w ∷ []) ≡ some z
unfolding zone_row
zone_row-append m [] w h = absurd cc
zone_row-append m (v ∷ zs) w {z} h = elim (Bool-cases (bytes_eq v.name m)) [
  | inl e ↦ let f : some v ≡ some z = rw e at h in rw e f
  | inr e ↦ rw e (zone_row-append m zs w (rw e at h))
]

-- The rows of other zones stay when those of a zone go, and none is left of the zone.
pub zone_row-select :
    (zone m : Bytes) (zs : List Zone)
    → zone_row m (select (λ z. not (bytes_eq z.name zone)) zs)
      ≡ (if bytes_eq m zone then none else zone_row m zs)
unfolding zone_row select
zone_row-select zone m [] = elim (Bool-cases (bytes_eq m zone)) [
  | inl e ↦ rw e refl
  | inr e ↦ rw e refl
]
zone_row-select zone m (v ∷ zs) =
    let ih = zone_row-select zone m zs in
    elim (Bool-cases (bytes_eq v.name m)) [
      | inl e ↦
          let at_m = (bytes_eq_iff v.name m).0 e in
          elim (Bool-cases (bytes_eq m zone)) [
            | inl t ↦ rw (at_m, t) (ih ∙ rw t refl)
            | inr t ↦ rw (at_m, t, bytes_eq_refl m) refl
          ]
      | inr e ↦ elim (Bool-cases (bytes_eq v.name zone)) [
        | inl t ↦ rw (t, e) ih
        | inr t ↦ rw (t, e) ih
      ]
    ]

module _ ⦃u : GoRuntime⦄ (faults : ℕ → Bool) (db : Tables) where
  pub create_zone-zones :
      (now : ℤ) (z : Zone) {db' : Tables} {out : Zone}
      → create_zone faults now db z ≡ ok (db', out)
      → (w : Zone) × (db'.zones ≡ db.zones ++ w ∷ [])
  unfolding create_zone
  create_zone-zones now z {db'} {out} h =
      let name = normalize_zone z.name in
      let row = record z { name = name; serial = now } in
      elim (Bool-cases (is_empty name)) [
        | inl e ↦ absurd (let f : err failure ≡ ok (db', out) = rw e at h in cc)
        | inr e ↦
            let (up, rest) = >>-eq-ok (statement faults 0) _ (rw e at h) in
            elim (Option-cases (zone_row name db.zones)) [
              | inr (w, t) ↦ absurd (let f : err conflict ≡ ok (db', out) = rw t at rest in cc)
              | inl t ↦
                  let left : Tables = record db { zones = db.zones ++ (row ∷ []) } in
                  let f : ok (left, row) ≡ ok (db', out) = rw t at rest in
                  let same : left ≡ db' = cc in (row, ap (λ d. d.zones) (sym same))
            ]
      ]

  pub delete_zone-zones :
      (name : Bytes) {db' : Tables}
      → delete_zone faults db name ≡ ok db'
      → db'.zones ≡ select (λ z. not (bytes_eq z.name (normalize_zone name))) db.zones
  unfolding delete_zone
  delete_zone-zones name {db'} h =
      let zone = normalize_zone name in
      let (up, rest) = >>-eq-ok (statement faults 0) _ h in
      elim (Option-cases (zone_row zone db.zones)) [
        | inl e ↦ absurd (let f : err not_found ≡ ok db' = rw e at rest in cc)
        | inr (z, e) ↦
            let left : Tables = record db {
              zones = select (λ z. not (bytes_eq z.name zone)) db.zones;
              records = select (λ r. not (bytes_eq r.zone zone)) db.records;
            } in
            let f : ok left ≡ ok db' = rw e at rest in
            let same : left ≡ db' = cc in ap (λ d. d.zones) (sym same)
      ]
