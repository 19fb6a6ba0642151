-- ===== src/Node/Serial.antt =====
-- The serial of a zone along the steps of a node.
use mathlib.Core.Path.{subst}
use shard_dns.Cache.{Shard}
use shard_dns.Node.Runs.{
  Node, Step, asked_name, asked_zone, record_created, record_deleted, zone_created, zone_updated,
  zone_deleted,
}
use shard_dns.Prelude.Text.{GoRuntime}
use shard_dns.Store.After.{
  create_record-zones, delete_record-zones, update_zone-zones, zone_row-append, zone_row-select,
  create_zone-zones, delete_zone-zones,
}
use shard_dns.Store.Alone.{bytes_eq_sym}
use shard_dns.Store.Lookup.{
  at_name_row-eq-true, select-other_zones, delete_zone-records, create_zone-records,
  update_zone-records,
}
use shard_dns.Store.Serial.{
  Raises, bump-Raises, set_soa-Raises, update_zones_other, update_zones_same,
}
use shard_dns.Store.Untouched.{IsChange, create_record-IsChange, delete_record-IsChange}
use shard_dns.Store.ZoneTable.{zone_row, update_zones, bump, set_soa, delete_zone}
use shard_dns.Store.{Row, Tables, less, normalize_zone}
use shard_dns.Zones.{Zone, NameSet}
use shard_dns.Prelude.{
  ℕ, Bool, true, false, Option, none, some, List, ◌≡◌, refl, sym, ap, ◌∙◌, Bytes, bytes_eq,
  bytes_eq_iff, select, Bool-cases, inl, inr, ◌⊎◌, ok,
}

-- The records of a zone.
abbrev pub rows_of : Bytes → List Row → List Row
rows_of m rows = select (λ r. bytes_eq r.zone m) rows

-- The zone is as it was, with its records, or its serial is higher.
abbrev pub IsNoticed : Bytes → Tables → Tables → Zone → Zone → Type 0
IsNoticed m db db' z z' =
    ((zone_row m db'.zones ≡ zone_row m db.zones) × (rows_of m db'.records ≡ rows_of m db.records))
    ⊎ (less z.serial z'.serial ≡ true)

-- An update of the row of `zone`, with a change of its records alone.
updated-IsNoticed :
    (zone m : Bytes) (f : Zone → Option Zone) (db db' : Tables) {z z' : Zone}
    → Raises f
    → update_zones zone f db.zones ≡ ok db'.zones
    → (bytes_eq m zone ≡ false → rows_of m db'.records ≡ rows_of m db.records)
    → zone_row m db.zones ≡ some z
    → zone_row m db'.zones ≡ some z'
    → IsNoticed m db db' z z'
updated-IsNoticed zone m f db db' {z} {z'} raises up same before after =
    elim (Bool-cases (bytes_eq m zone)) [
      | inl e ↦
          let at_zone = (bytes_eq_iff m zone).0 e in
          let (w, found, higher) =
            update_zones_same zone f raises db.zones up
              (subst (λ k. zone_row k db.zones ≡ some z) at_zone before) in
          let both : some w ≡ some z' =
            sym found ∙ ap (λ k. zone_row k db'.zones) (sym at_zone) ∙ after in
          let is_w : w ≡ z' = cc in inr (subst (λ k. less z.serial k.serial ≡ true) is_w higher)
      | inr e ↦ inl (update_zones_other zone f raises m db.zones e up, same e)
    ]

-- A change at a name leaves the records of other zones alone.
IsChange-rows_of :
    (zone name m : Bytes) (db db' : Tables)
    → IsChange zone name db db'
    → bytes_eq m zone ≡ false
    → rows_of m db'.records ≡ rows_of m db.records
IsChange-rows_of zone name m db db' change other =
    change.differs (λ r. bytes_eq r.zone m)
      (λ r h.
        let (at_zone, _) = at_name_row-eq-true zone name r h in
        ap (λ k. bytes_eq k m) at_zone ∙ bytes_eq_sym zone m ∙ other)

module _ ⦃u : GoRuntime⦄ (faults : ℕ → Bool) (db : Tables) where
  delete_zone-IsNoticed :
      (name m : Bytes) (db' : Tables) (z : Zone) {z' : Zone}
      → delete_zone faults db name ≡ ok db'
      → zone_row m db'.zones ≡ some z'
      → IsNoticed m db db' z z'
  delete_zone-IsNoticed name m db' z {z'} h after =
      let zone = normalize_zone name in
      let left =
        ap (zone_row m) (delete_zone-zones faults db name h) ∙ zone_row-select zone m db.zones in
      elim (Bool-cases (bytes_eq m zone)) [
        | inl e ↦ absurd (let f : zone_row m db'.zones ≡ none = left ∙ rw e refl in cc)
        | inr e ↦ inl (
          left ∙ rw e refl,
          ap (rows_of m) (delete_zone-records faults db name h)
              ∙ select-other_zones zone (λ r. bytes_eq r.zone m) db.records
                  (λ r at_zone.
                    ap (λ k. bytes_eq k m) ((bytes_eq_iff r.zone zone).0 at_zone)
                    ∙ bytes_eq_sym zone m
                    ∙ e),
        )
      ]

module _ ⦃u : GoRuntime⦄ (zone_hash : Bytes → ℕ) (zone_order : Shard (Option Zone) → List Bytes)
    (name_hash : Bytes → ℕ) (name_order : Shard NameSet → List Bytes) (md5 : Bytes → Bytes) where
  -- For a zone that is there before and after a step of the node: the step leaves the zone and its
  -- records as they were, or the zone has a higher serial after it.
  pub Step-IsNoticed :
      {s t : Node}
      → Step zone_hash zone_order name_hash name_order md5 s t
      → (m : Bytes) {z z' : Zone} → zone_row m s.db.zones ≡ some z
      → zone_row m t.db.zones ≡ some z'
      → IsNoticed m s.db t.db z z'
  Step-IsNoticed {s} {t} (asked_name now faults a n nz e) m before after = rw e (inl (refl, refl))
  Step-IsNoticed {s} {t} (asked_zone now faults q e) m before after = rw e (inl (refl, refl))
  Step-IsNoticed {s} {t} (record_created faults now r out made e) m before after =
      updated-IsNoticed (normalize_zone r.zone) m (bump now) s.db t.db (bump-Raises now)
        (create_record-zones faults md5 now s.db r made)
        (IsChange-rows_of _ _ m s.db t.db (create_record-IsChange faults md5 now s.db r made))
        before after
  Step-IsNoticed {s} {t} (record_deleted faults now a n ty d made e) m before after =
      updated-IsNoticed (normalize_zone a) m (bump now) s.db t.db (bump-Raises now)
        (delete_record-zones faults md5 now s.db a n ty d made)
        (IsChange-rows_of _ _ m s.db t.db
          (delete_record-IsChange faults md5 now s.db a n ty d made))
        before after
  Step-IsNoticed {s} {t} (zone_created faults now a out made e) m before after =
      let (w, grown) = create_zone-zones faults s.db now a made in
      inl (
        ap (zone_row m) grown ∙ zone_row-append m s.db.zones w before ∙ sym before,
        ap (rows_of m) (create_zone-records faults now s.db a made),
      )
  Step-IsNoticed {s} {t} (zone_updated faults now a out made e) m before after =
      updated-IsNoticed (normalize_zone a.name) m (set_soa now a) s.db t.db (set_soa-Raises now a)
        (update_zone-zones faults md5 now s.db a made)
        (λ _. ap (rows_of m) (update_zone-records faults now s.db a made)) before after
  Step-IsNoticed {s} {t} (zone_deleted faults name made e) m {z} before after =
      delete_zone-IsNoticed faults s.db name m t.db z made after
