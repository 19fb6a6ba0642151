-- ===== src/Store/Lookup.antt =====
-- What a change of the tables does to a look-up of a place, and what the operations on zones do.
use shard_dns.Cache.Shard.{bytes_eq_other}
use shard_dns.Prelude.Int.{ℤ}
use shard_dns.Prelude.Text.{GoRuntime, has_suffix}
use shard_dns.Store.Untouched.{Elsewhere, IsChange, select-All}
use shard_dns.Store.Below.{HasReverses, has_below_lem}
use shard_dns.Store.RecordTable.{any_row, at_name_row, lookup_name}
use shard_dns.Store.ZoneTable.{
  zone_row, update_zones, set_soa, scan_zone, create_zone, update_zone, delete_zone,
}
use shard_dns.Store.{Row, Tables, normalize_zone, reverse_name, statement}
use shard_dns.Zones.{not_found, conflict, failure, Zone}
use shard_dns.Prelude.{
  ℕ, Bool, true, false, not, ◌&&◌, ◌||◌, if◌then◌else◌, List, [], ◌∷◌, ◌++◌, ◌≡◌, ◌≢◌, refl, sym,
  ap, ◌∙◌, arith, Bytes, bytes_eq, bytes_eq_iff, is_empty, select, Bool-cases, Option-cases, inl,
  inr, ok, err, >>=-eq-ok, >>-eq-ok, &&-eq-true, ◌>>◌,
}

-- May a change at a name alter what is read of the place `z`, `n`?
unfoldable pub affected : Bytes → Bytes → Bytes → Bytes → Bool
affected zone name z n = bytes_eq zone z && (bytes_eq name n || has_suffix name (b'.' ∷ n))

pub at_name_row-eq-true :
    (zone name : Bytes) (r : Row)
    → at_name_row zone name r ≡ true
    → (r.zone ≡ zone) × (r.name ≡ name)
unfolding at_name_row
at_name_row-eq-true zone name r h =
    let (a, b) = &&-eq-true (bytes_eq r.zone zone) (bytes_eq r.name name) h in
    ((bytes_eq_iff r.zone zone).0 a, (bytes_eq_iff r.name name).0 b)

pub any_row-select :
    (q : Row → Bool) (rows : List Row) → any_row q rows ≡ not (is_empty (select q rows))
unfolding any_row select
any_row-select q [] = refl
any_row-select q (r ∷ rows) = elim (Bool-cases (q r)) [
  | inl e ↦ rw e refl
  | inr e ↦ rw e (any_row-select q rows)
]

module _ (zone name z n : Bytes) (far : affected zone name z n ≡ false) where
  at_name_row-Elsewhere : Elsewhere zone name (at_name_row z n)
  unfolding affected at_name_row
  at_name_row-Elsewhere r h =
      let (ez, en) = at_name_row-eq-true zone name r h in rw (ez, en) (ground arith)

  below-Elsewhere : Elsewhere zone name (λ r. bytes_eq r.zone z && has_suffix r.name (b'.' ∷ n))
  unfolding affected
  below-Elsewhere r h =
      let (ez, en) = at_name_row-eq-true zone name r h in rw (ez, en) (ground arith)

-- A look-up reads the rows at its place and the rows below it.
lookup_name-select :
    ⦃u : GoRuntime⦄
    → (faults : ℕ → Bool) (db db' : Tables) (z n : Bytes) → HasReverses db.records
    → HasReverses db'.records
    → select (at_name_row z n) db'.records ≡ select (at_name_row z n) db.records
    → select (λ r. bytes_eq r.zone z && has_suffix r.name (b'.' ∷ n)) db'.records
      ≡ select (λ r. bytes_eq r.zone z && has_suffix r.name (b'.' ∷ n)) db.records
    → lookup_name faults db' z n ≡ lookup_name faults db z n
unfolding lookup_name
lookup_name-select faults db db' z n rev rev' same below =
    let q : Row → Bool = λ r. bytes_eq r.zone z && has_suffix r.name (b'.' ∷ n) in
    let children =
      has_below_lem z n db'.records rev'
      ∙ any_row-select q db'.records
      ∙ ap (λ t. not (is_empty t)) below
      ∙ sym (any_row-select q db.records)
      ∙ sym (has_below_lem z n db.records rev) in
    rw (same, children) refl

-- A change leaves the look-up of a place that it does not affect as it was.
pub lookup_name-IsChange :
    ⦃u : GoRuntime⦄
    → (faults : ℕ → Bool) (zone name : Bytes) (db db' : Tables) (z n : Bytes)
    → IsChange zone name db db'
    → HasReverses db.records
    → affected zone name z n ≡ false
    → lookup_name faults db' z n ≡ lookup_name faults db z n
lookup_name-IsChange faults zone name db db' z n change rev far =
    lookup_name-select faults db db' z n rev (change.reverses rev)
      (change.differs (at_name_row z n) (at_name_row-Elsewhere zone name z n far))
      (change.differs (λ r. bytes_eq r.zone z && has_suffix r.name (b'.' ∷ n))
        (below-Elsewhere zone name z n far))

-- The rows of a zone go; those of other zones stay.
pub select-other_zones :
    (zone : Bytes) (q : Row → Bool) (rows : List Row)
    → ((r : Row) → bytes_eq r.zone zone ≡ true → q r ≡ false)
    → select q (select (λ r. not (bytes_eq r.zone zone)) rows) ≡ select q rows
unfolding select
select-other_zones zone q [] off = refl
select-other_zones zone q (r ∷ rows) off = elim (Bool-cases (bytes_eq r.zone zone)) [
  | inl e ↦ rw (e, off r e) (select-other_zones zone q rows off)
  | inr e ↦ rw e (ap (λ t. if q r then r ∷ t else t) (select-other_zones zone q rows off))
]

-- The records after `delete_zone`.
pub delete_zone-tables :
    ⦃u : GoRuntime⦄
    → (faults : ℕ → Bool) (db : Tables) (name : Bytes) {db' : Tables}
    → delete_zone faults db name ≡ ok db'
    → (db'.records ≡ select (λ r. not (bytes_eq r.zone (normalize_zone name))) db.records)
      × (db'.next_id ≡ db.next_id)
unfolding delete_zone
delete_zone-tables faults db name {db'} h =
    let zone = normalize_zone name in
    let (up, rest) = >>-eq-ok (statement faults 0) _ h in
    elim (Option-cases (zone_row zone db.zones)) [
      | inl e ↦ absurd (let f : err not_found ≡ ok db' = rw e at rest in cc)
      | inr (z, e) ↦
          let left : Tables = record db {
            zones = select (λ z. not (bytes_eq z.name zone)) db.zones;
            records = select (λ r. not (bytes_eq r.zone zone)) db.records;
          } in
          let f : ok left ≡ ok db' = rw e at rest in
          let same : left ≡ db' = cc in
          (ap (λ d. d.records) (sym same), ap (λ d. d.next_id) (sym same))
    ]

pub delete_zone-records :
    ⦃u : GoRuntime⦄
    → (faults : ℕ → Bool) (db : Tables) (name : Bytes) {db' : Tables}
    → delete_zone faults db name ≡ ok db'
    → db'.records ≡ select (λ r. not (bytes_eq r.zone (normalize_zone name))) db.records
delete_zone-records faults db name h = (delete_zone-tables faults db name h).0

-- Deleting a zone leaves the look-ups in other zones as they were.
pub lookup_name-delete_zone :
    ⦃u : GoRuntime⦄
    → (faults : ℕ → Bool) (db db' : Tables) (zone z n : Bytes)
    → db'.records ≡ select (λ r. not (bytes_eq r.zone zone)) db.records
    → HasReverses db.records
    → zone ≢ z
    → lookup_name faults db' z n ≡ lookup_name faults db z n
lookup_name-delete_zone faults db db' zone z n e rev other =
    lookup_name-select faults db db' z n rev
      (rw e (
        select-All (λ r. r.name_rev ≡ reverse_name r.name) (λ r. not (bytes_eq r.zone zone))
          db.records rev))
      (rw e (
        select-other_zones zone (at_name_row z n) db.records
          (λ r h. unfold at_name_row in rw (off r h) refl)))
      (rw e (
        select-other_zones zone (λ r. bytes_eq r.zone z && has_suffix r.name (b'.' ∷ n)) db.records
          (λ r h. rw (off r h) refl)))
  where
    off : (r : Row) → bytes_eq r.zone zone ≡ true → bytes_eq r.zone z ≡ false
    off r h = bytes_eq_other r.zone z (λ q. other (sym ((bytes_eq_iff r.zone zone).0 h) ∙ q))

module _ ⦃u : GoRuntime⦄ (faults : ℕ → Bool) (now : ℤ) (db : Tables) (z : Zone) {db' : Tables}
    {out : Zone} where
  pub create_zone-tables :
      create_zone faults now db z ≡ ok (db', out)
      → (db'.records ≡ db.records) × (db'.next_id ≡ db.next_id)
  unfolding create_zone
  create_zone-tables h =
      let name = normalize_zone z.name in
      elim (Bool-cases (is_empty name)) [
        | inl e ↦ absurd (let f : err failure ≡ ok (db', out) = rw e at h in cc)
        | inr e ↦
            let (up, rest) = >>-eq-ok (statement faults 0) _ (rw e at h) in
            elim (Option-cases (zone_row name db.zones)) [
              | inr (w, t) ↦ absurd (let f : err conflict ≡ ok (db', out) = rw t at rest in cc)
              | inl t ↦
                  let row = record z { name = name; serial = now } in
                  let left : Tables = record db { zones = db.zones ++ (row ∷ []) } in
                  let f : ok (left, row) ≡ ok (db', out) = rw t at rest in
                  let same : left ≡ db' = cc in
                  (ap (λ d. d.records) (sym same), ap (λ d. d.next_id) (sym same))
            ]
      ]

  pub create_zone-records : create_zone faults now db z ≡ ok (db', out) → db'.records ≡ db.records
  create_zone-records h = (create_zone-tables h).0

  pub update_zone-tables :
      update_zone faults now db z ≡ ok (db', out)
      → (db'.records ≡ db.records) × (db'.next_id ≡ db.next_id)
  unfolding update_zone
  update_zone-tables h =
      let name = normalize_zone z.name in
      let (zones', up, rest) =
        >>=-eq-ok (statement faults 0 >> update_zones name (set_soa now z) db.zones) _ h in
      let (row, found, made) = >>=-eq-ok (scan_zone (zone_row name zones')) _ rest in
      let left : Tables = record db { zones = zones' } in
      let same : left ≡ db' = cc in (ap (λ d. d.records) (sym same), ap (λ d. d.next_id) (sym same))

  pub update_zone-records : update_zone faults now db z ≡ ok (db', out) → db'.records ≡ db.records
  update_zone-records h = (update_zone-tables h).0
