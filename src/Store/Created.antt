-- ===== src/Store/Created.antt =====
-- `CreateRecord` of internal/store/record.go and a later `LookupName`.
use mathlib.Core.Path.{subst}
use shard_dns.Prelude.Int.{ℤ}
use shard_dns.Prelude.Text.{GoRuntime}
use shard_dns.Store.RecordTable.{
  set_ttl, at_name_row, in_set, same_member, upsert, new_row, inserted, create_checks,
  create_record, lookup_name,
}
use shard_dns.Store.Untouched.{place_self, at_name_row-ttl, same_member-place}
use shard_dns.Store.ZoneTable.{update_zones, bump}
use shard_dns.Store.{
  Row, Tables, normalize_zone, normalize_name, scan_record, collect_records, statement,
}
use shard_dns.Zones.{Zone, Record, NameSet}
use shard_dns.Prelude.{
  IsIn, ℕ, Bool, true, false, List, [], ◌∷◌, ◌≡◌, refl, sym, ap, ◌∙◌, Bytes, is_empty, map, select,
  Bool-cases, inl, inr, ok, >>=-eq-ok, >>-eq-ok, ◌>>◌,
}

map-IsIn : {A B : Type 0} (f : A → B) (x : A) (xs : List A) → IsIn x xs → IsIn (f x) (map f xs)
map-IsIn f x [] h = h
map-IsIn f x (y ∷ ys) (inl e) = inl (ap f e)
map-IsIn f x (y ∷ ys) (inr h) = inr (map-IsIn f x ys h)

select-IsIn :
    (q : Row → Bool) (x : Row) (rows : List Row) → q x ≡ true → IsIn x rows → IsIn x (select q rows)
unfolding select
select-IsIn q x [] t h = h
select-IsIn q x (y ∷ ys) t (inl e) = let here' : q y ≡ true = ap q (sym e) ∙ t in rw here' (inl e)
select-IsIn q x (y ∷ ys) t (inr h) = elim (Bool-cases (q y)) [
  | inl e ↦ rw e (inr (select-IsIn q x ys t h))
  | inr e ↦ rw e (select-IsIn q x ys t h)
]

abbrev with_ttl : Row → ℤ → Row
with_ttl r ttl = record r { ttl = ttl }

set_ttl-IsIn :
    (p : Row → Bool) (ttl : ℤ) (x : Row) (rows : List Row)
    → x.ttl ≡ ttl
    → IsIn x rows
    → IsIn x (set_ttl p ttl rows)
unfolding set_ttl
set_ttl-IsIn p ttl x [] t h = h
set_ttl-IsIn p ttl x (y ∷ ys) t (inl e) = elim (Bool-cases (p y)) [
  | inl f ↦ rw f (inl (ap (with_ttl x) t ∙ ap (λ r. with_ttl r ttl) e))
  | inr f ↦ rw f (inl e)
]
set_ttl-IsIn p ttl x (y ∷ ys) t (inr h) = inr (set_ttl-IsIn p ttl x ys t h)

module _ (md5 : Bytes → Bytes) (new : Row) where
  upsert-IsIn : (rows : List Row) → IsIn (upsert md5 new rows).0 (upsert md5 new rows).1
  unfolding upsert
  upsert-IsIn [] = inl refl
  upsert-IsIn (r ∷ rows) =
      elim (Bool-cases (same_member md5 new.zone new.name new.rtype new.rdata r)) [
        | inl e ↦ rw e (inl refl)
        | inr e ↦ rw e (inr (upsert-IsIn rows))
      ]

  -- The row is the new one, or an old one of its set with the new time to live.
  upsert_row :
      (rows : List Row)
      → ((upsert md5 new rows).0.ttl ≡ new.ttl)
        × (at_name_row new.zone new.name (upsert md5 new rows).0 ≡ true)
  unfolding upsert
  upsert_row [] = (refl, place_self new)
  upsert_row (r ∷ rows) =
      elim (Bool-cases (same_member md5 new.zone new.name new.rtype new.rdata r)) [
        | inl e ↦ rw e (
          refl,
          at_name_row-ttl new.zone new.name r new.ttl
              ∙ same_member-place md5 new.zone new.name new.rtype new.rdata r e,
        )
        | inr e ↦ rw e (upsert_row rows)
      ]

  inserted-IsIn :
      (zones' : List Zone) (db : Tables)
      → IsIn
          (upsert md5 new db.records).0
          (select (at_name_row new.zone new.name) (inserted md5 zones' db new).records)
  unfolding inserted
  inserted-IsIn zones' db =
      let (same_ttl, at_place) = upsert_row db.records in
      let out = upsert md5 new db.records in
      select-IsIn (at_name_row new.zone new.name) out.0 _ at_place (
        set_ttl-IsIn (in_set new.zone new.name new.rtype) new.ttl out.0 out.1 same_ttl
          (upsert-IsIn db.records))

module _ ⦃u : GoRuntime⦄ where
  lookup_name-IsIn :
      (works : ℕ → Bool) (db : Tables) (z n : Bytes) (row : Row)
      → works 0 ≡ false
      → IsIn row (select (at_name_row z n) db.records)
      → (set : NameSet) × (lookup_name works db z n ≡ ok set) × IsIn (scan_record row) set.records
  unfolding lookup_name collect_records
  lookup_name-IsIn works db z n row up h =
      let records = map scan_record (select (at_name_row z n) db.records) in
      let found = map-IsIn scan_record row (select (at_name_row z n) db.records) h in
      let some_there = not_empty (scan_record row) records found in
      (record { records = records; has_children = false }, rw (up, some_there) refl, found)
    where
      not_empty : (x : Record) (xs : List Record) → IsIn x xs → is_empty xs ≡ false
      not_empty x [] t = absurd t
      not_empty x (y ∷ ys) t = refl

  -- After a successful `create_record`, a look-up of its name, when the database does not fail, finds
  -- the record that it answered.
  pub create_record-lookup_name :
      (faults works : ℕ → Bool) (md5 : Bytes → Bytes) (now : ℤ) (db : Tables) (r : Record)
      {db' : Tables} {out : Record}
      → create_record faults md5 now db r ≡ ok (db', out)
      → works 0 ≡ false
      → (set : NameSet) × (lookup_name works db'
            (normalize_zone r.zone)
            (normalize_name (normalize_zone r.zone) r.name)
          ≡ ok set)
        × IsIn out set.records
  unfolding create_record new_row
  create_record-lookup_name faults works md5 now db r {db'} {out} h up =
      let new = new_row db r in
      let (zones', risen, rest) =
        >>=-eq-ok
          (statement faults 0 >> statement faults 1 >> update_zones new.zone (bump now) db.zones) _
          h in
      let (checked, made) = >>-eq-ok (create_checks faults md5 db new) _ rest in
      let row = (upsert md5 new db.records).0 in
      let same : inserted md5 zones' db new ≡ db' = cc in
      let same_out : scan_record row ≡ out = cc in
      let (set, found, holds) =
        lookup_name-IsIn works (inserted md5 zones' db new) new.zone new.name row up
          (inserted-IsIn md5 new zones' db) in
      (
        set,
        subst (λ d. lookup_name works d new.zone new.name ≡ ok set) same found,
        subst (λ x. IsIn x set.records) same_out holds,
      )
