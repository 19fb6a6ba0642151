-- ===== src/Store/Untouched.antt =====
-- What the changes of internal/store/record.go do to the rows at other names.
use mathlib.Core.Path.{subst}
use shard_dns.Prelude.Int.{ℤ}
use shard_dns.Prelude.Text.{GoRuntime}
use shard_dns.Store.Below.{HasReverses}
use shard_dns.Store.RecordTable.{
  any_row, set_ttl, at_name_row, in_set, same_member, upsert, new_row, inserted, create_checks,
  create_record, delete_record,
}
use shard_dns.Store.ZoneTable.{update_zones, bump}
use shard_dns.Store.{
  Row, Tables, normalize_zone, normalize_name, normalize_type, reverse_name, statement,
}
use shard_dns.Zones.{not_found, Zone, Record}
use shard_dns.Prelude.{
  ℕ, Bool, true, false, not, if◌then◌else◌, List, [], ◌∷◌, ◌≡◌, refl, sym, ap, ◌∙◌, Bytes,
  bytes_eq_refl, select, All, Bool-cases, inl, inr, ok, >>=-eq-ok, >>-eq-ok, &&-eq-true, guard,
  ◌>>◌,
}

-- The tests that fail on every row at the name.
abbrev pub Elsewhere : Bytes → Bytes → (Row → Bool) → Type 0
Elsewhere zone name q = (r : Row) → at_name_row zone name r ≡ true → q r ≡ false

-- Two lists of rows that differ at the name only.
abbrev pub DiffersAt : Bytes → Bytes → List Row → List Row → Type 0
DiffersAt zone name rows rows' =
    (q : Row → Bool) → Elsewhere zone name q → select q rows' ≡ select q rows

pub at_name_row-ttl :
    (zone name : Bytes) (r : Row) (ttl : ℤ)
    → at_name_row zone name (record r { ttl = ttl }) ≡ at_name_row zone name r
unfolding at_name_row
at_name_row-ttl zone name r ttl = refl

set_ttl-DiffersAt :
    (zone name : Bytes) (p : Row → Bool) (ttl : ℤ) (rows : List Row)
    → ((r : Row) → p r ≡ true → at_name_row zone name r ≡ true)
    → DiffersAt zone name rows (set_ttl p ttl rows)
unfolding set_ttl select
set_ttl-DiffersAt zone name p ttl [] there q off = refl
set_ttl-DiffersAt zone name p ttl (r ∷ rows) there q off = elim (Bool-cases (p r)) [
  | inl e ↦
      let here = there r e in
      let here' = off (record r { ttl = ttl }) (at_name_row-ttl zone name r ttl ∙ here) in
      rw (e, off r here, here') (set_ttl-DiffersAt zone name p ttl rows there q off)
  | inr e ↦
      rw e (ap (λ t. if q r then r ∷ t else t) (set_ttl-DiffersAt zone name p ttl rows there q off))
]

in_set-place :
    (zone name rtype : Bytes) (r : Row)
    → in_set zone name rtype r ≡ true
    → at_name_row zone name r ≡ true
unfolding in_set
in_set-place zone name rtype r h = (&&-eq-true (at_name_row zone name r) _ h).0

pub same_member-place :
    (md5 : Bytes → Bytes) (zone name rtype rdata : Bytes) (r : Row)
    → same_member md5 zone name rtype rdata r ≡ true
    → at_name_row zone name r ≡ true
unfolding same_member
same_member-place md5 zone name rtype rdata r h =
    in_set-place zone name rtype r (&&-eq-true (in_set zone name rtype r) _ h).0

pub place_self : (r : Row) → at_name_row r.zone r.name r ≡ true
unfolding at_name_row
place_self r = rw (bytes_eq_refl r.zone, bytes_eq_refl r.name) refl

upsert-DiffersAt :
    (md5 : Bytes → Bytes) (new : Row) (rows : List Row)
    → DiffersAt new.zone new.name rows (upsert md5 new rows).1
unfolding upsert select
upsert-DiffersAt md5 new [] q off = rw (off new (place_self new)) refl
upsert-DiffersAt md5 new (r ∷ rows) q off =
    elim (Bool-cases (same_member md5 new.zone new.name new.rtype new.rdata r)) [
      | inl e ↦
          let here = same_member-place md5 new.zone new.name new.rtype new.rdata r e in
          let here' =
            off (record r { ttl = new.ttl }) (at_name_row-ttl new.zone new.name r new.ttl ∙ here) in
          rw (e, off r here, here') refl
      | inr e ↦ rw e (ap (λ t. if q r then r ∷ t else t) (upsert-DiffersAt md5 new rows q off))
    ]

drop_rows-DiffersAt :
    (zone name : Bytes) (p : Row → Bool) (rows : List Row)
    → ((r : Row) → p r ≡ true → at_name_row zone name r ≡ true)
    → DiffersAt zone name rows (select (λ r. not (p r)) rows)
unfolding select
drop_rows-DiffersAt zone name p [] there q off = refl
drop_rows-DiffersAt zone name p (r ∷ rows) there q off = elim (Bool-cases (p r)) [
  | inl e ↦ rw (e, off r (there r e)) (drop_rows-DiffersAt zone name p rows there q off)
  | inr e ↦
      rw e (ap (λ t. if q r then r ∷ t else t) (drop_rows-DiffersAt zone name p rows there q off))
]

-- The rows keep the reverses of their names through every change.
set_ttl-HasReverses :
    (p : Row → Bool) (ttl : ℤ) (rows : List Row)
    → HasReverses rows
    → HasReverses (set_ttl p ttl rows)
unfolding set_ttl
set_ttl-HasReverses p ttl [] h = tt
set_ttl-HasReverses p ttl (r ∷ rows) h = elim (Bool-cases (p r)) [
  | inl e ↦ rw e (h.0, set_ttl-HasReverses p ttl rows h.1)
  | inr e ↦ rw e (h.0, set_ttl-HasReverses p ttl rows h.1)
]

upsert-HasReverses :
    (md5 : Bytes → Bytes) (new : Row) (rows : List Row)
    → new.name_rev ≡ reverse_name new.name
    → HasReverses rows
    → HasReverses (upsert md5 new rows).1
unfolding upsert
upsert-HasReverses md5 new [] n h = (n, tt)
upsert-HasReverses md5 new (r ∷ rows) n h =
    elim (Bool-cases (same_member md5 new.zone new.name new.rtype new.rdata r)) [
      | inl e ↦ rw e h
      | inr e ↦ rw e (h.0, upsert-HasReverses md5 new rows n h.1)
    ]

pub select-All :
    {A : Type 0} (P : A → Type 0) (p : A → Bool) (xs : List A) → All P xs → All P (select p xs)
unfolding select
select-All P p [] h = h
select-All P p (x ∷ xs) h = elim (Bool-cases (p x)) [
  | inl e ↦ rw e (h.0, select-All P p xs h.1)
  | inr e ↦ rw e (select-All P p xs h.1)
]

-- What one successful change of the records does: it stays at one name, and keeps the reverses.
pub record IsChange (zone name : Bytes) (db db' : Tables) : Type 0 where
  pub differs : DiffersAt zone name db.records db'.records
  pub reverses : HasReverses db.records → HasReverses db'.records

inserted-IsChange :
    (md5 : Bytes → Bytes) (zones' : List Zone) (db : Tables) (new : Row)
    → new.name_rev ≡ reverse_name new.name
    → IsChange new.zone new.name db (inserted md5 zones' db new)
unfolding inserted
inserted-IsChange md5 zones' db new n =
    let out = (upsert md5 new db.records).1 in
    record {
      differs = λ q off.
          set_ttl-DiffersAt new.zone new.name (in_set new.zone new.name new.rtype) new.ttl out
            (in_set-place new.zone new.name new.rtype) q off
          ∙ upsert-DiffersAt md5 new db.records q off;
      reverses = λ h.
          set_ttl-HasReverses (in_set new.zone new.name new.rtype) new.ttl out
            (upsert-HasReverses md5 new db.records n h);
    }

module _ ⦃u : GoRuntime⦄ (faults : ℕ → Bool) (md5 : Bytes → Bytes) (now : ℤ) where
  pub create_record-IsChange :
      (db : Tables) (r : Record) {db' : Tables} {out : Record}
      → create_record faults md5 now db r ≡ ok (db', out)
      → IsChange (normalize_zone r.zone) (normalize_name (normalize_zone r.zone) r.name) db db'
  unfolding create_record new_row
  create_record-IsChange db r {db'} {out} h =
      let new = new_row db r in
      let (zones', up, rest) =
        >>=-eq-ok
          (statement faults 0 >> statement faults 1 >> update_zones new.zone (bump now) db.zones) _
          h in
      let (checked, made) = >>-eq-ok (create_checks faults md5 db new) _ rest in
      let same : inserted md5 zones' db new ≡ db' = cc in
      subst (IsChange new.zone new.name db) same (inserted-IsChange md5 zones' db new refl)

  pub delete_record-tables :
      (db : Tables) (z n t d : Bytes) {db' : Tables}
      → delete_record faults md5 now db z n t d ≡ ok db'
      → (db'.records
          ≡ select
              (λ r. not (
                same_member md5
                  (normalize_zone z)
                  (normalize_name (normalize_zone z) n)
                  (normalize_type t)
                  d
                  r))
              db.records)
        × (db'.next_id ≡ db.next_id)
  unfolding delete_record
  delete_record-tables db z n t d {db'} h =
      let zone = normalize_zone z in
      let gone = same_member md5 zone (normalize_name zone n) (normalize_type t) d in
      let (zones', up, rest) =
        >>=-eq-ok
          (statement faults 0
            >> statement faults 1
            >> guard (any_row gone db.records) not_found
            >> statement faults 2
            >> update_zones zone (bump now) db.zones)
          _ h in
      let (committed, made) = >>-eq-ok (statement faults 3) _ rest in
      let left : Tables = record db {
        zones = zones';
        records = select (λ r. not (gone r)) db.records;
      } in
      let same : left ≡ db' = cc in (ap (λ d. d.records) (sym same), ap (λ d. d.next_id) (sym same))

  pub delete_record-records :
      (db : Tables) (z n t d : Bytes) {db' : Tables}
      → delete_record faults md5 now db z n t d ≡ ok db'
      → db'.records
        ≡ select
            (λ r. not (
              same_member md5
                (normalize_zone z)
                (normalize_name (normalize_zone z) n)
                (normalize_type t)
                d
                r))
            db.records
  delete_record-records db z n t d h = (delete_record-tables db z n t d h).0

  pub delete_record-IsChange :
      (db : Tables) (z n t d : Bytes) {db' : Tables}
      → delete_record faults md5 now db z n t d ≡ ok db'
      → IsChange (normalize_zone z) (normalize_name (normalize_zone z) n) db db'
  delete_record-IsChange db z n t d {db'} h =
      let zone = normalize_zone z in
      let name = normalize_name zone n in
      let gone = same_member md5 zone name (normalize_type t) d in
      let left = delete_record-records db z n t d h in
      record {
        differs = λ q off.
            ap (select q) left
            ∙ drop_rows-DiffersAt zone name gone db.records
                (same_member-place md5 zone name (normalize_type t) d) q off;
        reverses = λ rev.
            rw left (
              select-All (λ r. r.name_rev ≡ reverse_name r.name) (λ r. not (gone r)) db.records
                rev);
      }
