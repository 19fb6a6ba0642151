-- ===== src/Node/Alone.antt =====
-- The CNAME records along the runs of a node: the tests of `CreateRecord` of internal/store/record.go.
use mathlib.Core.Path.{subst}
use shard_dns.Cache.{Shard}
use shard_dns.Node.Runs.{
  Node, Step, asked_name, asked_zone, record_created, record_deleted, zone_created, zone_updated,
  zone_deleted, Reach, here, next,
}
use shard_dns.Prelude.Int.{ℤ}
use shard_dns.Prelude.Text.{GoRuntime}
use shard_dns.Store.Alone.{is_cname, IsLone, Fits, set_ttl-IsLone, select-IsLone, upsert-IsLone}
use shard_dns.Store.Lookup.{delete_zone-records, create_zone-records, update_zone-records}
use shard_dns.Store.RecordTable.{
  any_row, at_name_row, in_set, same_member, upsert, check_cname, create_checks, new_row, inserted,
  create_record,
}
use shard_dns.Store.ZoneTable.{update_zones, bump}
use shard_dns.Store.Untouched.{delete_record-records}
use shard_dns.Store.{Row, Tables, statement}
use shard_dns.Zones.{conflict, Zone, Record, NameSet}
use shard_dns.Prelude.{
  ℕ, Bool, true, false, not, ◌&&◌, ◌||◌, Option, List, [], ◌∷◌, ◌≡◌, refl, sym, ◌∙◌, Bytes,
  bytes_eq, bytes_eq_iff, bytes_eq_refl, codes, All, Bool-cases, inl, inr, ◌⊎◌, ok, >>=-eq-ok,
  >>-eq-ok, guard, ◌>>◌,
}

guard-eq-ok : {E : Type 0} (b : Bool) (e : E) → guard b e ≡ ok tt → b ≡ true
guard-eq-ok true e h = refl
guard-eq-ok false e h = cc

not-eq-true : (b : Bool) → not b ≡ true → b ≡ false
not-eq-true false h = refl
not-eq-true true h = cc

-- A test that no row passes.
any_row-none :
    (q : Row → Bool) (rows : List Row) → any_row q rows ≡ false → All (λ r. q r ≡ false) rows
unfolding any_row
any_row-none q [] h = tt
any_row-none q (r ∷ rows) h = elim (Bool-cases (q r)) [
  | inl e ↦ absurd (let f : true ≡ false = rw e at h in cc)
  | inr e ↦ (e, any_row-none q rows (rw e at h))
]

module _ (md5 : Bytes → Bytes) (new : Row) where
  is_same : Row → Bool
  is_same = same_member md5 new.zone new.name new.rtype new.rdata

  -- What the test for a new CNAME rejects.
  is_other : Row → Bool
  is_other r =
      at_name_row new.zone new.name r
      && (not (bytes_eq r.rtype (codes "CNAME")) || not (bytes_eq (md5 r.rdata) (md5 new.rdata)))

  same_member_cname :
      (r : Row)
      → is_cname new ≡ true
      → at_name_row new.zone new.name r ≡ true
      → is_other r ≡ false
      → is_same r ≡ true
  unfolding is_same is_other same_member in_set
  same_member_cname r c at_name h =
      let (is_type, is_data) =
        both_true (bytes_eq r.rtype (codes "CNAME")) (bytes_eq (md5 r.rdata) (md5 new.rdata))
          (rw at_name at h) in
      let alike : r.rtype ≡ new.rtype =
        (bytes_eq_iff r.rtype (codes "CNAME")).0 is_type
        ∙ sym ((bytes_eq_iff new.rtype (codes "CNAME")).0 c) in
      rw (at_name, is_data, alike, bytes_eq_refl new.rtype) refl
    where
      both_true : (x y : Bool) → (not x || not y) ≡ false → (x ≡ true) × (y ≡ true)
      both_true true true e = (refl, refl)
      both_true true false e = absurd cc
      both_true false y e = absurd cc

  -- A row that the test passes is the very row, or stands elsewhere.
  cname-Fits :
      is_cname new ≡ true
      → (rows : List Row) → All (λ r. is_other r ≡ false) rows
      → (any_row is_same rows ≡ true) ⊎ All (Fits md5 new) rows
  unfolding any_row
  cname-Fits c [] h = inr tt
  cname-Fits c (r ∷ rows) h = elim (Bool-cases (at_name_row new.zone new.name r)) [
    | inl e ↦ inl (rw (same_member_cname r c e h.0) refl)
    | inr e ↦ elim (cname-Fits c rows h.1) [
      | inl there ↦ elim (Bool-cases (is_same r)) [
        | inl t ↦ inl (rw t refl)
        | inr t ↦ inl (rw t there)
      ]
      | inr fits ↦ inr (inl e, fits)
    ]
  ]

  -- No CNAME stands at the name of a row that is none.
  other-Fits :
      is_cname new ≡ false
      → (rows : List Row) → All (λ r. in_set new.zone new.name (codes "CNAME") r ≡ false) rows
      → All (Fits md5 new) rows
  unfolding in_set
  other-Fits c [] h = tt
  other-Fits c (r ∷ rows) h = elim (Bool-cases (at_name_row new.zone new.name r)) [
    | inl e ↦ (inr (c, rw e at h.0), other-Fits c rows h.1)
    | inr e ↦ (inl e, other-Fits c rows h.1)
  ]

  -- What passes the tests of `create_record` is there already, or fits.
  check_cname-Fits :
      ⦃u : GoRuntime⦄
      → (faults : ℕ → Bool) (rows : List Row)
      → check_cname faults md5 new.zone new.name new.rtype new.rdata rows ≡ ok tt
      → (any_row is_same rows ≡ true) ⊎ All (Fits md5 new) rows
  unfolding check_cname is_other
  check_cname-Fits faults rows h = elim (Bool-cases (bytes_eq new.rtype (codes "CNAME"))) [
    | inl e ↦
        let (before, passed) = >>-eq-ok _ _ (rw e at h) in
        cname-Fits e rows
          (any_row-none is_other rows (not-eq-true _ (guard-eq-ok _ conflict passed)))
    | inr e ↦
        let (before, passed) = >>-eq-ok (statement faults 2) _ (rw e at h) in
        inr (
          other-Fits e rows (
            any_row-none (in_set new.zone new.name (codes "CNAME")) rows
              (not-eq-true _ (guard-eq-ok _ conflict passed))))
  ]

  inserted-IsLone :
      ⦃u : GoRuntime⦄
      → (faults : ℕ → Bool) (zones' : List Zone) (db : Tables)
      → create_checks faults md5 db new ≡ ok tt
      → IsLone db.records
      → IsLone (inserted md5 zones' db new).records
  unfolding create_checks inserted is_same
  inserted-IsLone faults zones' db h lone =
      let (checks4, e5) = >>-eq-ok _ (statement faults 5) h in
      let (checks3, e4) = >>-eq-ok _ (statement faults 4) checks4 in
      let (checks, e3) = >>-eq-ok _ (statement faults 3) checks3 in
      let (there, passed) =
        >>-eq-ok _ (check_cname faults md5 new.zone new.name new.rtype new.rdata db.records)
          checks in
      set_ttl-IsLone (in_set new.zone new.name new.rtype) new.ttl (upsert md5 new db.records).1
        (upsert-IsLone md5 new db.records (check_cname-Fits faults db.records passed) lone)

module _ ⦃u : GoRuntime⦄ (faults : ℕ → Bool) (md5 : Bytes → Bytes) (now : ℤ) (db : Tables) where
  create_record-IsLone :
      (r : Record) {db' : Tables} {out : Record}
      → create_record faults md5 now db r ≡ ok (db', out)
      → IsLone db.records
      → IsLone db'.records
  unfolding create_record
  create_record-IsLone r {db'} {out} h lone =
      let new = new_row db r in
      let (zones', up, rest) =
        >>=-eq-ok
          (statement faults 0 >> statement faults 1 >> update_zones new.zone (bump now) db.zones) _
          h in
      let (checked, made) = >>-eq-ok (create_checks faults md5 db new) _ rest in
      let same : inserted md5 zones' db new ≡ db' = cc in
      subst (λ d. IsLone d.records) same (inserted-IsLone md5 new faults zones' db checked lone)

module _ ⦃u : GoRuntime⦄ (zone_hash : Bytes → ℕ) (zone_order : Shard (Option Zone) → List Bytes)
    (name_hash : Bytes → ℕ) (name_order : Shard NameSet → List Bytes) (md5 : Bytes → Bytes) where
  Step-IsLone :
      {s t : Node}
      → Step zone_hash zone_order name_hash name_order md5 s t
      → IsLone s.db.records
      → IsLone t.db.records
  Step-IsLone {s} {t} (asked_name now faults z n nz e) h = rw e h
  Step-IsLone {s} {t} (asked_zone now faults q e) h = rw e h
  Step-IsLone {s} {t} (record_created faults now r out made e) h =
      create_record-IsLone faults md5 now s.db r made h
  Step-IsLone {s} {t} (record_deleted faults now z n ty d made e) h =
      rw (delete_record-records faults md5 now s.db z n ty d made) (select-IsLone _ s.db.records h)
  Step-IsLone {s} {t} (zone_created faults now z out made e) h =
      rw (create_zone-records faults now s.db z made) h
  Step-IsLone {s} {t} (zone_updated faults now z out made e) h =
      rw (update_zone-records faults now s.db z made) h
  Step-IsLone {s} {t} (zone_deleted faults name made e) h =
      rw (delete_zone-records faults s.db name made) (select-IsLone _ s.db.records h)

  -- When every CNAME is the only record at its name, so it is after any run of the node.
  pub Reach-IsLone :
      {s t : Node}
      → Reach zone_hash zone_order name_hash name_order md5 s t
      → IsLone s.db.records
      → IsLone t.db.records
  Reach-IsLone here h = h
  Reach-IsLone (next r st) h = Step-IsLone st (Reach-IsLone r h)
