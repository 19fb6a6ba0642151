-- ===== src/Node/Uniform.antt =====
-- The times to live of the sets of records along the runs of a node: internal/store/record.go, whose
-- `CreateRecord` sets that of the whole set.
use mathlib.Core.Path.{subst}
use shard_dns.Cache.{Shard}
use shard_dns.Node.Runs.{
  Node, Step, asked_name, asked_zone, record_created, record_deleted, zone_created, zone_updated,
  zone_deleted, Reach, here, next,
}
use shard_dns.Prelude.Int.{ℤ}
use shard_dns.Prelude.Text.{GoRuntime}
use shard_dns.Store.Alone.{map-All}
use shard_dns.Store.Lookup.{
  at_name_row-eq-true, delete_zone-records, create_zone-records, update_zone-records,
}
use shard_dns.Store.RecordTable.{
  at_name_row, in_set, set_ttl, same_member, upsert, create_checks, new_row, inserted,
  create_record,
}
use shard_dns.Store.Untouched.{place_self, delete_record-records, select-All}
use shard_dns.Store.ZoneTable.{update_zones, bump}
use shard_dns.Store.{Row, Tables, statement}
use shard_dns.Zones.{Zone, Record, NameSet}
use shard_dns.Prelude.{
  ℕ, Bool, true, false, if◌then◌else◌, Option, List, [], ◌∷◌, select, ◌≡◌, refl, sym, ◌∙◌, Bytes,
  bytes_eq, bytes_eq_iff, bytes_eq_refl, All, Bool-cases, inl, inr, ◌⊎◌, ok, >>=-eq-ok, >>-eq-ok,
  &&-eq-true, ◌>>◌,
}

-- The row stands in another set, or has the same time to live.
abbrev pub Agrees : Row → Row → Type 0
Agrees r q = (in_set r.zone r.name r.rtype q ≡ false) ⊎ (q.ttl ≡ r.ttl)

-- All rows of a set have one time to live.
abbrev pub IsUniform : List Row → Type 0
IsUniform rows = All (λ r. All (Agrees r) rows) rows

everywhere : (P : Row → Type 0) (rows : List Row) → ((r : Row) → P r) → All P rows
everywhere P [] f = tt
everywhere P (r ∷ rows) f = (f r, everywhere P rows f)

in_set-eq-true :
    (zone name rtype : Bytes) (r : Row)
    → in_set zone name rtype r ≡ true
    → (r.zone ≡ zone) × (r.name ≡ name) × (r.rtype ≡ rtype)
unfolding in_set
in_set-eq-true zone name rtype r h =
    let (place, type) = &&-eq-true (at_name_row zone name r) (bytes_eq r.rtype rtype) h in
    let (z, n) = at_name_row-eq-true zone name r place in
    (z, n, (bytes_eq_iff r.rtype rtype).0 type)

-- Rows of one set stand in the same sets.
in_set-same :
    (zone name rtype : Bytes) (r q : Row)
    → in_set r.zone r.name r.rtype q ≡ true
    → in_set zone name rtype q ≡ in_set zone name rtype r
unfolding in_set at_name_row
in_set-same zone name rtype r q h =
    let (z, n, t) = in_set-eq-true r.zone r.name r.rtype q h in rw (z, n, t) refl

in_set_self : (r : Row) → in_set r.zone r.name r.rtype r ≡ true
unfolding in_set
in_set_self r = rw (place_self r, bytes_eq_refl r.rtype) refl

module _ (new : Row) where
  abbrev is_in : Row → Bool
  is_in = in_set new.zone new.name new.rtype

  abbrev changed : Row → Row
  changed r = if is_in r then record r { ttl = new.ttl } else r

  -- What holds between the rows before their times to live are set.
  abbrev Before : Row → Row → Type 0
  Before r q = (is_in r ≡ true) ⊎ ((is_in q ≡ true) ⊎ Agrees r q)

  upsert-All :
      (md5 : Bytes → Bytes) (P : Row → Type 0) (rows : List Row)
      → ((r : Row) → is_in r ≡ true → P r)
      → All P rows
      → All P (upsert md5 new rows).1
  unfolding upsert same_member in_set at_name_row
  upsert-All md5 P [] f h = (f new (in_set_self new), tt)
  upsert-All md5 P (r ∷ rows) f h =
      elim (Bool-cases (same_member md5 new.zone new.name new.rtype new.rdata r)) [
        | inl e ↦
            let (same_set, same_data) =
              &&-eq-true (is_in r) (bytes_eq (md5 r.rdata) (md5 new.rdata)) e in
            rw e (f (record r { ttl = new.ttl }) same_set, h.1)
        | inr e ↦ rw e (h.0, upsert-All md5 P rows f h.1)
      ]

  set_ttl-All :
      (P Q : Row → Type 0) (rows : List Row)
      → ((r : Row) → P r → Q (changed r))
      → All P rows
      → All Q (set_ttl is_in new.ttl rows)
  unfolding set_ttl
  set_ttl-All P Q [] f h = tt
  set_ttl-All P Q (r ∷ rows) f h = (f r h.0, set_ttl-All P Q rows f h.1)

  changed-Agrees : (r q : Row) → Before r q → Agrees (changed r) (changed q)
  unfolding in_set at_name_row
  changed-Agrees r q h = elim (Bool-cases (is_in r)) [
    | inl e ↦ elim (Bool-cases (is_in q)) [
      | inl t ↦ rw (e, t) (inr refl)
      | inr t ↦
          rw (e, t)
            (inl (
              apart r q (λ f.
                let g : true ≡ false = sym e ∙ sym (in_set-same _ _ _ r q f) ∙ t in absurd cc)))
    ]
    | inr e ↦ elim (Bool-cases (is_in q)) [
      | inl t ↦
          rw (e, t)
            (inl (
              apart r q
                (λ f. let g : true ≡ false = sym t ∙ in_set-same _ _ _ r q f ∙ e in absurd cc)))
      | inr t ↦
          rw (e, t)
            (elim h [
              | inl g ↦ absurd cc
              | inr k ↦ elim k [ inl g ↦ absurd cc | inr agrees ↦ agrees ]
            ])
    ]
  ]
    where
      apart :
          (r q : Row)
          → (in_set r.zone r.name r.rtype q ≡ true → in_set r.zone r.name r.rtype q ≡ false)
          → in_set r.zone r.name r.rtype q ≡ false
      apart r q f = elim (Bool-cases (in_set r.zone r.name r.rtype q)) [ inl e ↦ f e | inr e ↦ e ]

  inserted-IsUniform :
      (md5 : Bytes → Bytes) (zones' : List Zone) (db : Tables)
      → IsUniform db.records
      → IsUniform (inserted md5 zones' db new).records
  unfolding inserted
  inserted-IsUniform md5 zones' db h =
      let rows = (upsert md5 new db.records).1 in
      let before : All (λ r. All (Before r) rows) rows =
        upsert-All md5 (λ r. All (Before r) rows) db.records
          (λ r e. everywhere (Before r) rows (λ q. inl e))
          (map-All (λ r. All (Agrees r) db.records) (λ r. All (Before r) rows) db.records
            (λ r agrees.
              upsert-All md5 (Before r) db.records (λ q e. inr (inl e))
                (map-All (Agrees r) (Before r) db.records (λ q a. inr (inr a)) agrees))
            h) in
      set_ttl-All (λ r. All (Before r) rows) (λ r. All (Agrees r) (set_ttl is_in new.ttl rows)) rows
        (λ r b. set_ttl-All (Before r) (Agrees (changed r)) rows (λ q. changed-Agrees r q) b) before

module _ ⦃u : GoRuntime⦄ (faults : ℕ → Bool) (md5 : Bytes → Bytes) (now : ℤ) (db : Tables) where
  create_record-IsUniform :
      (r : Record) {db' : Tables} {out : Record}
      → create_record faults md5 now db r ≡ ok (db', out)
      → IsUniform db.records
      → IsUniform db'.records
  unfolding create_record
  create_record-IsUniform r {db'} {out} h uniform =
      let new = new_row db r in
      let (zones', up, rest) =
        >>=-eq-ok
          (statement faults 0 >> statement faults 1 >> update_zones new.zone (bump now) db.zones) _
          h in
      let (checked, made) = >>-eq-ok (create_checks faults md5 db new) _ rest in
      let same : inserted md5 zones' db new ≡ db' = cc in
      subst (λ d. IsUniform d.records) same (inserted-IsUniform new md5 zones' db uniform)

select-IsUniform : (q : Row → Bool) (rows : List Row) → IsUniform rows → IsUniform (select q rows)
select-IsUniform q rows h = select-All _ q rows (
    map-All (λ r. All (Agrees r) rows) (λ r. All (Agrees r) (select q rows)) rows
      (λ r. select-All (Agrees r) q rows) h)

module _ ⦃u : GoRuntime⦄ (zone_hash : Bytes → ℕ) (zone_order : Shard (Option Zone) → List Bytes)
    (name_hash : Bytes → ℕ) (name_order : Shard NameSet → List Bytes) (md5 : Bytes → Bytes) where
  Step-IsUniform :
      {s t : Node}
      → Step zone_hash zone_order name_hash name_order md5 s t
      → IsUniform s.db.records
      → IsUniform t.db.records
  Step-IsUniform {s} {t} (asked_name now faults z n nz e) h = rw e h
  Step-IsUniform {s} {t} (asked_zone now faults q e) h = rw e h
  Step-IsUniform {s} {t} (record_created faults now r out made e) h =
      create_record-IsUniform faults md5 now s.db r made h
  Step-IsUniform {s} {t} (record_deleted faults now z n ty d made e) h =
      rw (delete_record-records faults md5 now s.db z n ty d made)
        (select-IsUniform _ s.db.records h)
  Step-IsUniform {s} {t} (zone_created faults now z out made e) h =
      rw (create_zone-records faults now s.db z made) h
  Step-IsUniform {s} {t} (zone_updated faults now z out made e) h =
      rw (update_zone-records faults now s.db z made) h
  Step-IsUniform {s} {t} (zone_deleted faults name made e) h =
      rw (delete_zone-records faults s.db name made) (select-IsUniform _ s.db.records h)

  -- When any two records of one zone, name and type have the same time to live, so it is after any run
  -- of the node.
  pub Reach-IsUniform :
      {s t : Node}
      → Reach zone_hash zone_order name_hash name_order md5 s t
      → IsUniform s.db.records
      → IsUniform t.db.records
  Reach-IsUniform here h = h
  Reach-IsUniform (next r st) h = Step-IsUniform st (Reach-IsUniform r h)
