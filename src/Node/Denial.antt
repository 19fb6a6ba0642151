-- ===== src/Node/Denial.antt =====
-- The denials of internal/dns/handler.go over the tables of internal/store/record.go.
use mathlib.Core.Path.{subst}
use shard_dns.Handler.Closest.{IsVerdict, lookup-IsVerdict}
use shard_dns.Handler.Lookup.{found, enclosers, lookup}
use shard_dns.Node.Coherent.{quiet}
use shard_dns.Node.{store_resolver}
use shard_dns.Prelude.Text.{GoRuntime, has_suffix}
use shard_dns.Store.Below.{HasReverses, has_below_lem}
use shard_dns.Store.Lookup.{any_row-select}
use shard_dns.Store.RecordTable.{any_row, at_name_row, has_below, lookup_name}
use shard_dns.Store.{Row, Tables, scan_record, collect_records}
use shard_dns.Zones.{Zone, Record, NameSet, exists}
use shard_dns.Prelude.{
  ℕ, Bool, true, false, not, ◌&&◌, ◌||◌, if◌then◌else◌, List, [], ◌∷◌, map, select, ◌≡◌, refl, sym,
  ap, ◌∙◌, Bytes, bytes_eq, is_empty, IsIn, Bool-cases, inl, inr, ◌⊎◌, ok,
}

is_empty-map : {A B : Type 0} (f : A → B) (xs : List A) → is_empty (map f xs) ≡ is_empty xs
is_empty-map f [] = refl
is_empty-map f (x ∷ xs) = refl

any_row-or :
    (p q : Row → Bool) (rows : List Row)
    → any_row p rows ≡ false
    → any_row q rows ≡ false
    → any_row (λ r. p r || q r) rows ≡ false
unfolding any_row
any_row-or p q [] h k = refl
any_row-or p q (r ∷ rows) h k = elim (Bool-cases (p r)) [
  | inl e ↦ absurd (let f : true ≡ false = rw e at h in cc)
  | inr e ↦ elim (Bool-cases (q r)) [
    | inl f ↦ absurd (let g : true ≡ false = rw f at k in cc)
    | inr f ↦ rw (e, f) (any_row-or p q rows (rw e at h) (rw f at k))
  ]
]

module _ ⦃u : GoRuntime⦄ (db : Tables) where
  -- What a look-up finds while the database works.
  abbrev set_at : Bytes → Bytes → NameSet
  set_at zone name =
      let records = collect_records (select (at_name_row zone name) db.records) in
      if not (is_empty records)
      then record { records = records; has_children = false }
      else record { records = []; has_children = has_below zone name db.records }

  lookup_name-set_at : (zone name : Bytes) → lookup_name quiet db zone name ≡ ok (set_at zone name)
  unfolding lookup_name
  lookup_name-set_at zone name =
      elim (Bool-cases (is_empty (collect_records (select (at_name_row zone name) db.records)))) [
        | inl e ↦ rw (lookup_name, e) refl
        | inr e ↦ rw (lookup_name, e) refl
      ]

  -- A set that does not exist: no row at the name, and none below it.
  exists-set_at :
      (zone name : Bytes)
      → HasReverses db.records
      → exists (set_at zone name) ≡ false
      → (any_row (at_name_row zone name) db.records ≡ false)
        × (any_row (λ r. bytes_eq r.zone zone && has_suffix r.name (b'.' ∷ name)) db.records
            ≡ false)
  unfolding exists collect_records
  exists-set_at zone name reverses h =
      let rows = select (at_name_row zone name) db.records in
      elim (Bool-cases (is_empty (map scan_record rows))) [
        | inl e ↦
            let bare : is_empty rows ≡ true = sym (is_empty-map scan_record rows) ∙ e in
            let no_child : has_below zone name db.records ≡ false = rw e at h in
            (
              any_row-select (at_name_row zone name) db.records ∙ ap not bare,
              sym (has_below_lem zone name db.records reverses) ∙ no_child,
            )
        | inr e ↦ absurd (let chosen = rw e at h in let f : true ≡ false = rw e at chosen in cc)
      ]

  -- When the database works and the rows keep the reverses of their names, a look-up of a name that is
  -- the zone's or below it denies the name only if no row of the zone has it or a name below it.
  pub lookup-denied :
      (zone : Zone) (name : Bytes) (qtype : ℕ) (records : List Record)
      → HasReverses db.records
      → (name ≡ zone.name) ⊎ IsIn zone.name (enclosers name)
      → lookup (store_resolver quiet db) zone name qtype ≡ ok (found records false)
      → any_row
          (λ r.
            (bytes_eq r.zone zone.name && bytes_eq r.name name)
            || (bytes_eq r.zone zone.name && has_suffix r.name (b'.' ∷ name)))
          db.records
        ≡ false
  unfolding store_resolver at_name_row
  lookup-denied zone name qtype records reverses inside h =
      let (m, answer, verdict) =
        lookup-IsVerdict zone (set_at zone.name) (store_resolver quiet db)
          (lookup_name-set_at zone.name) name qtype inside in
      let same : m ≡ found records false = (let both = sym answer ∙ h in cc) in
      elim (subst (IsVerdict zone (set_at zone.name) name qtype) same verdict) [
        | inl own ↦ absurd (let (_, f, _, _) = own in cc)
        | inr (e, (before, after, path, passed), _, _, _) ↦
            let (at_it, below_it) = exists-set_at zone.name name reverses passed.0.1 in
            any_row-or (at_name_row zone.name name)
              (λ r. bytes_eq r.zone zone.name && has_suffix r.name (b'.' ∷ name)) db.records at_it
              below_it
      ]
