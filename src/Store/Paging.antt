-- ===== src/Store/Paging.antt =====
-- The pages of `ListRecords` of internal/store/record.go, one after the other.
use mathlib.Core.Path.{subst}
use shard_dns.Prelude.Text.{GoRuntime, decimal}
use shard_dns.RData.Build.{build_rdata}
use shard_dns.Store.RecordTable.{after_id, list_records}
use shard_dns.Store.{
  Row, Tables, normalize_zone, scan_record, collect_records, page, insert_by, order_by,
}
use shard_dns.Zones.{Record}
use shard_dns.Wire.TypeNames.{type_code}
use shard_dns.Prelude.{
  ℕ, zero, suc, ◌+◌, ◌-◌, ◌≤◌, ◌<◌, Bool, true, false, ◌&&◌, ltb, if◌then◌else◌, some, List, [],
  ◌∷◌, ◌≡◌, refl, sym, ap, ◌∙◌, arith, Bytes, bytes_eq, length, length-map, length-take, take, drop,
  take_all, map, select, get_elem?, get_elem?-take, get_elem?-some, All, Bool-cases, Outcome-cases,
  inl, inr, ok,
}

-- The identifiers rise along the rows, from above `k`.
abbrev pub IsAscending : ℕ → List Row → Type 0
IsAscending k [] = Unit
IsAscending k (r ∷ rows) = (k < r.id) × IsAscending r.id rows

pub IsAscending-weaken :
    (j k : ℕ) (rows : List Row) → j ≤ k → IsAscending k rows → IsAscending j rows
IsAscending-weaken j k [] le h = tt
IsAscending-weaken j k (r ∷ rows) le h = (omega (arith, h.0), h.1)

pub select-IsAscending :
    (p : Row → Bool) (k : ℕ) (rows : List Row) → IsAscending k rows → IsAscending k (select p rows)
unfolding select
select-IsAscending p k [] h = tt
select-IsAscending p k (r ∷ rows) h = elim (Bool-cases (p r)) [
  | inl e ↦ rw e (h.0, select-IsAscending p r.id rows h.1)
  | inr e ↦
      let less = h.0 in
      rw e (select-IsAscending p k rows (IsAscending-weaken k r.id rows (omega arith) h.1))
]

-- Rows in the order of their identifiers are in order.
order_by-IsAscending :
    (k : ℕ) (rows : List Row)
    → IsAscending k rows
    → order_by (λ (a b : Row). ltb a.id b.id) rows ≡ rows
unfolding order_by insert_by
order_by-IsAscending k [] h = refl
order_by-IsAscending k (r ∷ []) h = refl
order_by-IsAscending k (r ∷ q ∷ rows) h =
    let less = h.1.0 in
    let first : ltb q.id r.id ≡ false = ground arith in
    rw (order_by-IsAscending r.id (q ∷ rows) h.1, first) refl

-- The rows behind an identifier.
unfoldable pub above : ℕ → List Row → List Row
above k rows = select (λ r. ltb k r.id) rows

pub above-IsAscending : (k : ℕ) (rows : List Row) → IsAscending k rows → above k rows ≡ rows
unfolding above select
above-IsAscending k [] h = refl
above-IsAscending k (r ∷ rows) h =
    let less = h.0 in
    let in_it : ltb k r.id ≡ true = ground arith in
    rw in_it (
      ap (λ t. r ∷ t) (above-IsAscending k rows (IsAscending-weaken k r.id rows (omega arith) h.1)))

-- Behind a row stand the rows that follow it.
above-drop :
    (k i : ℕ) (rows : List Row) {r : Row}
    → IsAscending k rows
    → get_elem? rows i ≡ some r
    → (above r.id rows ≡ drop (suc i) rows) × (k < r.id)
unfolding above select
above-drop k i [] h e = absurd cc
above-drop k zero (q ∷ rows) {r} h e =
    let same : q ≡ r = cc in
    let out : ltb q.id q.id ≡ false = ground arith in
    subst (λ (t : Row). (above t.id (q ∷ rows) ≡ rows) × (k < t.id)) same
      (rw (above, out) (above-IsAscending q.id rows h.1), h.0)
above-drop k (suc i) (q ∷ rows) {r} h e =
    let (rest, less) = above-drop q.id i rows h.1 e in
    let out : ltb r.id q.id ≡ false = ground arith in (rw out rest, omega (arith, h.0))

above-above : (j k : ℕ) (rows : List Row) → j ≤ k → above k (above j rows) ≡ above k rows
unfolding above select
above-above j k [] le = refl
above-above j k (r ∷ rows) le = elim (Bool-cases (ltb k r.id)) [
  | inl e ↦
      let f : ltb j r.id ≡ true = ground arith in
      rw (e, f, e) (ap (λ t. r ∷ t) (above-above j k rows le))
  | inr e ↦ elim (Bool-cases (ltb j r.id)) [
    | inl f ↦ rw (e, f, e) (above-above j k rows le)
    | inr f ↦ rw (e, f) (above-above j k rows le)
  ]
]

-- The rows of a zone.
unfoldable pub zone_rows : Bytes → List Row → List Row
zone_rows zone rows = select (λ r. bytes_eq r.zone zone) rows

zone_rows-above :
    (zone : Bytes) (k : ℕ) (rows : List Row)
    → select (λ r. bytes_eq r.zone zone && ltb k r.id) rows ≡ above k (zone_rows zone rows)
unfolding above zone_rows select
zone_rows-above zone k [] = refl
zone_rows-above zone k (r ∷ rows) = elim (Bool-cases (bytes_eq r.zone zone)) [
  | inl e ↦ rw e (ap (λ t. if ltb k r.id then r ∷ t else t) (zone_rows-above zone k rows))
  | inr e ↦ rw e (zone_rows-above zone k rows)
]

map-take : {A B : Type 0} (f : A → B) (n : ℕ) (xs : List A) → map f (take n xs) ≡ take n (map f xs)
map-take f zero xs = refl
map-take f (suc n) [] = refl
map-take f (suc n) (x ∷ xs) = ap (λ t. f x ∷ t) (map-take f n xs)

get_elem?-map :
    {A B : Type 0} (f : A → B) (xs : List A) (i : ℕ) {x : A}
    → get_elem? xs i ≡ some x
    → get_elem? (map f xs) i ≡ some (f x)
get_elem?-map f [] i h = cc
get_elem?-map f (y ∷ xs) zero {x} h = let same : y ≡ x = cc in ap (λ t. some (f t)) same
get_elem?-map f (y ∷ xs) (suc i) h = get_elem?-map f xs i h

take-take : {A : Type 0} (n m : ℕ) (xs : List A) → n ≤ m → take n (take m xs) ≡ take n xs
take-take zero m xs h = refl
take-take (suc n) zero xs h = absurd (omega arith)
take-take (suc n) (suc m) [] h = refl
take-take (suc n) (suc m) (x ∷ xs) h = ap (λ t. x ∷ t) (take-take n m xs (omega arith))

module _ ⦃u : GoRuntime⦄ (limit : ℕ) where
  -- What `list_records` makes of the rows behind its token.
  abbrev pub page_of : List Row → List Record × Bytes
  page_of rows = page (λ (r : Record). decimal r.id) limit (collect_records (take (limit + 1) rows))

  -- The rows fit on the page: they are all there, and no token.
  pub page_of_last :
      (rows : List Row) → length rows ≤ limit → page_of rows ≡ (collect_records rows, [])
  unfolding page collect_records
  page_of_last rows le =
      let all_taken = take_all (limit + 1) rows (omega arith) in
      let small : ltb limit (length (map scan_record rows)) ≡ false =
        ground (arith, length-map scan_record rows) in
      rw (all_taken, small) refl

  scan_record-id : (r : Row) → (scan_record r).id ≡ r.id
  unfolding scan_record
  scan_record-id r = elim (Outcome-cases (build_rdata (type_code r.rtype) r.rdata)) [
    | inl (w, e) ↦ rw (scan_record, e) refl
    | inr (f, e) ↦ rw (scan_record, e) refl
  ]

  -- They do not: as many as fit are there, and the token names the last of them.
  pub page_of_more :
      (rows : List Row) {r : Row}
      → 1 ≤ limit
      → limit < length rows
      → get_elem? rows (limit - 1) ≡ some r
      → page_of rows ≡ (collect_records (take limit rows), decimal r.id)
  unfolding page collect_records
  page_of_more rows {r} positive more e =
      let taken = map scan_record (take (limit + 1) rows) in
      let long : length taken ≡ limit + 1 =
        length-map scan_record (take (limit + 1) rows)
        ∙ length-take (limit + 1) rows
        ∙ omega arith in
      let large : ltb limit (length taken) ≡ true = ground arith in
      let last : get_elem? taken (limit - 1) ≡ some (scan_record r) =
        get_elem?-map scan_record (take (limit + 1) rows) (limit - 1)
          (get_elem?-take (limit + 1) (limit - 1) rows (omega arith) ∙ e) in
      let front : take limit taken ≡ map scan_record (take limit rows) =
        sym (map-take scan_record limit (take (limit + 1) rows))
        ∙ ap (map scan_record) (take-take limit (limit + 1) rows (omega arith)) in
      rw (large, last, front, scan_record-id r) refl

-- A listing, when the database does not fail and the rows are in the order of their identifiers.
pub list_records_lem :
    ⦃u : GoRuntime⦄
    → (faults : ℕ → Bool) (db : Tables) (zone : Bytes) (limit : ℕ) (after : Bytes) (k : ℕ)
    → faults 0 ≡ false
    → IsAscending 0 db.records
    → after_id after ≡ ok k
    → list_records faults db zone limit after
      ≡ ok (page_of limit (above k (zone_rows (normalize_zone zone) db.records)))
unfolding list_records
list_records_lem faults db zone limit after k works rising token =
    let chosen =
      select (λ (r : Row). bytes_eq r.zone (normalize_zone zone) && ltb k r.id) db.records in
    rw
      (
        token,
        works,
        order_by-IsAscending 0 chosen (select-IsAscending _ 0 db.records rising),
        zone_rows-above (normalize_zone zone) k db.records,
      )
      refl

select-above : (k : ℕ) (rows : List Row) → IsAscending 0 rows → IsAscending 0 (above k rows)
unfolding above
select-above k rows h = select-IsAscending _ 0 rows h

above_member :
    (P : Row → Type 0) (k i : ℕ) (rows : List Row) {r : Row}
    → All P rows
    → get_elem? (above k rows) i ≡ some r
    → P r × (k < r.id)
unfolding above select
above_member P k i [] h e = absurd cc
above_member P k zero (q ∷ rows) {r} h e = elim (Bool-cases (ltb k q.id)) [
  | inr out ↦ above_member P k zero rows h.1 (rw (above, out) at e)
  | inl in_it ↦
      let f : some q ≡ some r = rw (above, in_it) at e in
      let same : q ≡ r = cc in subst (λ (t : Row). P t × (k < t.id)) same (h.0, ground arith)
]
above_member P k (suc i) (q ∷ rows) {r} h e = elim (Bool-cases (ltb k q.id)) [
  | inr out ↦ above_member P k (suc i) rows h.1 (rw (above, out) at e)
  | inl in_it ↦ above_member P k i rows h.1 (rw (above, in_it) at e)
]

-- Where the rows behind `k` do not fit on a page, the rows behind the page's last row are the others.
pub next_page :
    (limit k : ℕ) (P : Row → Type 0) (rows : List Row)
    → 1 ≤ limit
    → IsAscending 0 rows
    → All P rows
    → limit < length (above k rows)
    → (r : Row) × (get_elem? (above k rows) (limit - 1) ≡ some r)
      × (above r.id rows ≡ drop limit (above k rows))
      × P r
next_page limit k P rows positive rising h more =
    let (r, e) = get_elem?-some (above k rows) (limit - 1) (omega arith) in
    let (good, less) = above_member P k (limit - 1) rows h e in
    let (rest, _) = above-drop 0 (limit - 1) (above k rows) (select-above k rows rising) e in
    let same : suc (limit - 1) ≡ limit = omega arith in
    (
      r,
      e,
      sym (above-above k r.id rows (omega arith)) ∙ rest ∙ ap (λ n. drop n (above k rows)) same,
      good,
    )
