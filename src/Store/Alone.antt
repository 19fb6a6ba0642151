-- ===== src/Store/Alone.antt =====
-- The CNAME records in the table of internal/store/record.go, and what else stands at their names.
use shard_dns.Prelude.Int.{ℤ}
use shard_dns.Store.RecordTable.{any_row, set_ttl, at_name_row, same_member, upsert}
use shard_dns.Store.Untouched.{place_self, select-All}
use shard_dns.Store.{Row}
use shard_dns.Prelude.{
  ℕ, ◌+◌, ◌≤◌, Bool, true, false, ◌&&◌, if◌then◌else◌, List, [], ◌∷◌, ◌++◌, ◌≡◌, refl, sym, ap, ◌∙◌,
  arith, Bytes, bytes_eq, bytes_eq_iff, codes, length, select, All, All-append, Bool-cases, inl,
  inr, ◌⊎◌,
}

abbrev pub is_cname : Row → Bool
is_cname r = bytes_eq r.rtype (codes "CNAME")

-- The number of rows at a name.
unfoldable pub count_at : Bytes → Bytes → List Row → ℕ
count_at zone name rows = length (select (at_name_row zone name) rows)

-- The row is no CNAME, or the only one at its name.
abbrev pub IsAlone : List Row → Row → Type 0
IsAlone rows r = (is_cname r ≡ false) ⊎ (count_at r.zone r.name rows ≤ 1)

abbrev pub IsLone : List Row → Type 0
IsLone rows = All (IsAlone rows) rows

pub map-All :
    {A : Type 0} (P Q : A → Type 0) (xs : List A) → ((x : A) → P x → Q x) → All P xs → All Q xs
map-All P Q [] f h = tt
map-All P Q (x ∷ xs) f h = (f x h.0, map-All P Q xs f h.1)

zip-All :
    {A : Type 0} (P Q R : A → Type 0) (xs : List A)
    → ((x : A) → P x → Q x → R x)
    → All P xs
    → All Q xs
    → All R xs
zip-All P Q R [] f h k = tt
zip-All P Q R (x ∷ xs) f h k = (f x h.0 k.0, zip-All P Q R xs f h.1 k.1)

-- Rows of which there are no more at any name.
abbrev IsFewer : List Row → List Row → Type 0
IsFewer rows' rows = (z n : Bytes) → count_at z n rows' ≤ count_at z n rows

IsAlone-fewer :
    (rows rows' : List Row) → IsFewer rows' rows → (r : Row) → IsAlone rows r → IsAlone rows' r
IsAlone-fewer rows rows' fewer r (inl e) = inl e
IsAlone-fewer rows rows' fewer r (inr one) =
    inr (let less = fewer r.zone r.name in omega (arith, less, one))

set_ttl-IsFewer : (p : Row → Bool) (ttl : ℤ) (rows : List Row) → IsFewer (set_ttl p ttl rows) rows
unfolding count_at set_ttl select at_name_row
set_ttl-IsFewer p ttl [] z n = omega arith
set_ttl-IsFewer p ttl (r ∷ rows) z n =
    let ih = set_ttl-IsFewer p ttl rows z n in
    elim (Bool-cases (p r)) [
      | inl e ↦ elim (Bool-cases (bytes_eq r.zone z && bytes_eq r.name n)) [
        | inl t ↦ rw (e, t) (omega (arith, ih))
        | inr t ↦ rw (e, t) ih
      ]
      | inr e ↦ elim (Bool-cases (bytes_eq r.zone z && bytes_eq r.name n)) [
        | inl t ↦ rw (e, t) (omega (arith, ih))
        | inr t ↦ rw (e, t) ih
      ]
    ]

set_ttl-IsAlone :
    (w : List Row) (p : Row → Bool) (ttl : ℤ) (rows : List Row)
    → All (IsAlone w) rows
    → All (IsAlone w) (set_ttl p ttl rows)
unfolding set_ttl
set_ttl-IsAlone w p ttl [] h = tt
set_ttl-IsAlone w p ttl (r ∷ rows) h = elim (Bool-cases (p r)) [
  | inl e ↦ rw e (h.0, set_ttl-IsAlone w p ttl rows h.1)
  | inr e ↦ rw e (h.0, set_ttl-IsAlone w p ttl rows h.1)
]

pub set_ttl-IsLone :
    (p : Row → Bool) (ttl : ℤ) (rows : List Row) → IsLone rows → IsLone (set_ttl p ttl rows)
set_ttl-IsLone p ttl rows h = set_ttl-IsAlone (set_ttl p ttl rows) p ttl rows (
    map-All (IsAlone rows) (IsAlone (set_ttl p ttl rows)) rows
      (IsAlone-fewer rows (set_ttl p ttl rows) (set_ttl-IsFewer p ttl rows)) h)

select-IsFewer : (q : Row → Bool) (rows : List Row) → IsFewer (select q rows) rows
unfolding count_at select
select-IsFewer q [] z n = omega arith
select-IsFewer q (r ∷ rows) z n =
    let ih = select-IsFewer q rows z n in
    elim (Bool-cases (q r)) [
      | inl e ↦ elim (Bool-cases (at_name_row z n r)) [
        | inl t ↦ rw (e, t) (omega (arith, ih))
        | inr t ↦ rw (e, t) ih
      ]
      | inr e ↦ elim (Bool-cases (at_name_row z n r)) [
        | inl t ↦ rw (e, t) (omega (arith, ih))
        | inr t ↦ rw (e, t) ih
      ]
    ]

-- Removing rows leaves every CNAME alone.
pub select-IsLone : (q : Row → Bool) (rows : List Row) → IsLone rows → IsLone (select q rows)
select-IsLone q rows h = select-All (IsAlone (select q rows)) q rows (
    map-All (IsAlone rows) (IsAlone (select q rows)) rows
      (IsAlone-fewer rows (select q rows) (select-IsFewer q rows)) h)

pub bytes_eq_sym : (a b : Bytes) → bytes_eq a b ≡ bytes_eq b a
bytes_eq_sym a b = elim (Bool-cases (bytes_eq a b)) [
  | inl e ↦ let same = (bytes_eq_iff a b).0 e in rw same refl
  | inr e ↦ elim (Bool-cases (bytes_eq b a)) [
    | inl f ↦ let same = (bytes_eq_iff b a).0 f in rw same refl
    | inr f ↦ e ∙ sym f
  ]
]

module _ (md5 : Bytes → Bytes) (new : Row) where
  abbrev is_same : Row → Bool
  is_same = same_member md5 new.zone new.name new.rtype new.rdata

  -- Where the row is in the table, the insertion changes its time to live alone.
  upsert_found-IsFewer :
      (rows : List Row) → any_row is_same rows ≡ true → IsFewer (upsert md5 new rows).1 rows
  unfolding count_at upsert any_row select at_name_row
  upsert_found-IsFewer [] h z n = absurd cc
  upsert_found-IsFewer (r ∷ rows) h z n = elim (Bool-cases (is_same r)) [
    | inl e ↦ elim (Bool-cases (bytes_eq r.zone z && bytes_eq r.name n)) [
      | inl t ↦ rw (e, t) (omega arith)
      | inr t ↦ rw (e, t) (omega arith)
    ]
    | inr e ↦
        let ih = upsert_found-IsFewer rows (rw e at h) z n in
        elim (Bool-cases (bytes_eq r.zone z && bytes_eq r.name n)) [
          | inl t ↦ rw (e, t) (omega (arith, ih))
          | inr t ↦ rw (e, t) ih
        ]
  ]

  upsert_found-IsAlone :
      (w rows : List Row)
      → any_row is_same rows ≡ true
      → All (IsAlone w) rows
      → All (IsAlone w) (upsert md5 new rows).1
  unfolding upsert any_row
  upsert_found-IsAlone w [] h a = absurd cc
  upsert_found-IsAlone w (r ∷ rows) h a = elim (Bool-cases (is_same r)) [
    | inl e ↦ rw e a
    | inr e ↦ rw e (a.0, upsert_found-IsAlone w rows (rw e at h) a.1)
  ]

  upsert_appended :
      (rows : List Row) → any_row is_same rows ≡ false → (upsert md5 new rows).1 ≡ rows ++ new ∷ []
  unfolding upsert any_row
  upsert_appended [] h = refl
  upsert_appended (r ∷ rows) h = elim (Bool-cases (is_same r)) [
    | inl e ↦ absurd (let f : true ≡ false = rw e at h in cc)
    | inr e ↦ rw e (ap (λ t. r ∷ t) (upsert_appended rows (rw e at h)))
  ]

  -- Another row lets the new one in: it stands elsewhere, or neither is a CNAME.
  abbrev pub Fits : Row → Type 0
  Fits r =
      (at_name_row new.zone new.name r ≡ false) ⊎ ((is_cname new ≡ false) × (is_cname r ≡ false))

  at_name_row_sym : (r : Row) → at_name_row r.zone r.name new ≡ at_name_row new.zone new.name r
  unfolding at_name_row
  at_name_row_sym r = rw (bytes_eq_sym new.zone r.zone, bytes_eq_sym new.name r.name) refl

  count_at-append :
      (rows : List Row) (z n : Bytes)
      → count_at z n (rows ++ new ∷ []) ≡ count_at z n rows + (if at_name_row z n new then 1 else 0)
  unfolding count_at select
  count_at-append [] z n = elim (Bool-cases (at_name_row z n new)) [
    | inl e ↦ rw e refl
    | inr e ↦ rw e refl
  ]
  count_at-append (r ∷ rows) z n =
      let ih = count_at-append rows z n in
      elim (Bool-cases (at_name_row z n r)) [ inl e ↦ rw e (omega (arith, ih)) | inr e ↦ rw e ih ]

  count_none :
      (rows : List Row) → All Fits rows → is_cname new ≡ true → count_at new.zone new.name rows ≡ 0
  unfolding count_at select
  count_none [] h c = refl
  count_none (r ∷ rows) h c = elim h.0 [
    | inl e ↦ rw e (count_none rows h.1 c)
    | inr (other, _) ↦ absurd cc
  ]

  appended-IsAlone :
      (rows : List Row) (r : Row) → Fits r → IsAlone rows r → IsAlone (rows ++ new ∷ []) r
  appended-IsAlone rows r fits (inl other) = inl other
  appended-IsAlone rows r (inr (_, other)) (inr one) = inl other
  appended-IsAlone rows r (inl away) (inr one) =
      inr (rw (count_at-append rows r.zone r.name, at_name_row_sym r, away) (omega (arith, one)))

  appended_new-IsAlone : (rows : List Row) → All Fits rows → IsAlone (rows ++ new ∷ []) new
  appended_new-IsAlone rows fits = elim (Bool-cases (is_cname new)) [
    | inl c ↦ inr (
        rw (count_at-append rows new.zone new.name, count_none rows fits c, place_self new)
          (omega arith))
    | inr c ↦ inl c
  ]

  -- Inserting a row that the others let in, or that is there already, leaves every CNAME alone.
  pub upsert-IsLone :
      (rows : List Row)
      → (any_row is_same rows ≡ true) ⊎ All Fits rows
      → IsLone rows
      → IsLone (upsert md5 new rows).1
  upsert-IsLone rows ok_new h = elim (Bool-cases (any_row is_same rows)) [
    | inl e ↦ upsert_found-IsAlone (upsert md5 new rows).1 rows e (
        map-All (IsAlone rows) (IsAlone (upsert md5 new rows).1) rows
          (IsAlone-fewer rows (upsert md5 new rows).1 (upsert_found-IsFewer rows e)) h)
    | inr e ↦ elim ok_new [
      | inl there ↦ absurd cc
      | inr fits ↦ rw (upsert_appended rows e) (
          All-append (IsAlone (rows ++ new ∷ [])) rows (new ∷ [])
            (zip-All Fits (IsAlone rows) (IsAlone (rows ++ new ∷ [])) rows (appended-IsAlone rows)
              fits h)
            (appended_new-IsAlone rows fits, tt))
    ]
  ]
