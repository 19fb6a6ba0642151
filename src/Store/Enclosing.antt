-- ===== src/Store/Enclosing.antt =====
-- The names that `FindZone` of internal/store/zone.go asks for, and the zone that it takes.
use mathlib.Core.Path.{subst}
use shard_dns.Handler.Lookup.{enclosers}
use shard_dns.Prelude.Text.{GoRuntime, has_suffix}
use shard_dns.Cache.Shard.{bytes_eq_other}
use shard_dns.Store.Alone.{map-All}
use shard_dns.Store.Below.{has_suffix-eq-true, has_suffix-append}
use shard_dns.Store.ZoneTable.{scan_zone, in_list, until_empty, candidates, longest, find_zone}
use shard_dns.Store.{Tables, normalize_zone}
use shard_dns.Zones.{not_found, Zone}
use shard_dns.Prelude.{
  ℕ, ◌≤◌, ◌<◌, Bool, true, false, ltb, ◌==◌, ==_iff, not, ◌&&◌, ◌||◌, ◌++◌, ◌⊎◌, IsIn,
  bytes_eq_refl, if◌then◌else◌, Option, none, some, List, [], ◌∷◌, ◌≡◌, refl, sym, ap, ◌∙◌, arith,
  Bytes, bytes_eq, bytes_eq_iff, is_empty, length, select, All, Bool-cases, inl, inr, err,
}

abbrev pub Shorter : Bytes → List Bytes → Type 0
Shorter n ns = All (λ m. length m < length n) ns

abbrev pub IsDecreasing : List Bytes → Type 0
IsDecreasing [] = Unit
IsDecreasing (n ∷ ns) = Shorter n ns × IsDecreasing ns

Shorter-weaken : (k n : Bytes) (ns : List Bytes) → length k ≤ length n → Shorter k ns → Shorter n ns
Shorter-weaken k n [] h s = tt
Shorter-weaken k n (m ∷ ns) h s = (omega (arith, s.0), Shorter-weaken k n ns h s.1)

pub enclosers-IsDecreasing : (s : Bytes) → IsDecreasing (s ∷ enclosers s)
unfolding enclosers
enclosers-IsDecreasing [] = (tt, tt)
enclosers-IsDecreasing (c ∷ s) =
    let (shorter, decreasing) = enclosers-IsDecreasing s in
    let all = Shorter-weaken s (c ∷ s) (enclosers s) (omega arith) shorter in
    elim (Bool-cases (c == b'.')) [
      | inl e ↦ rw e ((omega arith, all), (shorter, decreasing))
      | inr e ↦ rw e (all, decreasing)
    ]

pub in_list-Shorter :
    (n b : Bytes) (ns : List Bytes) → Shorter n ns → in_list b ns ≡ true → length b < length n
unfolding in_list
in_list-Shorter n b [] h i = cc
in_list-Shorter n b (m ∷ ns) h i = elim (Bool-cases (bytes_eq b m)) [
  | inl e ↦ rw ((bytes_eq_iff b m).0 e) h.0
  | inr e ↦ in_list-Shorter n b ns h.1 (rw e at i)
]

in_list-enclosers : (front n : Bytes) → in_list n (enclosers (front ++ b'.' ∷ n)) ≡ true
unfolding in_list enclosers
in_list-enclosers [] n = rw (bytes_eq_refl n) refl
in_list-enclosers (c ∷ front) n = elim (Bool-cases (c == b'.')) [
  | inl e ↦ rw e (elim (Bool-cases (bytes_eq n (front ++ b'.' ∷ n))) [
    | inl t ↦ rw t refl
    | inr t ↦ rw t (in_list-enclosers front n)
  ])
  | inr e ↦ rw e (in_list-enclosers front n)
]

-- A name behind a dot of a text is what the text ends in, behind that dot.
has_suffix_cons : (c : ℕ) (s t : Bytes) → has_suffix s t ≡ true → has_suffix (c ∷ s) t ≡ true
has_suffix_cons c s t h =
    let (front, e) = has_suffix-eq-true s t h in rw e (has_suffix-append (c ∷ front) t)

has_suffix-enclosers :
    (s n : Bytes) → in_list n (enclosers s) ≡ true → has_suffix s (b'.' ∷ n) ≡ true
unfolding in_list enclosers
has_suffix-enclosers [] n h = absurd cc
has_suffix-enclosers (c ∷ s) n h = elim (Bool-cases (c == b'.')) [
  | inr e ↦ has_suffix_cons c s (b'.' ∷ n) (has_suffix-enclosers s n (rw (enclosers, e) at h))
  | inl e ↦
      let k : (if bytes_eq n s then true else in_list n (enclosers s)) ≡ true =
        rw (enclosers, e) at h in
      elim (Bool-cases (bytes_eq n s)) [
        | inl t ↦
            let dot = (==_iff c b'.').0 e in
            let same = (bytes_eq_iff n s).0 t in rw (dot, same) (has_suffix-append [] (b'.' ∷ s))
        | inr t ↦ has_suffix_cons c s (b'.' ∷ n) (has_suffix-enclosers s n (rw t at k))
      ]
]

-- The name and the names above it are those that it ends in, itself or behind a dot.
pub in_list-chain :
    (q n : Bytes) → in_list n (q ∷ enclosers q) ≡ (bytes_eq q n || has_suffix q (b'.' ∷ n))
unfolding in_list
in_list-chain q n = elim (Bool-cases (bytes_eq n q)) [
  | inl t ↦ let same = (bytes_eq_iff n q).0 t in rw (t, same, bytes_eq_refl q) refl
  | inr t ↦
      let other : bytes_eq q n ≡ false =
        bytes_eq_other q n (λ e. let swapped = (bytes_eq_iff n q).1 (sym e) in cc) in
      rw (t, other) (behind (has_suffix q (b'.' ∷ n)) refl)
]
  where
    behind :
        (b : Bool) → has_suffix q (b'.' ∷ n) ≡ b → in_list n (enclosers q) ≡ has_suffix q (b'.' ∷ n)
    behind true h =
        let (front, e) = has_suffix-eq-true q (b'.' ∷ n) h in
        subst (λ t. in_list n (enclosers t) ≡ true) (sym e) (in_list-enclosers front n) ∙ sym h
    behind false h = elim (Bool-cases (in_list n (enclosers q))) [
      | inl k ↦ absurd (let f = has_suffix-enclosers q n k in cc)
      | inr k ↦ k ∙ sym h
    ]

-- The loop stops at an empty name, behind which there is none.
in_list-until_empty :
    (n : Bytes) (ns : List Bytes)
    → IsDecreasing ns
    → in_list n (until_empty ns) ≡ (not (is_empty n) && in_list n ns)
unfolding in_list until_empty bytes_eq
in_list-until_empty [] [] h = refl
in_list-until_empty (c ∷ n) [] h = refl
in_list-until_empty [] ([] ∷ ns) h = refl
in_list-until_empty (c ∷ n) ([] ∷ ns) h = elim (Bool-cases (in_list (c ∷ n) ns)) [
  | inl k ↦ absurd (let less = in_list-Shorter [] (c ∷ n) ns h.0 k in omega arith)
  | inr k ↦ sym k
]
in_list-until_empty n ((d ∷ m) ∷ ns) h = elim (Bool-cases (bytes_eq n (d ∷ m))) [
  | inl t ↦ let same = (bytes_eq_iff n (d ∷ m)).0 t in rw (same, bytes_eq_refl (d ∷ m)) refl
  | inr t ↦ rw t (in_list-until_empty n ns h.1)
]

-- The zone has a name, and the name asked for is that or ends in a dot and that.
abbrev pub encloses : Bytes → Zone → Bool
encloses q z = not (is_empty z.name) && (bytes_eq q z.name || has_suffix q (b'.' ∷ z.name))

-- The zone is the longest of those that pass a test, or none passes it.
abbrev pub IsLongest : (Zone → Bool) → List Zone → Option Zone → Type 0
IsLongest p zs none = All (λ w. p w ≡ false) zs
IsLongest p zs (some z) =
    IsIn z zs × (p z ≡ true) × All (λ w. (p w ≡ false) ⊎ (length w.name ≤ length z.name)) zs

-- A zone before the others, that fails the test or passes it.
skip-IsLongest :
    (p : Zone → Bool) (z : Zone) (zs : List Zone) (o : Option Zone)
    → p z ≡ false
    → IsLongest p zs o
    → IsLongest p (z ∷ zs) o
skip-IsLongest p z zs none e h = (e, h)
skip-IsLongest p z zs (some w) e (i, passes, all) = (inr i, passes, (inl e, all))

insert-IsLongest :
    (p : Zone → Bool) (z : Zone) (zs : List Zone) (o : Option Zone)
    → p z ≡ true
    → IsLongest p zs o
    → IsLongest p (z ∷ zs) (elim o as (λ _. Option Zone) [
      | none ↦ some z
      | some w ↦ some (if ltb (length z.name) (length w.name) then w else z)
    ])
insert-IsLongest p z zs none e h =
    (inl refl, e, (inr (omega arith), map-All _ _ zs (λ w k. inl k) h))
insert-IsLongest p z zs (some w) e (i, passes, all) =
    elim (Bool-cases (ltb (length z.name) (length w.name))) [
      | inl l ↦
          let taken : (if ltb (length z.name) (length w.name) then w else z) ≡ w = rw l refl in
          subst (λ v. IsLongest p (z ∷ zs) (some v)) (sym taken)
            (inr i, passes, (inr (ground arith), all))
      | inr l ↦
          let taken : (if ltb (length z.name) (length w.name) then w else z) ≡ z = rw l refl in
          subst (λ v. IsLongest p (z ∷ zs) (some v)) (sym taken)
            (
              inl refl,
              e,
              (
                inr (omega arith),
                map-All (λ v. (p v ≡ false) ⊎ (length v.name ≤ length w.name))
                    (λ v. (p v ≡ false) ⊎ (length v.name ≤ length z.name)) zs
                    (λ v k. elim k [ inl out ↦ inl out | inr le ↦ inr (ground arith) ]) all,
              ),
            )
    ]

longest-IsLongest : (p : Zone → Bool) (zs : List Zone) → IsLongest p zs (longest (select p zs))
unfolding longest select
longest-IsLongest p [] = tt
longest-IsLongest p (z ∷ zs) = elim (Bool-cases (p z)) [
  | inl e ↦ rw e (insert-IsLongest p z zs (longest (select p zs)) e (longest-IsLongest p zs))
  | inr e ↦ rw e (skip-IsLongest p z zs (longest (select p zs)) e (longest-IsLongest p zs))
]

select-same :
    (p q : Zone → Bool) (zs : List Zone) → ((z : Zone) → p z ≡ q z) → select p zs ≡ select q zs
unfolding select
select-same p q [] f = refl
select-same p q (z ∷ zs) f = rw (f z) (ap (λ t. if q z then z ∷ t else t) (select-same p q zs f))

named_none : (zs : List Zone) → select (λ z. in_list z.name []) zs ≡ []
unfolding select in_list
named_none [] = refl
named_none (z ∷ zs) = named_none zs

-- When the database does not fail, `find_zone` answers the zone with the longest name among the zones
-- whose name is the normalized name, or stands above it behind a dot, and is not empty; and
-- `not_found` when there is no such zone.
pub find_zone-IsLongest :
    ⦃u : GoRuntime⦄
    → (faults : ℕ → Bool) (db : Tables) (qname : Bytes) → faults 0 ≡ false
    → (z : Option Zone) × (find_zone faults db qname ≡ scan_zone z)
      × IsLongest (encloses (normalize_zone qname)) db.zones z
unfolding find_zone
find_zone-IsLongest faults db qname works =
    let q = normalize_zone qname in
    let named = λ (ns : List Bytes). select (λ (z : Zone). in_list z.name ns) db.zones in
    let same : named (candidates q) ≡ select (encloses q) db.zones =
      select-same _ (encloses q) db.zones (λ z.
        unfold candidates in
        in_list-until_empty z.name (q ∷ enclosers q) (enclosers-IsDecreasing q)
        ∙ ap (λ t. not (is_empty z.name) && t) (in_list-chain q z.name)) in
    (
      longest (select (encloses q) db.zones),
      rw works (no_names (candidates q)) ∙ ap (λ zs. scan_zone (longest zs)) same,
      longest-IsLongest (encloses q) db.zones,
    )
  where
    no_names :
        (ns : List Bytes)
        → (if is_empty ns
            then err not_found
            else scan_zone (longest (select (λ (z : Zone). in_list z.name ns) db.zones)))
          ≡ scan_zone (longest (select (λ (z : Zone). in_list z.name ns) db.zones))
    no_names [] = rw (named_none db.zones) (unfold longest in refl)
    no_names (n ∷ ns) = refl
