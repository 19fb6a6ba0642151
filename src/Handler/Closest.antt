-- ===== src/Handler/Closest.antt =====
-- `lookup` of internal/dns/handler.go, against the closest enclosing name of RFC 4592.
use shard_dns.Handler.Lookup.{
  Match, cut_at, dname_at, found, enclosers, Climb, matched, closest, cut_or_dname, climb, wildcard,
  at_name, lookup,
}
use shard_dns.Handler.{filter_type}
use shard_dns.Prelude.Text.{GoRuntime}
use shard_dns.Wire.{type_ns, type_ds, type_dname}
use shard_dns.Zones.{Zone, Record, NameSet, exists, Resolver}
use shard_dns.Prelude.{
  ℕ, Bool, true, false, not, ◌||◌, none, some, List, [], ◌∷◌, ◌++◌, append_assoc, select, ◌==◌, ◌≡◌,
  ◌≢◌, refl, sym, ap, ◌∙◌, arith, Bytes, bytes_eq, bytes_eq_iff, codes, is_empty, All, All-append,
  IsIn, Bool-cases, inl, inr, ◌⊎◌, ok,
}

bytes_eq-false : (a b : Bytes) → bytes_eq a b ≡ false → a ≢ b
bytes_eq-false a b h q = let t : bytes_eq a b ≡ true = (bytes_eq_iff a b).1 q in absurd cc

bytes_eq-other : (a b : Bytes) → a ≢ b → bytes_eq a b ≡ false
bytes_eq-other a b h = elim (Bool-cases (bytes_eq a b)) [
  | inl e ↦ absurd (h ((bytes_eq_iff a b).0 e))
  | inr e ↦ e
]

is_empty-nil : {A : Type 0} (xs : List A) → is_empty xs ≡ true → xs ≡ []
is_empty-nil [] h = refl
is_empty-nil (x ∷ xs) h = absurd cc

module _ ⦃u : GoRuntime⦄ (zone : Zone) (sets : Bytes → NameSet) where
  -- There is nothing at the name, which is not the zone's.
  abbrev pub IsPassed : Bytes → Type 0
  IsPassed n = (n ≢ zone.name) × (exists (sets n) ≡ false)

  -- The name `e` stands above `name`, and from `name` on up to it there is nothing.
  abbrev pub IsAbove : Bytes → Bytes → Type 0
  IsAbove name e =
      (before : List Bytes) × (after : List Bytes) × (enclosers name ≡ before ++ e ∷ after)
      × All IsPassed (name ∷ before)

  abbrev pub nameservers : Bytes → List Record
  nameservers n = filter_type (sets n).records type_ns

  abbrev pub dnames : Bytes → List Record
  dnames n = filter_type (sets n).records type_dname

  -- There is something at the name that passes nothing on: it is the zone's, or exists without NS and
  -- DNAME records.
  abbrev pub IsTop : Bytes → Type 0
  IsTop e = (e ≡ zone.name) ⊎ ((exists (sets e) ≡ true) × (nameservers e ≡ []) × (dnames e ≡ []))

  -- The records are those at the name itself.
  abbrev pub IsOwn : Bytes → ℕ → List Record → Bool → Type 0
  IsOwn name qtype records there =
      (records ≡ (sets name).records)
      × (there ≡ true)
      × ((exists (sets name) ≡ true) ⊎ (name ≡ zone.name))
      × ((name ≡ zone.name) ⊎ ((qtype ≡ type_ds) ⊎ (nameservers name ≡ [])))

  -- The records are those of the wildcard below the closest name above that exists.
  abbrev pub IsWild : Bytes → List Record → Bool → Type 0
  IsWild name records there =
      (e : Bytes) × IsAbove name e
      × IsTop e
      × (records ≡ (sets (codes "*." ++ e)).records)
      × (there ≡ not (is_empty records))

  -- What a match says of the names.
  abbrev pub IsVerdict : Bytes → ℕ → Match → Type 0
  IsVerdict name qtype (cut_at e ns) =
      (e ≢ zone.name)
      × (ns ≡ nameservers e)
      × (is_empty ns ≡ false)
      × (((e ≡ name) × (qtype ≢ type_ds)) ⊎ IsAbove name e)
  IsVerdict name qtype (dname_at e d) =
      (e ≢ zone.name)
      × IsAbove name e
      × (nameservers e ≡ [])
      × ((others : List Record) × (dnames e ≡ d ∷ others))
  IsVerdict name qtype (found records there) =
      IsOwn name qtype records there ⊎ IsWild name records there

  -- Where the climb from a name ends.
  abbrev IsEnd : Bytes → ℕ → Climb → Type 0
  IsEnd name qtype (matched m) = IsVerdict name qtype m
  IsEnd name qtype (closest e) = IsAbove name e × IsTop e

  -- What stands at a name above: a delegation, a DNAME, or neither.
  abbrev IsDecided : Bytes → Type 0
  IsDecided e =
      ((ns : List Record) × (cut_or_dname e (sets e).records ≡ some (cut_at e ns))
        × (ns ≡ nameservers e)
        × (is_empty ns ≡ false))
      ⊎ (((d : Record) × (others : List Record) × (cut_or_dname e (sets e).records
              ≡ some (dname_at e d))
            × (nameservers e ≡ [])
            × (dnames e ≡ d ∷ others))
          ⊎ ((cut_or_dname e (sets e).records ≡ none) × (nameservers e ≡ []) × (dnames e ≡ [])))

  cut_or_dname-IsDecided : (e : Bytes) → IsDecided e
  unfolding cut_or_dname
  cut_or_dname-IsDecided e = by_lists (nameservers e) refl (dnames e) refl
    where
      by_lists :
          (ns : List Record) → nameservers e ≡ ns → (ds : List Record) → dnames e ≡ ds → IsDecided e
      by_lists (n ∷ ns) p ds q = inl (n ∷ ns, rw (cut_or_dname, p) refl, sym p, refl)
      by_lists [] p (d ∷ ds) q = inr (inl (d, ds, rw (cut_or_dname, p, q) refl, p, q))
      by_lists [] p [] q = inr (inr (rw (cut_or_dname, p, q) refl, p, q))

  module _ (r : Resolver) (up : (n : Bytes) → r.lookup_name zone.name n ≡ ok (sets n))
      (name : Bytes) (qtype : ℕ) where
    climb-IsEnd :
        (here : Bytes) (before es : List Bytes)
        → here ≢ zone.name
        → enclosers name ≡ before ++ es
        → All IsPassed (name ∷ before)
        → IsIn zone.name es
        → (c : Climb) × (climb r zone here es ≡ ok c) × IsEnd name qtype c
    unfolding climb
    climb-IsEnd here before [] off path passed inside = absurd inside
    climb-IsEnd here before (e ∷ es) off path passed inside =
        let off_apex = bytes_eq-other here zone.name off in
        let above : IsAbove name e = (before, es, path, passed) in
        elim (Bool-cases (bytes_eq e zone.name)) [
          | inl t ↦ (
            closest e,
            rw (climb, off_apex, up e, t) refl,
            (above, inl ((bytes_eq_iff e zone.name).0 t)),
          )
          | inr t ↦
              let apart = bytes_eq-false e zone.name t in
              elim (cut_or_dname-IsDecided e) [
                | inl (ns, c, same, some_ns) ↦ (
                  matched (cut_at e ns),
                  rw (climb, off_apex, up e, t, c) refl,
                  (apart, same, some_ns, inr above),
                )
                | inr no_cut ↦ elim no_cut [
                  | inl (d, ds, c, no_ns, same) ↦ (
                    matched (dname_at e d),
                    rw (climb, off_apex, up e, t, c) refl,
                    (apart, above, no_ns, (ds, same)),
                  )
                  | inr (c, no_ns, no_dname) ↦ elim (Bool-cases (exists (sets e))) [
                    | inl there ↦ (
                      closest e,
                      rw (climb, off_apex, up e, t, c, there) refl,
                      (above, inr (there, no_ns, no_dname)),
                    )
                    | inr nothing ↦
                        let (end, run, fits) =
                          climb-IsEnd e (before ++ e ∷ []) es apart
                            (path ∙ sym (append_assoc before (e ∷ []) es))
                            (
                              passed.0,
                              All-append IsPassed before (e ∷ []) passed.1 ((apart, nothing), tt),
                            )
                            (still es apart inside) in
                        (end, rw (climb, off_apex, up e, t, c, nothing) run, fits)
                  ]
                ]
              ]
        ]
      where
        still : (es : List Bytes) → e ≢ zone.name → IsIn zone.name (e ∷ es) → IsIn zone.name es
        still es apart (inl same) = absurd (apart (sym same))
        still es apart (inr further) = further

    wildcard-IsVerdict :
        (c : Climb)
        → IsEnd name qtype c
        → (m : Match) × (wildcard r zone c ≡ ok m) × IsVerdict name qtype m
    unfolding wildcard
    wildcard-IsVerdict (matched m) h = (m, refl, h)
    wildcard-IsVerdict (closest e) h =
        let records = (sets (codes "*." ++ e)).records in
        elim (Bool-cases (is_empty records)) [
          | inl t ↦ (
            found [] false,
            rw (up (codes "*." ++ e), t) refl,
            inr (e, h.0, h.1, sym (is_empty-nil records t), refl),
          )
          | inr t ↦ (
            found records true,
            rw (up (codes "*." ++ e), t) refl,
            inr (e, h.0, h.1, refl, rw t refl),
          )
        ]

    at_name-IsVerdict :
        is_empty (sets name).records ≡ false
        → IsVerdict name qtype (at_name r zone name qtype (sets name).records)
    unfolding at_name exists
    at_name-IsVerdict some_records =
        let there : exists (sets name) ≡ true = rw (exists, some_records) refl in
        elim (Bool-cases (bytes_eq name zone.name)) [
          | inl a ↦
              let apex = (bytes_eq_iff name zone.name).0 a in
              rw (at_name, a) (inl (refl, refl, inl there, inl apex))
          | inr a ↦ elim (Bool-cases (qtype == type_ds)) [
            | inl d ↦ rw (at_name, a, d) (inl (refl, refl, inl there, inr (inl (ground arith))))
            | inr d ↦ elim (Bool-cases (is_empty (nameservers name))) [
              | inl n ↦
                  rw (at_name, a, d, n)
                    (inl (refl, refl, inl there, inr (inr (is_empty-nil (nameservers name) n))))
              | inr n ↦
                  rw (at_name, a, d, n)
                    (
                      bytes_eq-false name zone.name a,
                      refl,
                      n,
                      inl (refl, λ q. absurd (ground arith)),
                    )
            ]
          ]
        ]

    -- While the resolver answers, the look-up of a name that is the zone's or below it always answers:
    -- a delegation at the name (but not for DS) or above it, a DNAME above it, the records at the
    -- name when it exists, or else those of the wildcard below the closest name above that exists,
    -- and none of the names passed on the way up exists.
    pub lookup-IsVerdict :
        (name ≡ zone.name) ⊎ IsIn zone.name (enclosers name)
        → (m : Match) × (lookup r zone name qtype ≡ ok m) × IsVerdict name qtype m
    unfolding lookup exists
    lookup-IsVerdict inside = elim (Bool-cases (is_empty (sets name).records)) [
      | inr t ↦ (
        at_name r zone name qtype (sets name).records,
        rw (lookup, up name, t) refl,
        at_name-IsVerdict t,
      )
      | inl t ↦ elim (Bool-cases ((sets name).has_children || bytes_eq name zone.name)) [
        | inl here ↦
            let bare = is_empty-nil (sets name).records t in
            (
              found [] true,
              rw (lookup, up name, t, here) refl,
              inl (
                sym bare,
                refl,
                or_exists t here,
                inr (
                    inr
                      (ap (λ rs. filter_type rs type_ns) bare ∙ unfold filter_type select in refl)),
              ),
            )
        | inr gone ↦
            let off : bytes_eq name zone.name ≡ false = ground arith in
            let nothing : exists (sets name) ≡ false = rw (exists, t) (ground arith) in
            let apart = bytes_eq-false name zone.name off in
            let (c, run, fits) =
              climb-IsEnd name [] (enclosers name) apart refl ((apart, nothing), tt)
                (below apart inside) in
            let (m, answer, verdict) = wildcard-IsVerdict c fits in
            (m, rw (lookup, up name, t, gone, run) answer, verdict)
      ]
    ]
      where
        or_exists :
            is_empty (sets name).records ≡ true
            → ((sets name).has_children || bytes_eq name zone.name) ≡ true
            → (exists (sets name) ≡ true) ⊎ (name ≡ zone.name)
        or_exists t here = elim (Bool-cases (bytes_eq name zone.name)) [
          | inl a ↦ inr ((bytes_eq_iff name zone.name).0 a)
          | inr a ↦
              let children : (sets name).has_children ≡ true = ground arith in
              inl (unfold exists in rw (t, children) refl)
        ]

        below :
            name ≢ zone.name
            → (name ≡ zone.name) ⊎ IsIn zone.name (enclosers name)
            → IsIn zone.name (enclosers name)
        below apart (inl same) = absurd (apart same)
        below apart (inr above) = above
