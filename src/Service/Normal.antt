-- ===== src/Service/Normal.antt =====
-- The normal forms, of internal/store/store.go, of the names that internal/api/service.go has tested.
use shard_dns.Service.Plain.{
  is_plain, IsPlain, All-append_split, validate_name-IsPlain, normalize_zone-IsPlain,
  validate_name_dot,
}
use mathlib.Core.Path.{subst}
use shard_dns.Store.Below.{has_suffix-eq-true, has_suffix-append}
use shard_dns.Name.Validate.{NameFault, label_byte, validate_name}
use shard_dns.Prelude.Text.{GoRuntime, trim_space, has_suffix}
use shard_dns.Service.{
  CreateRecordRequest, requested_record, has_valid_name, invalid_argument, ttl_of,
}
use shard_dns.RData.Build.{build_rdata}
use shard_dns.Wire.TypeNames.{type_code}
use shard_dns.Zones.{Record}
use shard_dns.Store.{normalize_zone, normalize_type, normalize_name, place_in_zone}
use shard_dns.Prelude.{
  true, false, ◌||◌, leb, [], ◌∷◌, ◌≡◌, refl, sym, ap, ◌∙◌, arith, Bytes, bytes_eq, bytes_eq_iff,
  codes, length, is_empty, Bool-cases, inl, inr, ◌⊎◌, bytes_eq_refl, append_assoc, ◌++◌, Outcome,
  ok, err, map_err, none, ◌≢◌, >>=-eq-ok, >>-eq-ok, &&-eq-true,
}

-- A validated name is its own normal form as a zone.
pub normalize_zone-validate_name :
    ⦃u : GoRuntime⦄ → (name : Bytes) → validate_name name ≡ ok tt → normalize_zone name ≡ name
normalize_zone-validate_name name h =
    normalize_zone-IsPlain name (validate_name-IsPlain name h) (validate_name_dot name h)

-- What is placed in a zone is the zone or ends in a dot and the zone.
place_in_zone-cases :
    ⦃u : GoRuntime⦄
    → (zone n : Bytes)
    → (place_in_zone zone n ≡ zone) ⊎ (has_suffix (place_in_zone zone n) (b'.' ∷ zone) ≡ true)
unfolding place_in_zone
place_in_zone-cases zone n =
    elim (Bool-cases (is_empty n || bytes_eq n (codes "@") || bytes_eq n zone)) [
      | inl e ↦ inl (rw e refl)
      | inr e ↦ elim (Bool-cases (has_suffix n (b'.' ∷ zone))) [
        | inl t ↦ inr (rw (e, t) t)
        | inr t ↦ inr (rw (e, t) (has_suffix-append n (b'.' ∷ zone)))
      ]
    ]

place_in_zone_self : ⦃u : GoRuntime⦄ → (z : Bytes) → place_in_zone z z ≡ z
unfolding place_in_zone
place_in_zone_self [] = refl
place_in_zone_self (c ∷ z) = elim (Bool-cases (bytes_eq (c ∷ z) (codes "@"))) [
  | inl e ↦ rw e refl
  | inr e ↦ rw (e, bytes_eq_refl (c ∷ z)) refl
]

no_suffix : (zone : Bytes) → has_suffix [] (b'.' ∷ zone) ≢ true
unfolding has_suffix
no_suffix zone h = let (fits, _) = &&-eq-true (leb (length (b'.' ∷ zone)) 0) _ h in ground arith

at_sign : IsPlain (codes "@") → ⊥
unfolding label_byte
at_sign h = cc

place_in_zone_below :
    ⦃u : GoRuntime⦄
    → (zone p : Bytes) → IsPlain p
    → has_suffix p (b'.' ∷ zone) ≡ true
    → place_in_zone zone p ≡ p
unfolding place_in_zone
place_in_zone_below zone [] plain e = absurd (no_suffix zone e)
place_in_zone_below zone (c ∷ p) plain e = elim (Bool-cases (bytes_eq (c ∷ p) (codes "@"))) [
  | inl t ↦ absurd (at_sign (subst IsPlain ((bytes_eq_iff (c ∷ p) (codes "@")).0 t) plain))
  | inr t ↦ elim (Bool-cases (bytes_eq (c ∷ p) zone)) [
    | inl i ↦ rw (t, i) (sym ((bytes_eq_iff (c ∷ p) zone).0 i))
    | inr i ↦ rw (t, i, e) refl
  ]
]

-- A name stays where it is placed.
place_in_zone-place_in_zone :
    ⦃u : GoRuntime⦄
    → (zone n : Bytes) → IsPlain (place_in_zone zone n)
    → place_in_zone zone (place_in_zone zone n) ≡ place_in_zone zone n
place_in_zone-place_in_zone zone n plain = elim (place_in_zone-cases zone n) [
  | inl e ↦ subst (λ p. place_in_zone zone p ≡ p) (sym e) (place_in_zone_self zone)
  | inr e ↦ place_in_zone_below zone (place_in_zone zone n) plain e
]

-- The end of a validated name is its own normal form.
normalize_zone-end :
    ⦃u : GoRuntime⦄
    → (front zone name : Bytes) → name ≡ front ++ zone
    → validate_name name ≡ ok tt
    → normalize_zone zone ≡ zone
normalize_zone-end front zone name e h =
    let plain = subst IsPlain e (validate_name-IsPlain name h) in
    let (_, end) = All-append_split (λ c. is_plain c ≡ true) front zone plain in
    normalize_zone-IsPlain zone end (elim (Bool-cases (has_suffix zone (codes "."))) [
      | inr e ↦ e
      | inl dot ↦ absurd (
          let (z, same) = has_suffix-eq-true zone (codes ".") dot in
          let dotted : name ≡ (front ++ z) ++ codes "." =
            e ∙ ap (λ t. front ++ t) same ∙ sym (append_assoc front z (codes ".")) in
          let here = has_suffix-append (front ++ z) (codes ".") in
          let none_there = validate_name_dot name h in
          let both = subst (λ t. has_suffix t (codes ".") ≡ false) dotted none_there in cc)
    ])

-- A validated name in a zone, and the zone, are their own normal forms.
placed_normal :
    ⦃u : GoRuntime⦄
    → (zone text : Bytes) → has_valid_name (normalize_name zone text) ≡ ok tt
    → (normalize_zone zone ≡ zone)
      × (normalize_name zone (normalize_name zone text) ≡ normalize_name zone text)
unfolding normalize_name
placed_normal zone text valid =
    let n = normalize_zone text in
    let h = was_valid (validate_name (place_in_zone zone n)) valid in
    (
      elim (place_in_zone-cases zone n) [
        | inl e ↦ normalize_zone-end [] zone (place_in_zone zone n) e h
        | inr e ↦
            let (front, same) = has_suffix-eq-true (place_in_zone zone n) (b'.' ∷ zone) e in
            normalize_zone-end (front ++ codes ".") zone (place_in_zone zone n)
              (same ∙ sym (append_assoc front (codes ".") zone)) h
      ],
      rw (normalize_zone-validate_name (place_in_zone zone n) h)
          (place_in_zone-place_in_zone zone n (validate_name-IsPlain (place_in_zone zone n) h)),
    )
  where
    was_valid :
        (r : Outcome NameFault (Unit {0})) → map_err (λ e. invalid_argument) r ≡ ok tt → r ≡ ok tt
    was_valid (ok tt) e = refl
    was_valid (err f) e = cc

-- The name and the zone of a record that the service passes on are their own normal forms.
pub requested_record-normal :
    ⦃u : GoRuntime⦄
    → (m : CreateRecordRequest) {r : Record} → requested_record m ≡ ok r
    → (normalize_zone r.zone ≡ r.zone) × (normalize_name r.zone r.name ≡ r.name)
unfolding requested_record
requested_record-normal m {r} h =
    let zone = normalize_zone m.zone in
    let name = normalize_name zone m.name in
    let (tests, made) = >>-eq-ok _ _ h in
    let (before, named) = >>-eq-ok _ (has_valid_name name) tests in
    let (wire, built, more) =
      >>=-eq-ok
        (map_err (λ e. invalid_argument)
          (build_rdata (type_code (normalize_type m.rtype)) (trim_space m.rdata)))
        _ made in
    let (ttl, ranged, done) = >>=-eq-ok (ttl_of m.ttl) _ more in
    let same : record {
      id = 0;
      zone = zone;
      name = name;
      rtype = normalize_type m.rtype;
      ttl = ttl;
      rdata = trim_space m.rdata;
      wire = none;
      wire_err = false;
    }
        ≡ r =
      cc in
    subst (λ q. (normalize_zone q.zone ≡ q.zone) × (normalize_name q.zone q.name ≡ q.name)) same
      (placed_normal zone m.name named)
