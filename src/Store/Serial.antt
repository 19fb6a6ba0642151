-- ===== src/Store/Serial.antt =====
-- `bumpSerial` of internal/store/zone.go, in the updates of a zone's row.
use mathlib.Core.Path.{subst}
use shard_dns.Prelude.Int.{ℤ, pos, negsuc}
use shard_dns.Store.ZoneTable.{zone_row, update_zones, bump, set_soa}
use shard_dns.Store.{next_serial, less, bump_serial}
use shard_dns.Zones.{failure, Zone}
use shard_dns.Prelude.{
  zero, suc, ◌+◌, true, false, ltb, if◌then◌else◌, Option, none, some, List, [], ◌∷◌, ◌≡◌, refl,
  sym, ap, ◌∙◌, arith, Bytes, bytes_eq, bytes_eq_iff, bytes_eq_refl, Bool-cases, Option-cases, inl,
  inr, ◌⊎◌, ok, err, >>=-eq-ok,
}

less_trans : (a b c : ℤ) → less a b ≡ true → less b c ≡ true → less a c ≡ true
unfolding less
less_trans (pos a) (pos b) (pos c) h k = ground arith
less_trans (pos a) (pos b) (negsuc c) h k = k
less_trans (pos a) (negsuc b) c h k = absurd cc
less_trans (negsuc a) (pos b) (pos c) h k = refl
less_trans (negsuc a) (pos b) (negsuc c) h k = absurd cc
less_trans (negsuc a) (negsuc b) (pos c) h k = refl
less_trans (negsuc a) (negsuc b) (negsuc c) h k = ground arith

less-next_serial : (s : ℤ) {s' : ℤ} → next_serial s ≡ some s' → less s s' ≡ true
unfolding next_serial less
less-next_serial (pos n) {s'} h = elim (Bool-cases (ltb n 9223372036854775807)) [
  | inl e ↦
      let f : some (pos (n + 1)) ≡ some s' = rw e at h in
      let same : pos (n + 1) ≡ s' = cc in rw (sym same) (ground arith)
  | inr e ↦ absurd (let f : none ≡ some s' = rw e at h in cc)
]
less-next_serial (negsuc zero) {s'} h = let same : pos 0 ≡ s' = cc in rw (sym same) refl
less-next_serial (negsuc (suc n)) {s'} h =
    let same : negsuc n ≡ s' = cc in rw (sym same) (ground arith)

less-bump_serial : (now s : ℤ) {s' : ℤ} → bump_serial now s ≡ some s' → less s s' ≡ true
unfolding bump_serial
less-bump_serial now s {s'} h = elim (Option-cases (next_serial s)) [
  | inl e ↦ absurd (let f : none ≡ some s' = rw (bump_serial, e) at h in cc)
  | inr (n, e) ↦ elim (Bool-cases (less n now)) [
    | inl t ↦
        let f : some now ≡ some s' = rw (bump_serial, e, t) at h in
        let same : now ≡ s' = cc in rw (sym same) (less_trans s n now (less-next_serial s e) t)
    | inr t ↦
        let f : some n ≡ some s' = rw (bump_serial, e, t) at h in
        let same : n ≡ s' = cc in rw (sym same) (less-next_serial s e)
  ]
]

-- The assignments keep the name and raise the serial.
abbrev pub Raises : (Zone → Option Zone) → Type 0
Raises f = (z z' : Zone) → f z ≡ some z' → (z'.name ≡ z.name) × (less z.serial z'.serial ≡ true)

pub bump-Raises : (now : ℤ) → Raises (bump now)
unfolding bump
bump-Raises now z z' h = elim (Option-cases (bump_serial now z.serial)) [
  | inl e ↦ absurd (let f : none ≡ some z' = rw (bump, e) at h in cc)
  | inr (s, e) ↦
      let f : some (record z { serial = s }) ≡ some z' = rw (bump, e) at h in
      let same : record z { serial = s } ≡ z' = cc in
      rw (sym same) (refl, less-bump_serial now z.serial e)
]

pub set_soa-Raises : (now : ℤ) (soa : Zone) → Raises (set_soa now soa)
unfolding set_soa
set_soa-Raises now soa z z' h = bump-Raises now _ z' h

zone_row_first :
    (m : Bytes) (z : Zone) (zs : List Zone)
    → bytes_eq z.name m ≡ true
    → zone_row m (z ∷ zs) ≡ some z
unfolding zone_row
zone_row_first m z zs e = rw e refl

zone_row_skip :
    (m : Bytes) (z : Zone) (zs : List Zone)
    → bytes_eq z.name m ≡ false
    → zone_row m (z ∷ zs) ≡ zone_row m zs
unfolding zone_row
zone_row_skip m z zs e = rw e refl

zone_row_under :
    (m : Bytes) (z : Zone) (zs zs' : List Zone)
    → zone_row m zs ≡ zone_row m zs'
    → zone_row m (z ∷ zs) ≡ zone_row m (z ∷ zs')
unfolding zone_row
zone_row_under m z zs zs' h = ap (λ v. if bytes_eq z.name m then some z else v) h

bytes_eq_apart : (a b m : Bytes) → bytes_eq a b ≡ true → bytes_eq m b ≡ false → bytes_eq a m ≡ false
bytes_eq_apart a b m e other = elim (Bool-cases (bytes_eq a m)) [
  | inr f ↦ f
  | inl f ↦ absurd (
      let same : m ≡ b = sym ((bytes_eq_iff a m).0 f) ∙ (bytes_eq_iff a b).0 e in
      let g = subst (λ t. bytes_eq t b ≡ false) same other in let k = bytes_eq_refl b in cc)
]

module _ (name : Bytes) (f : Zone → Option Zone) where
  -- The first row after an update, and the rest.
  update_zones-cons :
      (z : Zone) (zs : List Zone) {zs' : List Zone}
      → update_zones name f (z ∷ zs) ≡ ok zs'
      → (w : Zone) × (rest : List Zone) × (update_zones name f zs ≡ ok rest)
        × (zs' ≡ w ∷ rest)
        × (((bytes_eq z.name name ≡ true) × (f z ≡ some w))
            ⊎ ((bytes_eq z.name name ≡ false) × (w ≡ z)))
  unfolding update_zones
  update_zones-cons z zs {zs'} h = elim (Bool-cases (bytes_eq z.name name)) [
    | inl e ↦ elim (Option-cases (f z)) [
      | inl t ↦ absurd (let g : err failure ≡ ok zs' = rw (e, t) at h in cc)
      | inr (w, t) ↦
          let (rest, more, made) =
            >>=-eq-ok (update_zones name f zs) (λ r. ok (w ∷ r)) (rw (e, t) at h) in
          let same : zs' ≡ w ∷ rest = cc in (w, rest, more, same, inl (e, t))
    ]
    | inr e ↦
        let (rest, more, made) = >>=-eq-ok (update_zones name f zs) (λ r. ok (z ∷ r)) (rw e at h) in
        let same : zs' ≡ z ∷ rest = cc in (z, rest, more, same, inr (e, refl))
  ]

  pub update_zones_other :
      (raises : Raises f) (m : Bytes) (zs : List Zone) {zs' : List Zone}
      → bytes_eq m name ≡ false
      → update_zones name f zs ≡ ok zs'
      → zone_row m zs' ≡ zone_row m zs
  update_zones_other raises m [] {zs'} other h =
      let same : [] ≡ zs' = unfold update_zones in cc in rw (sym same) refl
  update_zones_other raises m (z ∷ zs) {zs'} other h =
      let (w, rest, more, made, head) = update_zones-cons z zs h in
      let ih = update_zones_other raises m zs other more in
      ap (zone_row m) made ∙ elim head [
        | inl (e, t) ↦
            let off : bytes_eq z.name m ≡ false = bytes_eq_apart z.name name m e other in
            let off' : bytes_eq w.name m ≡ false = rw ((raises z w t).0) off in
            zone_row_skip m w rest off' ∙ ih ∙ sym (zone_row_skip m z zs off)
        | inr (e, t) ↦ ap (λ v. zone_row m (v ∷ rest)) t ∙ zone_row_under m z rest zs ih
      ]

  pub update_zones_same :
      (raises : Raises f) (zs : List Zone) {zs' : List Zone} {z : Zone}
      → update_zones name f zs ≡ ok zs'
      → zone_row name zs ≡ some z
      → (z' : Zone) × (zone_row name zs' ≡ some z') × (less z.serial z'.serial ≡ true)
  update_zones_same raises [] h found = absurd (unfold zone_row in cc)
  update_zones_same raises (v ∷ zs) {zs'} {z} h found =
      let (w, rest, more, made, head) = update_zones-cons v zs h in
      elim head [
        | inl (e, t) ↦
            let same : some v ≡ some z = sym (zone_row_first name v zs e) ∙ found in
            let at_v : v ≡ z = cc in
            let (kept, higher) = raises v w t in
            let here' : bytes_eq w.name name ≡ true = rw kept e in
            (
              w,
              ap (zone_row name) made ∙ zone_row_first name w rest here',
              subst (λ z. less z.serial w.serial ≡ true) at_v higher,
            )
        | inr (e, t) ↦
            let (z', found', higher) =
              update_zones_same raises zs more (sym (zone_row_skip name v zs e) ∙ found) in
            let off : bytes_eq w.name name ≡ false = rw t e in
            (z', ap (zone_row name) made ∙ zone_row_skip name w rest off ∙ found', higher)
      ]
