-- ===== src/Node/Chain.antt =====
-- The names that `Invalidate` of internal/store/cached.go deletes, and the look-ups that a change of the
-- records can alter.
use shard_dns.Cached.{name_key, until_zone}
use shard_dns.Handler.Lookup.{enclosers}
use shard_dns.Handler.{in_zone}
use shard_dns.Store.Below.{has_suffix-eq-true}
use shard_dns.Store.Enclosing.{IsDecreasing, enclosers-IsDecreasing, in_list-Shorter, in_list-chain}
use shard_dns.Store.Lookup.{affected}
use shard_dns.Store.ZoneTable.{in_list}
use shard_dns.Prelude.{
  ◌≤◌, true, List, [], ◌∷◌, ◌≡◌, ◌≢◌, refl, sym, ap, ◌∙◌, arith, Bytes, bytes_eq, bytes_eq_iff,
  length, length-append, All, Bool-cases, inl, inr, &&-eq-true,
}

-- The deletion goes from the name up to the zone's own.
in_list-until_zone :
    (zone n : Bytes) (ns : List Bytes)
    → IsDecreasing ns
    → length zone ≤ length n
    → in_list n ns ≡ true
    → in_list n (until_zone zone ns) ≡ true
unfolding in_list until_zone
in_list-until_zone zone n [] d fits h = cc
in_list-until_zone zone n (m ∷ ns) d fits h = elim (Bool-cases (bytes_eq n m)) [
  | inl t ↦ rw t refl
  | inr t ↦ rw t (elim (Bool-cases (bytes_eq m zone)) [
    | inl z ↦
        let same = (bytes_eq_iff m zone).0 z in
        let less = in_list-Shorter m n ns d.0 (rw t at h) in
        absurd (let same_length = ap length same in omega arith)
    | inr z ↦ rw z (in_list-until_zone zone n ns d.1 fits (rw t at h))
  ])
]

in_zone-length : (n zone : Bytes) → in_zone n zone ≡ true → length zone ≤ length n
unfolding in_zone
in_zone-length n zone h = elim (Bool-cases (bytes_eq n zone)) [
  | inl t ↦ rw ((bytes_eq_iff n zone).0 t) (omega arith)
  | inr t ↦
      let (front, e) = has_suffix-eq-true n (b'.' ∷ zone) (rw t at h) in
      rw e (omega (arith, length-append front (b'.' ∷ zone)))
]

-- A name of the zone, which is the changed name or stands above it, is on the chain that is deleted.
pub chain-until_zone :
    (zone name n : Bytes)
    → in_zone name n ≡ true
    → in_zone n zone ≡ true
    → in_list n (until_zone zone (name ∷ enclosers name)) ≡ true
unfolding in_zone
chain-until_zone zone name n above inside =
    in_list-until_zone zone n (name ∷ enclosers name) (enclosers-IsDecreasing name)
      (in_zone-length n zone inside) (in_list-chain name n ∙ above)

-- A name of the zone whose look-up a change can alter is on the chain that is deleted.
pub affected-in_list :
    (zone name z n : Bytes)
    → affected zone name z n ≡ true
    → in_zone n z ≡ true
    → (zone ≡ z) × (in_list n (until_zone zone (name ∷ enclosers name)) ≡ true)
unfolding affected in_zone
affected-in_list zone name z n h inside =
    let (here, chain) = &&-eq-true (bytes_eq zone z) _ h in
    let same = (bytes_eq_iff zone z).0 here in
    (same, chain-until_zone zone name n chain (rw same inside))

-- The zone part of a key ends at the first zero byte.
abbrev pub HasNoZero : Bytes → Type 0
HasNoZero zone = All (λ c. c ≢ 0) zone

pub name_key-injective :
    (z z' n n' : Bytes)
    → HasNoZero z
    → HasNoZero z'
    → name_key z n ≡ name_key z' n'
    → (z ≡ z') × (n ≡ n')
unfolding name_key
name_key-injective [] [] n n' h h' e = (refl, cc)
name_key-injective [] (c ∷ z') n n' h h' e = absurd (let first : 0 ≡ c = cc in h'.0 (sym first))
name_key-injective (c ∷ z) [] n n' h h' e = absurd (let first : c ≡ 0 = cc in h.0 first)
name_key-injective (c ∷ z) (d ∷ z') n n' h h' e =
    let first : c ≡ d = cc in
    let (a, b) = name_key-injective z z' n n' h.1 h'.1 cc in
    (ap (◌∷◌ c) a ∙ ap (λ x. x ∷ z') first, b)
