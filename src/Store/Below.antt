-- ===== src/Store/Below.antt =====
-- The range of `name_rev` that `LookupName` of internal/store/record.go asks for, and the names below a
-- name.
use shard_dns.Prelude.Text.{has_suffix, has_prefix}
use shard_dns.Store.Names.{reverse_name-reverse_name, reverse_name-append}
use shard_dns.Store.RecordTable.{any_row, bytes_lt, in_range, has_below}
use shard_dns.Store.{Row, reverse_name}
use shard_dns.Prelude.{
  ◌-◌, Bool, true, false, ◌&&◌, leb, ◌==◌, ==_iff, List, [], ◌∷◌, ◌++◌, ◌≡◌, refl, sym, ap, ◌∙◌,
  arith, append_assoc, Bytes, bytes_eq, bytes_eq_iff, bytes_eq_refl, codes, length, take, drop, All,
  &&-eq-true, take-append-drop, length-append, drop_pre, le→leb, if◌then◌else◌,
}

-- The range of the texts that begin with `p` and a dot.
in_range-has_prefix :
    (p b : Bytes) → in_range (p ++ codes ".") (p ++ codes "/") b ≡ has_prefix b (p ++ codes ".")
unfolding in_range bytes_lt has_prefix
in_range-has_prefix [] [] = refl
in_range-has_prefix [] (x ∷ b) = ground arith
in_range-has_prefix (c ∷ p) [] = refl
in_range-has_prefix (c ∷ p) (x ∷ b) = ground (arith, in_range-has_prefix p b)

has_prefix-eq-true : (s p : Bytes) → has_prefix s p ≡ true → (rest : Bytes) × (s ≡ p ++ rest)
unfolding has_prefix
has_prefix-eq-true s [] h = (s, refl)
has_prefix-eq-true [] (q ∷ p) h = cc
has_prefix-eq-true (c ∷ s) (q ∷ p) h =
    let (same, more) = &&-eq-true (c == q) (has_prefix s p) h in
    let (rest, e) = has_prefix-eq-true s p more in
    let first = (==_iff c q).0 same in (rest, rw (first, e) refl)

has_prefix-append : (p rest : Bytes) → has_prefix (p ++ rest) p ≡ true
unfolding has_prefix
has_prefix-append [] rest = refl
has_prefix-append (c ∷ p) rest = ground (arith, has_prefix-append p rest)

pub has_suffix-eq-true : (s t : Bytes) → has_suffix s t ≡ true → (front : Bytes) × (s ≡ front ++ t)
unfolding has_suffix
has_suffix-eq-true s t h =
    let (fits, same) = &&-eq-true (leb (length t) (length s)) _ h in
    let n = length s - length t in
    (
      take n s,
      sym (take-append-drop n s) ∙ ap (◌++◌ (take n s)) ((bytes_eq_iff (drop n s) t).0 same),
    )

pub has_suffix-append : (front t : Bytes) → has_suffix (front ++ t) t ≡ true
unfolding has_suffix
has_suffix-append front t =
    let n = length-append front t in
    let at : drop (length (front ++ t) - length t) (front ++ t) ≡ t =
      drop_pre front t (length (front ++ t) - length t) (omega (arith, n)) in
    rw (le→leb (length t) (length (front ++ t)) (omega (arith, n)), at) (bytes_eq_refl t)

Bool-eq : (a b : Bool) → (a ≡ true → b ≡ true) → (b ≡ true → a ≡ true) → a ≡ b
Bool-eq true b f g = sym (f refl)
Bool-eq false true f g = g refl
Bool-eq false false f g = refl

-- A name stands below another exactly when its reverse begins with the other's and a dot.
has_prefix-reverse_name :
    (name m : Bytes)
    → has_prefix (reverse_name m) (reverse_name name ++ codes ".") ≡ has_suffix m (b'.' ∷ name)
has_prefix-reverse_name name m =
    Bool-eq _ _
      (λ h.
        let (rest, e) = has_prefix-eq-true (reverse_name m) (reverse_name name ++ codes ".") h in
        let back : m ≡ reverse_name rest ++ b'.' ∷ name =
          sym (reverse_name-reverse_name m)
          ∙ ap reverse_name (e ∙ append_assoc (reverse_name name) (codes ".") rest)
          ∙ reverse_name-append (reverse_name name) rest
          ∙ ap (λ t. reverse_name rest ++ b'.' ∷ t) (reverse_name-reverse_name name) in
        rw back (has_suffix-append (reverse_name rest) (b'.' ∷ name)))
      (λ h.
        let (front, e) = has_suffix-eq-true m (b'.' ∷ name) h in
        let turned : reverse_name m ≡ (reverse_name name ++ codes ".") ++ reverse_name front =
          ap reverse_name e
          ∙ reverse_name-append front name
          ∙ sym (append_assoc (reverse_name name) (codes ".") (reverse_name front)) in
        rw turned (has_prefix-append (reverse_name name ++ codes ".") (reverse_name front)))

-- The rows keep the reverses of their names.
abbrev pub HasReverses : List Row → Type 0
HasReverses rows = All (λ r. r.name_rev ≡ reverse_name r.name) rows

-- On rows that keep the reverses of their names, `has_below` answers whether some row of the zone
-- has a name that ends in a dot and the given name.
pub has_below_lem :
    (zone name : Bytes) (rows : List Row)
    → HasReverses rows
    → has_below zone name rows
      ≡ any_row (λ r. bytes_eq r.zone zone && has_suffix r.name (b'.' ∷ name)) rows
unfolding has_below any_row
has_below_lem zone name [] h = refl
has_below_lem zone name (r ∷ rows) h =
    let same : in_range (reverse_name name ++ codes ".") (reverse_name name ++ codes "/") r.name_rev
        ≡ has_suffix r.name (b'.' ∷ name) =
      in_range-has_prefix (reverse_name name) r.name_rev
      ∙ rw h.0 (has_prefix-reverse_name name r.name) in
    rw same (
      ap (λ t. if bytes_eq r.zone zone && has_suffix r.name (b'.' ∷ name) then true else t)
        (has_below_lem zone name rows h.1))
