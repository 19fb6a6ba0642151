-- ===== src/Service/Plain.antt =====
-- The bytes of a name that `ValidateName` of internal/dns/names.go accepts, under the normal form of
-- internal/store/store.go.
use mathlib.Core.List.{reverse, reverse-reverse}
use mathlib.Core.Path.{subst}
use shard_dns.Store.Names.{All-reverse}
use shard_dns.Name.Validate.{
  label_byte, check_label, check_labels, validate_name, validate_name-IsPackable, no_trailing_dot,
}
use shard_dns.Prelude.Text.{
  GoRuntime, is_ascii, lower_byte, is_space, trim_left, trim_ascii, to_lower, trim_space,
  trim_suffix, has_suffix, split, split_loop,
}
use shard_dns.Store.{normalize_zone}
use shard_dns.Prelude.{
  ℕ, ◌+◌, Bool, true, false, ◌||◌, ltb, ◌==◌, ==_iff, List, [], ◌∷◌, ◌≡◌, refl, sym, arith, Bytes,
  bytes_eq, bytes_eq_iff, codes, length, map, all, All, Bool-cases, inl, inr, ◌++◌, ok, >>-eq-ok,
  &&-eq-true,
}

-- The bytes of a validated name: lower-case letters, digits, `-`, `_`, `*` and the dot.
abbrev pub is_plain : ℕ → Bool
is_plain c = label_byte c || (c == b'*' || c == b'.')

abbrev pub IsPlain : Bytes → Type 0
IsPlain s = All (λ c. is_plain c ≡ true) s

pub All-append_split : (P : ℕ → Type 0) (xs ys : Bytes) → All P (xs ++ ys) → All P xs × All P ys
All-append_split P [] ys h = (tt, h)
All-append_split P (x ∷ xs) ys h = let (a, b) = All-append_split P xs ys h.1 in ((h.0, a), b)

all-label_byte-IsPlain : (l : Bytes) → all label_byte l ≡ true → IsPlain l
unfolding all
all-label_byte-IsPlain [] h = tt
all-label_byte-IsPlain (c ∷ l) h =
    let (a, b) = &&-eq-true (label_byte c) (all label_byte l) h in
    (rw a refl, all-label_byte-IsPlain l b)

star-IsPlain : IsPlain (codes "*")
unfolding label_byte
star-IsPlain = (refl, tt)

check_label-IsPlain : (i : ℕ) (l : Bytes) → check_label i l ≡ ok tt → IsPlain l
unfolding check_label
check_label-IsPlain i [] h = tt
check_label-IsPlain i (c ∷ l) h = elim (Bool-cases (ltb 63 (length (c ∷ l)))) [
  | inl e ↦ absurd (let f = rw e at h in cc)
  | inr e ↦ elim (Bool-cases (bytes_eq (c ∷ l) (codes "*"))) [
    | inl t ↦ subst IsPlain (sym ((bytes_eq_iff (c ∷ l) (codes "*")).0 t)) star-IsPlain
    | inr t ↦ elim (Bool-cases (all label_byte (c ∷ l))) [
      | inl a ↦ all-label_byte-IsPlain (c ∷ l) a
      | inr a ↦ absurd (let f = rw (e, t, a) at h in cc)
    ]
  ]
]

check_labels-IsPlain : (i : ℕ) (ls : List Bytes) → check_labels i ls ≡ ok tt → All IsPlain ls
unfolding check_labels
check_labels-IsPlain i [] h = tt
check_labels-IsPlain i (l ∷ ls) h =
    let (first, later) = >>-eq-ok (check_label i l) (check_labels (i + 1) ls) h in
    (check_label-IsPlain i l first, check_labels-IsPlain (i + 1) ls later)

split_loop-IsPlain : (s acc : Bytes) → All IsPlain (split_loop b'.' acc s) → IsPlain acc × IsPlain s
unfolding split_loop
split_loop-IsPlain [] acc h = (h.0, tt)
split_loop-IsPlain (c ∷ s) acc h = elim (Bool-cases (c == b'.')) [
  | inl e ↦
      let f = rw e at h in
      let dot : is_plain c ≡ true = rw ((==_iff c b'.').0 e) (unfold label_byte in refl) in
      (f.0, (dot, (split_loop-IsPlain s [] f.1).1))
  | inr e ↦
      let (a, b) = split_loop-IsPlain s (acc ++ (c ∷ [])) (rw e at h) in
      let (front, last) = All-append_split (λ c. is_plain c ≡ true) acc (c ∷ []) a in
      (front, (last.0, b))
]

pub validate_name-IsPlain : (name : Bytes) → validate_name name ≡ ok tt → IsPlain name
unfolding validate_name split
validate_name-IsPlain [] h = tt
validate_name-IsPlain (c ∷ name) h = elim (Bool-cases (ltb 253 (length (c ∷ name)))) [
  | inl e ↦ absurd (let f = rw e at h in cc)
  | inr e ↦
      (split_loop-IsPlain (c ∷ name) []
        (check_labels-IsPlain 0 (split_loop b'.' [] (c ∷ name)) (rw e at h))).1
]

plain_byte :
    (c : ℕ) → is_plain c ≡ true → (ltb c 128 ≡ true) × (is_space c ≡ false) × (lower_byte c ≡ c)
unfolding label_byte is_space lower_byte
plain_byte c h = ground arith

is_ascii-IsPlain : (s : Bytes) → IsPlain s → is_ascii s ≡ true
unfolding is_ascii all
is_ascii-IsPlain [] h = refl
is_ascii-IsPlain (c ∷ s) h =
    let (ascii, a, b) = plain_byte c h.0 in rw (ascii, is_ascii-IsPlain s h.1) refl

map-lower_byte : (s : Bytes) → IsPlain s → map lower_byte s ≡ s
map-lower_byte [] h = refl
map-lower_byte (c ∷ s) h =
    let (a, b, same) = plain_byte c h.0 in rw (same, map-lower_byte s h.1) refl

trim_left-IsPlain : (s : Bytes) → IsPlain s → trim_left s ≡ s
unfolding trim_left
trim_left-IsPlain [] h = refl
trim_left-IsPlain (c ∷ s) h = let (a, no_space, b) = plain_byte c h.0 in rw no_space refl

trim_ascii-IsPlain : (s : Bytes) → IsPlain s → trim_ascii s ≡ s
unfolding trim_ascii
trim_ascii-IsPlain s h =
    rw
      (
        trim_left-IsPlain s h,
        trim_left-IsPlain (reverse s) (All-reverse (λ c. is_plain c ≡ true) s h),
      )
      (reverse-reverse s)

pub normalize_zone-IsPlain :
    ⦃u : GoRuntime⦄
    → (s : Bytes) → IsPlain s
    → has_suffix s (codes ".") ≡ false
    → normalize_zone s ≡ s
unfolding normalize_zone to_lower trim_space trim_suffix
normalize_zone-IsPlain s h dot =
    let ascii = is_ascii-IsPlain s h in
    rw (ascii, trim_ascii-IsPlain s h, ascii, map-lower_byte s h, dot) refl

pub validate_name_dot :
    (name : Bytes) → validate_name name ≡ ok tt → has_suffix name (codes ".") ≡ false
unfolding validate_name
validate_name_dot [] h = absurd cc
validate_name_dot (c ∷ name) h =
    no_trailing_dot (c ∷ name) (validate_name-IsPackable (c ∷ name) h).are_labels
