-- ===== src/Name/Validate.antt =====
-- `ValidateName` of internal/dns/names.go, and what it guarantees to the packer.
use mathlib.Core.Path.{subst}
use shard_dns.Name.Pack.{IsLabel, IsPackable, wire, pack_trimmed_ok}
use shard_dns.Name.{pack_name, max_label_len}
use shard_dns.Prelude.Text.{split_loop, split, has_suffix, trim_suffix}
use shard_dns.Prelude.{
  ℕ, ◌+◌, ◌-◌, Bool, false, not, ◌&&◌, ◌||◌, List, [], ◌∷◌, ◌++◌, ◌≡◌, arith, ◌∙◌, ap, sym,
  >>-eq-ok, &&-eq-true, inl, inr, Bool-cases, ltb, leb, ◌==◌, if◌then◌else◌, Bytes, codes, bytes_eq,
  bytes_eq_iff, length, is_empty, get_or, all, take, take-append-drop, All, Outcome, ok, err, ◌>>◌,
}

pub data NameFault : Type 0 where
  is_blank longer_than_253 empty_label long_label wildcard_inside bad_character hyphen_edge :
      NameFault

unfoldable pub label_byte : ℕ → Bool
label_byte c = (leb b'a' c && leb c b'z') || (leb b'0' c && leb c b'9') || c == b'-' || c == b'_'

-- One round of the loop over the labels; `i` is the label's index.
unfoldable pub check_label : ℕ → Bytes → Outcome NameFault (Unit {0})
unfolding bytes_eq label_byte all
check_label i l =
    if is_empty l
    then err empty_label
    else if ltb max_label_len (length l)
    then err long_label
    else if bytes_eq l (codes "*")
    then (if i == 0 then ok tt else err wildcard_inside)
    else if not (all label_byte l)
    then err bad_character
    else if get_or l 0 0 == b'-' || get_or l (length l - 1) 0 == b'-'
    then err hyphen_edge
    else ok tt

unfoldable pub check_labels : ℕ → List Bytes → Outcome NameFault (Unit {0})
unfolding check_label
check_labels i [] = ok tt
check_labels i (l ∷ ls) = check_label i l >> check_labels (i + 1) ls

unfoldable pub validate_name : Bytes → Outcome NameFault (Unit {0})
unfolding check_labels split
validate_name name =
    if is_empty name
    then err is_blank
    else if ltb 253 (length name)
    then err longer_than_253
    else check_labels 0 (split b'.' name)

check_label-IsLabel : (i : ℕ) (l : Bytes) → check_label i l ≡ ok tt → IsLabel l
unfolding check_label
check_label-IsLabel i [] h = absurd (cc)
check_label-IsLabel i (c ∷ l) h = elim (Bool-cases (ltb 63 (length (c ∷ l)))) [
  | inl e ↦ absurd (let f = rw e at h in cc)
  | inr e ↦ ground arith
]

check_labels-IsLabel : (ls : List Bytes) (i : ℕ) → check_labels i ls ≡ ok tt → All IsLabel ls
unfolding check_labels
check_labels-IsLabel [] i h = tt
check_labels-IsLabel (l ∷ ls) i h =
    let (first, later) = >>-eq-ok (check_label i l) (check_labels (i + 1) ls) h in
    (check_label-IsLabel i l first, check_labels-IsLabel ls (i + 1) later)

split_loop-concat :
    (sep : ℕ) (s w : Bytes) → split_loop sep w (s ++ (sep ∷ [])) ≡ split_loop sep w s ++ ([] ∷ [])
unfolding split_loop
split_loop-concat sep [] w = ground arith
split_loop-concat sep (c ∷ s) w = elim (Bool-cases (c == sep)) [
  | inl e ↦ rw e (ap (◌∷◌ w) (split_loop-concat sep s []))
  | inr e ↦ rw e (split_loop-concat sep s (w ++ (c ∷ [])))
]

not-All_labels : (front : List Bytes) → ¬ All IsLabel (front ++ ([] ∷ []))
not-All_labels [] h = absurd (omega arith)
not-All_labels (l ∷ front) h = not-All_labels front h.1

-- A text whose parts are all labels does not end in a dot.
pub no_trailing_dot :
    (name : Bytes) → All IsLabel (split b'.' name) → has_suffix name (codes ".") ≡ false
unfolding has_suffix split
no_trailing_dot name h = elim (Bool-cases (has_suffix name (codes "."))) [
  | inl e ↦
      let (_, last) = &&-eq-true (leb 1 (length name)) _ e in
      let front = take (length name - 1) name in
      let dotted : front ++ codes "." ≡ name =
        ap (◌++◌ front) (sym ((bytes_eq_iff _ (codes ".")).0 last))
        ∙ take-append-drop (length name - 1) name in
      absurd (
        not-All_labels (split_loop b'.' [] front) (
          subst (All IsLabel) (split_loop-concat b'.' front [])
            (subst (λ n. All IsLabel (split_loop b'.' [] n)) (sym dotted) h)))
  | inr e ↦ e
]

pub validate_name-IsPackable : (name : Bytes) → validate_name name ≡ ok tt → IsPackable name
unfolding validate_name
validate_name-IsPackable [] h = absurd (cc)
validate_name-IsPackable (c ∷ name) h = elim (Bool-cases (ltb 253 (length (c ∷ name)))) [
  | inl e ↦ absurd (let f = rw e at h in cc)
  | inr e ↦ record {
    fits = ground arith;
    are_labels = check_labels-IsLabel (split b'.' (c ∷ name)) 0 (rw e at h);
  }
]

-- A name that the validation accepts can always be packed: behind any buffer, `pack_name` writes
-- the labels of the name, each behind its length, and the root byte.
pub pack_name-validate_name :
    (buf name : Bytes)
    → validate_name name ≡ ok tt
    → pack_name buf name ≡ ok (buf ++ wire (split b'.' name) [])
unfolding pack_name trim_suffix
pack_name-validate_name buf [] h =
    absurd (let f : validate_name [] ≡ ok tt = h in unfold validate_name in cc)
pack_name-validate_name buf (c ∷ name) h =
    let packable = validate_name-IsPackable (c ∷ name) h in
    let kept = no_trailing_dot (c ∷ name) packable.are_labels in
    rw kept (pack_trimmed_ok buf (c ∷ name) packable)
