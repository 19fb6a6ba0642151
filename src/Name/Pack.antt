-- ===== src/Name/Pack.antt =====
-- `pack_name` in terms of the labels of the name: what it writes, and when it fails.
use shard_dns.Name.{PackError, append_label, pack_loop, pack_trimmed}
use mathlib.Core.Path.{fun_ext}
use shard_dns.Prelude.Text.{split_loop, split}
use shard_dns.Prelude.{
  ℕ, ◌+◌, ◌≤◌, false, List, [], ◌∷◌, ◌++◌, ◌≡◌, refl, arith, ◌∙◌, ap, sym, inl, inr, Bool-cases,
  ◌==◌, append_assoc, ltb, Bytes, length, length-append, All, Outcome, ok, ◌>>=◌, >>=-eq-ok,
}

-- A label has 1 to 63 bytes.
abbrev pub IsLabel : Bytes → Type 0
IsLabel l = (1 ≤ length l) × (length l ≤ 63)

-- The labels on the wire, with `rest` behind the root byte.
abbrev pub wire : List Bytes → Bytes → Bytes
wire [] rest = 0 ∷ rest
wire (l ∷ ls) rest = length l ∷ (l ++ wire ls rest)

-- The bytes of the labels on the wire, without the root byte.
abbrev pub size : List Bytes → ℕ
size [] = 0
size (l ∷ ls) = 1 + length l + size ls

pack_labels : Bytes → List Bytes → Outcome PackError Bytes
pack_labels buf [] = ok (buf ++ (0 ∷ []))
pack_labels buf (l ∷ ls) = append_label buf l >>= λ out. pack_labels out ls

-- The loop of `PackName` writes the parts between the dots one after the other.
pack_loop-split :
    (name buf label : Bytes)
    → pack_loop buf label name ≡ pack_labels buf (split_loop b'.' label name)
unfolding pack_loop split_loop pack_labels
pack_loop-split [] buf label = refl
pack_loop-split (c ∷ name) buf label = elim (Bool-cases (c == b'.')) [
  | inl e ↦
      rw e (ap (λ k. append_label buf label >>= k) (fun_ext λ out. pack_loop-split name out []))
  | inr e ↦ rw e (pack_loop-split name buf (label ++ (c ∷ [])))
]

append_label-eq-ok :
    (buf label : Bytes) {out : Bytes}
    → append_label buf label ≡ ok out
    → IsLabel label × (out ≡ buf ++ (length label ∷ label))
unfolding append_label
append_label-eq-ok buf label h = ground arith

pack_labels-eq-ok :
    (ls : List Bytes) (buf : Bytes) {out : Bytes}
    → pack_labels buf ls ≡ ok out
    → All IsLabel ls × (out ≡ buf ++ wire ls [])
unfolding pack_labels
pack_labels-eq-ok [] buf h = (tt, cc)
pack_labels-eq-ok (l ∷ ls) buf h =
    let (mid, first, later) = >>=-eq-ok (append_label buf l) (λ out. pack_labels out ls) h in
    let (is_label, e) = append_label-eq-ok buf l first in
    let (are_labels, f) = pack_labels-eq-ok ls mid later in
    ((is_label, are_labels), f ∙ rw e (append_assoc buf (length l ∷ l) (wire ls [])))

append_label_ok :
    (buf label : Bytes)
    → IsLabel label
    → append_label buf label ≡ ok (buf ++ (length label ∷ label))
unfolding append_label
append_label_ok buf label h = ground arith

pack_labels_ok :
    (ls : List Bytes) (buf : Bytes) → All IsLabel ls → pack_labels buf ls ≡ ok (buf ++ wire ls [])
unfolding pack_labels
pack_labels_ok [] buf h = refl
pack_labels_ok (l ∷ ls) buf (h, hs) = rw (append_label_ok buf l h) (
    pack_labels_ok ls (buf ++ (length l ∷ l)) hs
    ∙ ap ok (append_assoc buf (length l ∷ l) (wire ls [])))

-- The sizes of the parts add up to the text's.
pub size-split_loop :
    (name label : Bytes) → size (split_loop b'.' label name) ≡ length label + length name + 1
unfolding split_loop
size-split_loop [] label = omega arith
size-split_loop (c ∷ name) label = ground (
  arith,
  size-split_loop name [],
  size-split_loop name (label ++ (c ∷ [])),
  length-append label (c ∷ []),
)

pub length-wire :
    (ls : List Bytes) (rest : Bytes) → length (wire ls rest) ≡ size ls + 1 + length rest
length-wire [] rest = omega arith
length-wire (l ∷ ls) rest = omega (arith, length-wire ls rest, length-append l (wire ls rest))

pub wire-append : (ls : List Bytes) (a b : Bytes) → wire ls a ++ b ≡ wire ls (a ++ b)
wire-append [] a b = refl
wire-append (l ∷ ls) a b =
    ap (◌∷◌ (length l)) (append_assoc l (wire ls a) b ∙ ap (◌++◌ l) (wire-append ls a b))

-- The labels of a name with no trailing dot; the root has none.
abbrev pub labels : Bytes → List Bytes
labels [] = []
labels (c ∷ name) = split b'.' (c ∷ name)

-- A name that goes on the wire: at most 253 bytes, each label with 1 to 63 bytes.
pub record IsPackable (name : Bytes) : Type 0 where
  pub fits : length name + 2 ≤ 255
  pub are_labels : All IsLabel (labels name)

pub pack_trimmed-eq-ok :
    (buf name : Bytes) {out : Bytes}
    → pack_trimmed buf name ≡ ok out
    → IsPackable name × (out ≡ buf ++ wire (labels name) [])
unfolding pack_trimmed split
pack_trimmed-eq-ok buf [] h = (record { fits = omega arith; are_labels = tt }, cc)
pack_trimmed-eq-ok buf (c ∷ name) h = elim (Bool-cases (ltb 255 (length (c ∷ name) + 2))) [
  | inl e ↦ absurd (let f = rw e at h in cc)
  | inr e ↦
      let packed =
        pack_labels-eq-ok (split_loop b'.' [] (c ∷ name)) buf
          (sym (pack_loop-split (c ∷ name) buf []) ∙ (rw e at h)) in
      (record { fits = ground arith; are_labels = packed.0 }, packed.1)
]

pub pack_trimmed_ok :
    (buf name : Bytes) → IsPackable name → pack_trimmed buf name ≡ ok (buf ++ wire (labels name) [])
unfolding pack_trimmed split
pack_trimmed_ok buf [] h = refl
pack_trimmed_ok buf (c ∷ name) h =
    let e : ltb 255 (length (c ∷ name) + 2) ≡ false = ground (arith, h.fits) in
    rw e (
      pack_loop-split (c ∷ name) buf []
      ∙ pack_labels_ok (split_loop b'.' [] (c ∷ name)) buf h.are_labels)
