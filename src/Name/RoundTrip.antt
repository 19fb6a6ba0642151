-- ===== src/Name/RoundTrip.antt =====
-- `parse_name` reads back what `pack_name` wrote, wherever the name stands in the buffer.
use shard_dns.Name.Pack.{
  IsLabel, wire, size, labels, IsPackable, pack_trimmed-eq-ok, size-split_loop, length-wire,
  wire-append,
}
use shard_dns.Name.{
  NameState, stop, go, add_label, name_step, parse_name_loop, start_at, parse_name, pack_name,
}
use shard_dns.Prelude.Bits.{every_under, every_under_at}
use shard_dns.Prelude.Text.{split_loop, split, trim_suffix}
use shard_dns.Prelude.{
  ℕ, zero, suc, ◌+◌, ◌≤◌, ◌<◌, bit_and, true, false, List, [], ◌∷◌, ◌++◌, ◌≡◌, refl, arith, ◌∙◌, ap,
  sym, inl, inr, Bool-cases, ◌==◌, ==_iff, append_assoc, append-nil, Bytes, codes, length,
  length-append, is_empty, get_or, slice, get_or-append_length, slice_middle, All, ok,
}

short_length_table : every_under (λ n. bit_and n 0xC0 == 0) 64 ≡ true
unfolding every_under
short_length_table = refl

short_length : (n : ℕ) → n < 64 → bit_and n 0xC0 ≡ 0
short_length n h =
    (==_iff _ 0).0 (every_under_at (λ n. bit_and n 0xC0 == 0) 64 n h short_length_table)

-- How the parser shows a name: the root is a dot.
abbrev pub shown : Bytes → Bytes
shown [] = codes "."
shown (c ∷ text) = c ∷ text

-- The text after the labels `ls`.
abbrev joined : Bytes → List Bytes → Bytes
joined t [] = t
joined t (l ∷ ls) = joined (add_label t l) ls

after_label : NameState → Bytes → NameState
after_label s l = record s {
  next = s.next + 1 + length l;
  text = add_label s.text l;
  name_len = s.name_len + (1 + length l);
}

label_round :
    (pre l w : Bytes) (s : NameState)
    → s.next ≡ length pre
    → IsLabel l
    → s.name_len + (1 + length l) ≤ 255
    → name_step (pre ++ (length l ∷ (l ++ w))) s ≡ go (after_label s l)
unfolding name_step after_label
label_round pre l w s at (lo, hi) fits =
    let n = length l in
    let buf = pre ++ (n ∷ (l ++ w)) in
    let here : get_or buf s.next 0 ≡ n = get_or-append_length pre n (l ++ w) 0 s.next at in
    let e : pre ++ (n ∷ (l ++ w)) ≡ (pre ++ (n ∷ [])) ++ (l ++ w) =
      sym (append_assoc pre (n ∷ []) (l ++ w)) in
    let text : slice (s.next + 1) (s.next + 1 + n) buf ≡ l = rw e (
      slice_middle (pre ++ (n ∷ [])) l w (s.next + 1) (s.next + 1 + n)
        (omega (arith, length-append pre (n ∷ []))) (omega (arith, length-append pre (n ∷ [])))) in
    ground (
      arith,
      here,
      text,
      short_length n (omega arith),
      length-append pre (n ∷ (l ++ w)),
      length-append l w,
    )

end_round :
    (pre rest : Bytes) (s : NameState)
    → s.next ≡ length pre
    → s.followed ≡ false
    → name_step (pre ++ (0 ∷ rest)) s ≡ stop (ok (shown s.text, length pre + 1))
unfolding name_step
end_round pre rest s at open_end =
    let here : get_or (pre ++ (0 ∷ rest)) s.next 0 ≡ 0 =
      get_or-append_length pre 0 rest 0 s.next at in
    ground (arith, here, length-append pre (0 ∷ rest))

run_labels :
    (ls : List Bytes) (fuel : ℕ) (pre rest : Bytes) (s : NameState)
    → s.next ≡ length pre
    → s.followed ≡ false
    → All IsLabel ls
    → s.name_len + size ls ≤ 255
    → size ls < fuel
    → parse_name_loop fuel (pre ++ wire ls rest) s
      ≡ ok (shown (joined s.text ls), length pre + size ls + 1)
unfolding parse_name_loop after_label
run_labels ls zero pre rest s at open_end are_labels fits enough = absurd (omega arith)
run_labels [] (suc fuel) pre rest s at open_end are_labels fits enough =
    rw (end_round pre rest s at open_end, parse_name_loop)
      (ap (λ n. ok (shown s.text, n)) (omega arith))
run_labels (l ∷ ls) (suc fuel) pre rest s at open_end (h, hs) fits enough =
    let round = label_round pre l (wire ls rest) s at h (omega arith) in
    let e : pre ++ (length l ∷ (l ++ wire ls rest)) ≡ (pre ++ (length l ∷ l)) ++ wire ls rest =
      sym (append_assoc pre (length l ∷ l) (wire ls rest)) in
    let n = length-append pre (length l ∷ l) in
    rw (round, parse_name_loop)
      (rw e (
        run_labels ls fuel (pre ++ (length l ∷ l)) rest (after_label s l) (omega arith) open_end hs
          (omega arith) (omega arith)
        ∙ ap (λ k. ok (shown (joined (add_label s.text l) ls), k)) (omega arith)))

add_label-cons : (t : Bytes) (c : ℕ) (w : Bytes) → is_empty (add_label t (c ∷ w)) ≡ false
unfolding add_label
add_label-cons [] c w = refl
add_label-cons (x ∷ t) c w = refl

add_label-add_label :
    (t w s : Bytes) → 1 ≤ length w → add_label (add_label t w) s ≡ add_label t (w ++ (b'.' ∷ s))
unfolding add_label
add_label-add_label t [] s h = absurd (omega arith)
add_label-add_label [] (c ∷ w) s h = simp append_assoc
add_label-add_label (x ∷ t) (c ∷ w) s h = simp append_assoc

-- Putting the dots back between the parts of a text gives the text.
joined-split_loop :
    (name t w : Bytes)
    → All IsLabel (split_loop b'.' w name)
    → joined t (split_loop b'.' w name) ≡ add_label t (w ++ name)
unfolding split_loop
joined-split_loop [] t w h = rw append-nil
joined-split_loop (c ∷ name) t w h = elim (Bool-cases (c == b'.')) [
  | inl e ↦
      let h' = rw e at h in
      rw e (
        joined-split_loop name (add_label t w) [] h'.1
        ∙ add_label-add_label t w name h'.0.0
        ∙ rw ((==_iff c b'.').0 e))
  | inr e ↦ rw e (joined-split_loop name t (w ++ (c ∷ [])) (rw e at h) ∙ rw append_assoc)
]

joined-labels : (name : Bytes) → All IsLabel (labels name) → joined [] (labels name) ≡ name
unfolding split
joined-labels [] h = refl
joined-labels (c ∷ name) h = joined-split_loop (c ∷ name) [] [] h ∙ unfold add_label in refl

pub size-labels : (name : Bytes) → size (labels name) ≤ length name + 1
unfolding split
size-labels [] = omega arith
size-labels (c ∷ name) = omega (arith, size-split_loop (c ∷ name) [])

-- A packable name on the wire is read back, whatever stands before and behind it.
pub parse_name-wire :
    (pre rest name : Bytes)
    → IsPackable name
    → parse_name (pre ++ wire (labels name) rest) (length pre)
      ≡ ok (shown name, length pre + size (labels name) + 1)
unfolding parse_name
parse_name-wire pre rest name h =
    let bound = size-labels name in
    let fits = h.fits in
    run_labels (labels name) 272 pre rest (start_at (length pre)) refl refl h.are_labels
      (omega arith) (omega arith)
    ∙ ap (λ t. ok (shown t, length pre + size (labels name) + 1)) (joined-labels name h.are_labels)

-- Whatever `pack_name` appends to a buffer, `parse_name` reads back at that place: it returns the
-- name without its trailing dot, and the end of the appended bytes; bytes behind them change
-- nothing.
pub parse_name-pack_name :
    (buf name rest : Bytes) {out : Bytes}
    → pack_name buf name ≡ ok out
    → parse_name (out ++ rest) (length buf) ≡ ok (shown (trim_suffix name (codes ".")), length out)
unfolding pack_name
parse_name-pack_name buf name rest {out} h =
    let bare = trim_suffix name (codes ".") in
    let (packable, e) = pack_trimmed-eq-ok buf bare h in
    let w = wire (labels bare) [] in
    let placed : out ++ rest ≡ buf ++ wire (labels bare) rest =
      rw e (append_assoc buf w rest ∙ ap (◌++◌ buf) (wire-append (labels bare) [] rest)) in
    let len : length buf + size (labels bare) + 1 ≡ length out =
      rw e (omega (arith, length-append buf w, length-wire (labels bare) [])) in
    rw placed (parse_name-wire buf rest bare packable ∙ ap (λ n. ok (shown bare, n)) len)
