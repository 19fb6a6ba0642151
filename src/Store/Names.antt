-- ===== src/Store/Names.antt =====
-- `reverseName` of internal/store/store.go: labels turned round, alone and in a longer name.
use shard_dns.Prelude.Text.{split, split_loop, join}
use mathlib.Core.List.{reverse, reverse-append, reverse-reverse, reverse-cons}
use shard_dns.Store.{reverse_name}
use shard_dns.Prelude.{
  false, ◌==◌, ==_iff, List, [], ◌∷◌, ◌++◌, ◌≡◌, refl, sym, ap, ◌∙◌, append-nil, append_assoc,
  Bytes, codes, All, All-append, Bool-cases, inl, inr,
}

module _ {ℓ} {A : Type ℓ} where
  pub All-reverse {κ} : (P : A → Type κ) (xs : List A) → All P xs → All P (reverse xs)
  All-reverse P [] h = h
  All-reverse P (x ∷ xs) h =
      rw (reverse-cons x xs) (All-append P (reverse xs) (x ∷ []) (All-reverse P xs h.1) (h.0, tt))

  -- A list that is not empty has a reverse that is not.
  reverse_nonempty : (x : A) (xs : List A) → (y : A) × (ys : List A) × (reverse (x ∷ xs) ≡ y ∷ ys)
  reverse_nonempty x xs = rw (reverse-cons x xs) (front (reverse xs))
    where
      front : (zs : List A) → (y : A) × (ys : List A) × (zs ++ (x ∷ []) ≡ y ∷ ys)
      front [] = (x, [], refl)
      front (z ∷ zs) = (z, zs ++ (x ∷ []), refl)

abbrev HasNoDot : Bytes → Type 0
HasNoDot w = All (λ c. (c == b'.') ≡ false) w

split_loop-append_dot :
    (a b acc : Bytes)
    → split_loop b'.' acc (a ++ b'.' ∷ b) ≡ split_loop b'.' acc a ++ split_loop b'.' [] b
unfolding split_loop
split_loop-append_dot [] b acc = refl
split_loop-append_dot (c ∷ a) b acc = elim (Bool-cases (c == b'.')) [
  | inl e ↦ rw e (ap (◌∷◌ acc) (split_loop-append_dot a b []))
  | inr e ↦ rw e (split_loop-append_dot a b (acc ++ (c ∷ [])))
]

split_loop-HasNoDot : (s acc : Bytes) → HasNoDot acc → All HasNoDot (split_loop b'.' acc s)
unfolding split_loop
split_loop-HasNoDot [] acc h = (h, tt)
split_loop-HasNoDot (c ∷ s) acc h = elim (Bool-cases (c == b'.')) [
  | inl e ↦ rw e (h, split_loop-HasNoDot s [] tt)
  | inr e ↦ rw e (split_loop-HasNoDot s (acc ++ (c ∷ [])) (All-append _ acc (c ∷ []) h (e, tt)))
]

split_loop_plain : (w acc : Bytes) → HasNoDot w → split_loop b'.' acc w ≡ (acc ++ w) ∷ []
unfolding split_loop
split_loop_plain [] acc h = ap (λ t. t ∷ []) (sym (append-nil acc))
split_loop_plain (c ∷ w) acc h =
    rw h.0
      (split_loop_plain w (acc ++ (c ∷ [])) h.1 ∙ ap (λ t. t ∷ []) (append_assoc acc (c ∷ []) w))

split_loop-cons :
    (s acc : Bytes) → (l : Bytes) × (ls : List Bytes) × (split_loop b'.' acc s ≡ l ∷ ls)
unfolding split_loop
split_loop-cons [] acc = (acc, [], refl)
split_loop-cons (c ∷ s) acc = elim (Bool-cases (c == b'.')) [
  | inl e ↦ rw e (acc, split_loop b'.' [] s, refl)
  | inr e ↦ rw e (split_loop-cons s (acc ++ (c ∷ [])))
]

join-split_loop_behind :
    (acc s : Bytes)
    → join (codes ".") (acc ∷ split_loop b'.' [] s)
      ≡ acc ++ b'.' ∷ join (codes ".") (split_loop b'.' [] s)
join-split_loop_behind acc s = let (l, ls, f) = split_loop-cons s [] in rw f (unfold join in refl)

join-split_loop : (s acc : Bytes) → join (codes ".") (split_loop b'.' acc s) ≡ acc ++ s
unfolding split_loop
join-split_loop [] acc = unfold join in sym (append-nil acc)
join-split_loop (c ∷ s) acc = elim (Bool-cases (c == b'.')) [
  | inl e ↦
      rw (e, (==_iff c b'.').0 e)
        (join-split_loop_behind acc s ∙ ap (λ t. acc ++ b'.' ∷ t) (join-split_loop s []))
  | inr e ↦ rw e (join-split_loop s (acc ++ (c ∷ [])) ∙ append_assoc acc (c ∷ []) s)
]

split_loop-join :
    (l : Bytes) (ls : List Bytes)
    → All HasNoDot (l ∷ ls)
    → split_loop b'.' [] (join (codes ".") (l ∷ ls)) ≡ l ∷ ls
unfolding join
split_loop-join l [] h = split_loop_plain l [] h.0
split_loop-join l (m ∷ ls) h =
    split_loop-append_dot l (join (codes ".") (m ∷ ls)) []
    ∙ rw (split_loop_plain l [] h.0) (ap (◌∷◌ l) (split_loop-join m ls h.1))

join-append :
    (x : Bytes) (xs : List Bytes) (y : Bytes) (ys : List Bytes)
    → join (codes ".") ((x ∷ xs) ++ (y ∷ ys))
      ≡ join (codes ".") (x ∷ xs) ++ b'.' ∷ join (codes ".") (y ∷ ys)
unfolding join
join-append x [] y ys = refl
join-append x (z ∷ xs) y ys =
    ap (λ t. x ++ b'.' ∷ t) (join-append z xs y ys)
    ∙ sym (append_assoc x (b'.' ∷ join (codes ".") (z ∷ xs)) (b'.' ∷ join (codes ".") (y ∷ ys)))

-- Reversing a name twice gives the name.
pub reverse_name-reverse_name : (name : Bytes) → reverse_name (reverse_name name) ≡ name
unfolding reverse_name split
reverse_name-reverse_name name =
    let ls = split_loop b'.' [] name in
    let (l, rest, f) = split_loop-cons name [] in
    let (x, xs, g) = reverse_nonempty l rest in
    let turned : reverse ls ≡ x ∷ xs = rw f g in
    let plain = All-reverse HasNoDot ls (split_loop-HasNoDot name [] tt) in
    let back : split_loop b'.' [] (join (codes ".") (reverse ls)) ≡ reverse ls =
      rw turned (split_loop-join x xs (rw turned at plain)) in
    ap (λ t. join (codes ".") (reverse t)) back
    ∙ ap (join (codes ".")) (reverse-reverse ls)
    ∙ join-split_loop name []

-- The reverse of a name below another begins with that name's reverse and a dot.
pub reverse_name-append :
    (a b : Bytes) → reverse_name (a ++ b'.' ∷ b) ≡ reverse_name b ++ b'.' ∷ reverse_name a
unfolding reverse_name split
reverse_name-append a b =
    let (la, ra, fa) = split_loop-cons a [] in
    let (lb, rb, fb) = split_loop-cons b [] in
    let (xa, ya, ga) = reverse_nonempty la ra in
    let (xb, yb, gb) = reverse_nonempty lb rb in
    let ta : reverse (split_loop b'.' [] a) ≡ xa ∷ ya = rw fa ga in
    let tb : reverse (split_loop b'.' [] b) ≡ xb ∷ yb = rw fb gb in
    ap (λ t. join (codes ".") (reverse t)) (split_loop-append_dot a b [])
    ∙ ap (join (codes ".")) (reverse-append (split_loop b'.' [] a) (split_loop b'.' [] b))
    ∙ rw (ta, tb) (join-append xb yb xa ya)
