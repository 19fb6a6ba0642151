-- ===== src/Handler/Rotation.antt =====
-- `append_set` adds the whole set, rotated by the handler's counter.
use native.Mathlib.Nat.{mod-eq_of_lt, mod-eq-sub-mod}
use shard_dns.Handler.{served, wire_of, append_rr, append_nth, set_loop, append_set}
use shard_dns.Prelude.Text.{GoRuntime}
use shard_dns.Wire.TypeNames.{type_code}
use shard_dns.Wire.{Rr}
use shard_dns.Zones.{Record}
use shard_dns.Prelude.{
  ℕ, zero, suc, ◌+◌, ◌-◌, ◌%◌, ◌<◌, true, false, some, List, [], ◌∷◌, ◌++◌, ◌≡◌, refl, ◌∙◌, ap, sym,
  arith, ltb, ◌==◌, if◌then◌else◌, inl, inr, Bool-cases, append_assoc, append-nil, Bytes, length,
  get_elem?, take, drop, length-take, length-drop, length-append, get_elem?-drop, get_elem?-take,
  get_elem?-append_left, get_elem?-append_right, get_elem?-some, drop_step, drop_all,
}

-- The list that starts at position `k` and wraps around.
abbrev pub rotated {ℓ} : {A : Type ℓ} → ℕ → List A → List A
rotated k xs = drop k xs ++ take k xs

length-rotated {ℓ} : {A : Type ℓ} (k : ℕ) (xs : List A) → length (rotated k xs) ≡ length xs
length-rotated k xs =
    omega (arith, length-append (drop k xs) (take k xs), length-drop k xs, length-take k xs)

get_elem?-rotated {ℓ} :
    {A : Type ℓ} (k i : ℕ) (xs : List A)
    → k < length xs
    → i < length xs
    → get_elem? (rotated k xs) i ≡ get_elem? xs ((k + i) % length xs)
get_elem?-rotated k i xs hk hi = elim (Bool-cases (ltb (k + i) (length xs))) [
  | inl e ↦
      let m : (k + i) % length xs ≡ k + i = mod-eq_of_lt (ground arith) in
      rw m (
        get_elem?-append_left (drop k xs) (take k xs) i (ground (arith, length-drop k xs))
        ∙ get_elem?-drop k i xs)
  | inr e ↦
      let n = length xs in
      let m : (k + i) % n ≡ k + i - n =
        mod-eq-sub-mod (ground arith) ∙ mod-eq_of_lt (ground arith) in
      rw m (
        get_elem?-append_right (drop k xs) (take k xs) i (ground (arith, length-drop k xs))
        ∙ (ap (get_elem? (take k xs)) (ground (arith, length-drop k xs))
            ∙ get_elem?-take k (k + i - n) xs (ground arith)))
]

module _ ⦃u : GoRuntime⦄ where
  -- What the records of a list add to a section, in order.
  pub served_all : Bytes → List Record → List Rr
  served_all owner [] = []
  served_all owner (r ∷ rs) = served owner r (type_code r.rtype) (wire_of r) ++ served_all owner rs

  append_nth-served :
      (section : List Rr) (owner : Bytes) (records : List Record) (k : ℕ) (x : Record)
      → get_elem? records k ≡ some x
      → append_nth section owner records k
        ≡ section ++ served owner x (type_code x.rtype) (wire_of x)
  unfolding append_nth append_rr
  append_nth-served section owner records k x e = rw (e, append_nth)

  served_all-drop :
      (owner : Bytes) (rot : List Record) (i : ℕ) (x : Record)
      → get_elem? rot i ≡ some x
      → served owner x (type_code x.rtype) (wire_of x) ++ served_all owner (drop (i + 1) rot)
        ≡ served_all owner (drop i rot)
  unfolding served_all
  served_all-drop owner rot i x here =
      let next : i + 1 ≡ suc i = omega arith in rw (drop_step rot i x here, next)

  set_loop-served_all :
      (left : ℕ) (section : List Rr) (owner : Bytes) (records : List Record) (start i : ℕ)
      → start < length records
      → i + left ≡ length records
      → set_loop left section owner records start i
        ≡ section ++ served_all owner (drop i (rotated start records))
  unfolding set_loop
  set_loop-served_all zero section owner records start i hs e =
      rw (drop_all i (rotated start records) (omega (arith, length-rotated start records)))
        (unfold served_all in rw append-nil)
  set_loop-served_all (suc left) section owner records start i hs e =
      let rot = rotated start records in
      let (x, here) = get_elem?-some rot i (omega (arith, length-rotated start records)) in
      let there = sym (get_elem?-rotated start i records hs (omega arith)) ∙ here in
      let k = (start + i) % length records in
      rw (append_nth-served section owner records k x there, set_loop)
        (set_loop-served_all left _ owner records start (i + 1) hs (omega arith)
          ∙ (append_assoc section (served owner x (type_code x.rtype) (wire_of x)) _
              ∙ ap (◌++◌ section) (served_all-drop owner rot i x here)))

  -- The position at which `append_set` starts, with the counter it is left with.
  pub start_of : ℕ → ℕ → ℕ
  start_of rotate n = if ltb 1 n then rotate % n else 0

  -- `append_set` appends what the records serve, every record once, in the order of the list from
  -- some position on and around. With two records or more the counter grows by one, modulo 2 ^ 32,
  -- and the position is the new counter modulo their number; otherwise the counter is kept.
  pub append_set-rotated :
      (rotate : ℕ) (section : List Rr) (owner : Bytes) (records : List Record)
      → ((append_set rotate section owner records).1
          ≡ section
            ++ served_all owner (
                rotated
                  (start_of (append_set rotate section owner records).0 (length records))
                  records))
        × ((append_set rotate section owner records).0
            ≡ (if ltb 1 (length records) then (rotate + 1) % 4294967296 else rotate))
  unfolding append_set start_of
  append_set-rotated rotate section owner [] = (unfold served_all in sym (append-nil section), refl)
  append_set-rotated rotate section owner (r ∷ []) =
      (set_loop-served_all 1 section owner (r ∷ []) 0 0 (omega arith) refl, refl)
  append_set-rotated rotate section owner (r ∷ s ∷ rs) =
      let records = r ∷ s ∷ rs in
      let n = length records in
      let two : ltb 1 n ≡ true = ground arith in
      let some_left : (n == 0) ≡ false = ground arith in
      rw (some_left, two)
        (
          set_loop-served_all n section owner records ((rotate + 1) % 4294967296 % n) 0
              (omega arith) (omega arith),
          refl,
        )
