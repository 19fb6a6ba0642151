-- ===== src/Cache/Shard.antt =====
-- The map of a shard: what `find` sees after `put` and `erase`, and how the number of keys moves.
use shard_dns.Cache.{Entry, Shard, find, has, put, erase}
use shard_dns.Prelude.{
  suc, ◌≤◌, Bool, true, false, none, some, [], ◌∷◌, ◌≡◌, ◌≢◌, ◌∙◌, refl, ap, arith, Bytes, bytes_eq,
  bytes_eq_refl, bytes_eq_iff, length, select, if◌then◌else◌, Bool-cases, inl, inr, ◌⊎◌,
}

-- Two keys are the same, or the test tells them apart.
pub key-cases : (a b : Bytes) → (a ≡ b) ⊎ (bytes_eq a b ≡ false)
key-cases a b = elim (Bool-cases (bytes_eq a b)) [
  | inl e ↦ inl ((bytes_eq_iff a b).0 e)
  | inr e ↦ inr e
]

pub bytes_eq_other : (a b : Bytes) → a ≢ b → bytes_eq a b ≡ false
bytes_eq_other a b n = elim (key-cases a b) [ inl e ↦ absurd (n e) | inr e ↦ e ]

module _ {V : Type 0} where
  pub find-put : (key : Bytes) (e : Entry V) (m : Shard V) → find key (put key e m) ≡ some e
  unfolding find put
  find-put key e [] = rw (bytes_eq_refl key) refl
  find-put key e (b ∷ m) = elim (Bool-cases (bytes_eq b.0 key)) [
    | inl h ↦ rw (h, bytes_eq_refl key) refl
    | inr h ↦ rw (h, h) (find-put key e m)
  ]

  pub find-erase : (key : Bytes) (m : Shard V) → find key (erase key m) ≡ none
  unfolding find erase select
  find-erase key [] = refl
  find-erase key (b ∷ m) = elim (Bool-cases (bytes_eq b.0 key)) [
    | inl h ↦ rw h (find-erase key m)
    | inr h ↦ rw (h, h) (find-erase key m)
  ]

  pub find-erase_other :
      (key other : Bytes) (m : Shard V) → key ≢ other → find other (erase key m) ≡ find other m
  unfolding find erase select
  find-erase_other key other [] n = refl
  find-erase_other key other (b ∷ m) n = elim (key-cases b.0 key) [
    | inl h ↦ rw (h, bytes_eq_refl key, bytes_eq_other key other n) (find-erase_other key other m n)
    | inr h ↦
        rw h (ap (λ r. if bytes_eq b.0 other then some b.1 else r) (find-erase_other key other m n))
  ]

  pub length-put :
      (key : Bytes) (e : Entry V) (m : Shard V)
      → length (put key e m) ≡ (if has key m then length m else suc (length m))
  unfolding put has
  length-put key e [] = refl
  length-put key e (b ∷ m) = elim (Bool-cases (bytes_eq b.0 key)) [
    | inl h ↦ rw h refl
    | inr h ↦ rw h (ap suc (length-put key e m) ∙ if_suc (has key m))
  ]
    where
      if_suc :
          (t : Bool)
          → suc (if t then length m else suc (length m))
            ≡ (if t then suc (length m) else suc (suc (length m)))
      if_suc true = refl
      if_suc false = refl

  pub length-select : (p : Bytes × Entry V → Bool) (m : Shard V) → length (select p m) ≤ length m
  unfolding select
  length-select p [] = omega arith
  length-select p (b ∷ m) = elim (Bool-cases (p b)) [
    | inl h ↦ rw h (omega (arith, length-select p m))
    | inr h ↦ rw h (omega (arith, length-select p m))
  ]
