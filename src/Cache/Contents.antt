-- ===== src/Cache/Contents.antt =====
-- What holds of every entry of a cache that `get` can find, through all of its methods.
use mathlib.Core.Path.{subst, subst₂}
use shard_dns.Cache.{
  Entry, Shard, Cache, find, put, erase, drop_expired, drop_visited, with_shard, shard_for, evict,
  get, read_entry, make_room, set, delete, delete_group, clear, expiry, has,
}
use shard_dns.Prelude.{
  ℕ, ◌==◌, ==_iff, Bool, true, not, ◌&&◌, leb, ltb, Option, none, some, List, [], ◌∷◌, ◌≡◌, ◌≢◌,
  refl, sym, ap, ◌∙◌, Bytes, bytes_eq, bytes_eq_iff, length, select, All, Bool-cases, inl, inr,
}

module _ {V : Type 0} where
  select-All :
      (Q : Bytes × Entry V → Type 0) (p : Bytes × Entry V → Bool) (m : Shard V)
      → All Q m
      → All Q (select p m)
  unfolding select
  select-All Q p [] h = h
  select-All Q p (b ∷ m) h = elim (Bool-cases (p b)) [
    | inl e ↦ rw e (h.0, select-All Q p m h.1)
    | inr e ↦ rw e (select-All Q p m h.1)
  ]

  put-All :
      (Q : Bytes × Entry V → Type 0) (key : Bytes) (e : Entry V) (m : Shard V)
      → Q (key, e)
      → All Q m
      → All Q (put key e m)
  unfolding put
  put-All Q key e [] q h = (q, tt)
  put-All Q key e (b ∷ m) q h = elim (Bool-cases (bytes_eq b.0 key)) [
    | inl t ↦ rw t (q, h.1)
    | inr t ↦ rw t (h.0, put-All Q key e m q h.1)
  ]

  find-All :
      (Q : Bytes × Entry V → Type 0) (key : Bytes) (m : Shard V) {e : Entry V}
      → All Q m
      → find key m ≡ some e
      → Q (key, e)
  unfolding find
  find-All Q key [] h f = cc
  find-All Q key (b ∷ m) {e} h f = elim (Bool-cases (bytes_eq b.0 key)) [
    | inl t ↦
        let here = (bytes_eq_iff b.0 key).0 t in
        let g : some b.1 ≡ some e = rw t at f in
        let same : b.1 ≡ e = cc in subst₂ (λ k x. Q (k, x)) here same h.0
    | inr t ↦ find-All Q key m h.1 (rw t at f)
  ]

  All-impl :
      {P Q : Bytes × Entry V → Type 0} (m : Shard V)
      → ((b : Bytes × Entry V) → P b → Q b)
      → All P m
      → All Q m
  All-impl [] f h = tt
  All-impl (b ∷ m) f h = (f b h.0, All-impl m f h.1)

  erase-All :
      (Q : Bytes × Entry V → Type 0) (key : Bytes) (m : Shard V)
      → All Q m
      → All (λ b. (key ≢ b.0) × Q b) (erase key m)
  unfolding erase select
  erase-All Q key [] h = tt
  erase-All Q key (b ∷ m) h = elim (Bool-cases (bytes_eq b.0 key)) [
    | inl t ↦ rw t (erase-All Q key m h.1)
    | inr t ↦
        rw t
          (((λ e. let same = (bytes_eq_iff b.0 key).1 (sym e) in cc), h.0), erase-All Q key m h.1)
  ]

  drop_visited-All :
      (Q : Bytes × Entry V → Type 0) (per : ℕ) (keys : List Bytes) (m : Shard V)
      → All Q m
      → All Q (drop_visited per keys m)
  unfolding drop_visited
  drop_visited-All Q per [] m h = h
  drop_visited-All Q per (k ∷ keys) m h = elim (Bool-cases (ltb (length m) per)) [
    | inl t ↦ rw t h
    | inr t ↦ rw t (
        drop_visited-All Q per keys (erase k m)
          (unfold erase in select-All Q (λ b. not (bytes_eq b.0 k)) m h))
  ]

  module _ (hash : Bytes → ℕ) (order : Shard V → List Bytes) where
    -- Each entry that stands in its key's shard has the property.
    abbrev Placed : (Bytes → Bytes → V → Type 0) → ℕ → Bytes × Entry V → Type 0
    Placed good i b = shard_for hash order b.0 ≡ i → good b.0 b.1.group b.1.value

    pub record IsFilled (good : Bytes → Bytes → V → Type 0) (c : Cache V) : Type 0 where
      pub entries : (i : ℕ) → All (Placed good i) (c.shards i)

    pub IsFilled-impl :
        {P Q : Bytes → Bytes → V → Type 0} (c : Cache V)
        → ((k g : Bytes) (v : V) → P k g v → Q k g v)
        → IsFilled P c
        → IsFilled Q c
    IsFilled-impl {P} {Q} c f h = record {
      entries = λ i.
          All-impl {P = Placed P i} {Q = Placed Q i} (c.shards i)
            (λ b p e. f b.0 b.1.group b.1.value (p e)) (h.entries i);
    }

    read_entry-some :
        (c : Cache V) (now : ℕ) (o : Option (Entry V)) {v : V}
        → (read_entry c now o).1 ≡ some v
        → (e : Entry V) × (o ≡ some e) × (e.value ≡ v)
    unfolding read_entry
    read_entry-some c now none h = cc
    read_entry-some c now (some e) {v} h = elim (Bool-cases (ltb now e.expires)) [
      | inl t ↦ let f : some e.value ≡ some v = rw t at h in (e, refl, cc)
      | inr t ↦ absurd (let f : none ≡ some v = rw t at h in cc)
    ]

    -- What `get` answers has the property.
    pub get-IsFilled :
        (good : Bytes → Bytes → V → Type 0) (c : Cache V) (now : ℕ) (key : Bytes) {v : V}
        → IsFilled good c
        → (get hash order c now key).1 ≡ some v
        → (group : Bytes) × good key group v
    unfolding get
    get-IsFilled good c now key {v} h g =
        let k = shard_for hash order key in
        let (e, f, same) = read_entry-some c now (find key (c.shards k)) g in
        (
          e.group,
          subst (good key e.group) same
              (find-All (Placed good k) key (c.shards k) (h.entries k) f refl),
        )

    read_entry-IsFilled :
        (good : Bytes → Bytes → V → Type 0) (c : Cache V) (now : ℕ) (o : Option (Entry V))
        → IsFilled good c
        → IsFilled good (read_entry c now o).0
    unfolding read_entry
    read_entry-IsFilled good c now none h = record { entries = h.entries }
    read_entry-IsFilled good c now (some e) h = elim (Bool-cases (ltb now e.expires)) [
      | inl t ↦ rw t (record { entries = h.entries })
      | inr t ↦ rw t (record { entries = h.entries })
    ]

    pub kept-IsFilled :
        (good : Bytes → Bytes → V → Type 0) (c : Cache V) (now : ℕ) (key : Bytes)
        → IsFilled good c
        → IsFilled good (get hash order c now key).0
    unfolding get
    kept-IsFilled good c now key h =
        read_entry-IsFilled good c now (find key (c.shards (shard_for hash order key))) h

    make_room-All :
        (Q : Bytes × Entry V → Type 0) (c : Cache V) (now : ℕ) (key : Bytes) (m : Shard V)
        → All Q m
        → All Q (make_room hash order c now key m)
    unfolding make_room evict drop_expired
    make_room-All Q c now key m h =
        elim (Bool-cases (not (has key m) && leb c.per_shard (length m))) [
          | inl t ↦
              let live = drop_expired now m in
              rw t (
                drop_visited-All Q c.per_shard (order live) live
                  (select-All Q (λ b. ltb now b.1.expires) m h))
          | inr t ↦ rw t h
        ]

    pub set-IsFilled :
        (good : Bytes → Bytes → V → Type 0) (c : Cache V) (now : ℕ) (key group : Bytes) (value : V)
        (epoch : ℕ)
        → good key group value
        → IsFilled good c
        → IsFilled good (set hash order c now key group value epoch)
    unfolding set with_shard
    set-IsFilled good c now key group value epoch q h =
        let k = shard_for hash order key in
        let entry : Entry V = record { value = value; group = group; expires = expiry now c.ttl } in
        elim (Bool-cases (c.epoch == epoch)) [
          | inr t ↦ rw t h
          | inl t ↦ rw t (record {
            entries = λ i. elim (Bool-cases (i == k)) [
              | inr o ↦ rw o (h.entries i)
              | inl o ↦
                  let here =
                    subst (λ j. All (Placed good j) (c.shards k)) (sym ((==_iff i k).0 o))
                      (h.entries k) in
                  rw o (
                    put-All (Placed good i) key entry (make_room hash order c now key (c.shards k))
                      (λ _. q) (make_room-All (Placed good i) c now key (c.shards k) here))
            ];
          })
        ]

    -- After `delete` no entry has the key.
    pub delete-IsFilled :
        (good : Bytes → Bytes → V → Type 0) (c : Cache V) (key : Bytes)
        → IsFilled good c
        → IsFilled (λ k g v. (key ≢ k) × good k g v) (delete hash order c key)
    unfolding delete with_shard
    delete-IsFilled good c key h = record {
      entries = λ i.
          let k = shard_for hash order key in
          elim (Bool-cases (i == k)) [
            | inl o ↦
                let here =
                  subst (λ j. All (Placed good j) (c.shards k)) (sym ((==_iff i k).0 o))
                    (h.entries k) in
                rw o (
                  All-impl {P = λ b. (key ≢ b.0) × Placed good i b} (erase key (c.shards k))
                    (λ b p e. (p.0, p.1 e)) (erase-All (Placed good i) key (c.shards k) here))
            | inr o ↦ rw o (
                All-impl {P = Placed good i} (c.shards i)
                  (λ b p e. (
                    (λ same.
                        let there : (i == k) ≡ true =
                          (==_iff i k).1 (sym e ∙ ap (shard_for hash order) (sym same)) in
                        cc),
                    p e,
                  ))
                  (h.entries i))
          ];
    }

  drop_group-All :
      (hash : Bytes → ℕ) (order : Shard V → List Bytes) (good : Bytes → Bytes → V → Type 0)
      (group : Bytes) (i : ℕ) (m : Shard V)
      → All (Placed hash order good i) m
      → All
          (Placed hash order (λ k g v. (group ≢ g) × good k g v) i)
          (select (λ b. not (bytes_eq b.1.group group)) m)
  unfolding select
  drop_group-All hash order good group i [] a = tt
  drop_group-All hash order good group i (b ∷ m) a = elim (Bool-cases (bytes_eq b.1.group group)) [
    | inl t ↦ rw t (drop_group-All hash order good group i m a.1)
    | inr t ↦ rw t (
      (λ e. ((λ q. let same = (bytes_eq_iff b.1.group group).1 (sym q) in cc), a.0 e)),
      drop_group-All hash order good group i m a.1,
    )
  ]

  -- After `delete_group` no entry has the group.
  pub delete_group-IsFilled :
      (hash : Bytes → ℕ) (order : Shard V → List Bytes) (good : Bytes → Bytes → V → Type 0)
      (c : Cache V) (group : Bytes)
      → IsFilled hash order good c
      → IsFilled hash order (λ k g v. (group ≢ g) × good k g v) (delete_group c group)
  unfolding delete_group
  delete_group-IsFilled hash order good c group h = record {
    entries = λ i. drop_group-All hash order good group i (c.shards i) (h.entries i);
  }

  -- An empty cache has every property.
  pub clear-IsFilled :
      (hash : Bytes → ℕ) (order : Shard V → List Bytes) (good : Bytes → Bytes → V → Type 0)
      (c : Cache V)
      → IsFilled hash order good (clear c)
  unfolding clear
  clear-IsFilled hash order good c = record { entries = λ i. tt }
