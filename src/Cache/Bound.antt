-- ===== src/Cache/Bound.antt =====
-- A shard never holds more than its share of the entries.
use mathlib.Core.Path.{subst}
use shard_dns.Cache.Shard.{length-put, length-select}
use shard_dns.Cache.Trace.{
  Call, call_get, call_set, call_delete, call_delete_group, call_clear, run_call, run_calls,
}
use shard_dns.Cache.{
  get, read_entry, find, len, total, expiry, count_up, Entry, Shard, Cache, new_cache, per_shard_of,
  shard_for, has, put, erase, drop_expired, drop_visited, evict, make_room, set, delete,
  delete_group, clear, with_shard,
}
use shard_dns.Prelude.Int.{ℤ, pos, negsuc}
use shard_dns.Prelude.{
  ◌*◌, ℕ, zero, suc, ◌≤◌, ◌<◌, Bool, true, false, Option, none, some, List, [], ◌∷◌, ◌≡◌, refl,
  arith, not, ◌==◌, Bytes, bytes_eq, length, select, ltb, leb, if◌then◌else◌, Bool-cases, inl, inr,
  All,
}

unfoldable pub is_in : Bytes → List Bytes → Bool
is_in key [] = false
is_in key (k ∷ ks) = let rest = is_in key ks in if bytes_eq key k then true else rest

per_shard_of_pos : (n : ℤ) → 1 ≤ per_shard_of n
per_shard_of_pos (pos n) = ground arith
per_shard_of_pos (negsuc n) = omega arith

module _ {V : Type 0} where
  -- Every key of the map is in the list.
  abbrev pub Covers : List Bytes → Shard V → Type 0
  Covers keys m = All (λ b. is_in b.0 keys ≡ true) m

  Covers-select :
      (p : Bytes × Entry V → Bool) (keys : List Bytes) (m : Shard V)
      → Covers keys m
      → Covers keys (select p m)
  unfolding select
  Covers-select p keys [] c = c
  Covers-select p keys (b ∷ m) c = elim (Bool-cases (p b)) [
    | inl h ↦ rw h (c.0, Covers-select p keys m c.1)
    | inr h ↦ rw h (Covers-select p keys m c.1)
  ]

  Covers-erase :
      (key : Bytes) (keys : List Bytes) (m : Shard V)
      → Covers (key ∷ keys) m
      → Covers keys (erase key m)
  unfolding erase select is_in
  Covers-erase key keys [] c = c
  Covers-erase key keys (b ∷ m) c = elim (Bool-cases (bytes_eq b.0 key)) [
    | inl h ↦ rw h (Covers-erase key keys m c.1)
    | inr h ↦ rw h (rw h at c.0, Covers-erase key keys m c.1)
  ]

  drop_visited_bound :
      (per : ℕ) (keys : List Bytes) (m : Shard V)
      → 1 ≤ per
      → Covers keys m
      → length (drop_visited per keys m) < per
  unfolding drop_visited
  drop_visited_bound per [] [] h c = omega arith
  drop_visited_bound per [] (b ∷ m) h c = absurd (let f = c.0 in unfold is_in in cc)
  drop_visited_bound per (key ∷ keys) m h c = elim (Bool-cases (ltb (length m) per)) [
    | inl e ↦ rw e (ground arith)
    | inr e ↦ rw e (drop_visited_bound per keys (erase key m) h (Covers-erase key keys m c))
  ]

  record IsBounded (per : ℕ) (c : Cache V) : Type 0 where
    pub share : c.per_shard ≡ per
    pub within : (i : ℕ) → length (c.shards i) ≤ per

  new_cache-IsBounded :
      (max_entries ttl : ℤ) → IsBounded (per_shard_of max_entries) (new_cache max_entries ttl)
  unfolding new_cache
  new_cache-IsBounded max_entries ttl = record { share = refl; within = λ i. omega arith }

  with_shard-IsBounded :
      (per : ℕ) (c : Cache V) (k : ℕ) (m : Shard V)
      → IsBounded per c
      → length m ≤ per
      → IsBounded per (with_shard c k m)
  unfolding with_shard
  with_shard-IsBounded per c k m b h = record {
    share = b.share;
    within = λ i. elim (Bool-cases (i == k)) [ inl e ↦ rw e h | inr e ↦ rw e (b.within i) ];
  }

  erase_bound : (key : Bytes) (m : Shard V) → length (erase key m) ≤ length m
  unfolding erase
  erase_bound key m = length-select (λ b. not (bytes_eq b.0 key)) m

  read_entry-IsBounded :
      (per : ℕ) (c : Cache V) (now : ℕ) (e : Option (Entry V))
      → IsBounded per c
      → IsBounded per (read_entry c now e).0
  unfolding read_entry
  read_entry-IsBounded per c now none b = record { share = b.share; within = b.within }
  read_entry-IsBounded per c now (some e) b = elim (Bool-cases (ltb now e.expires)) [
    | inl h ↦ rw h (record { share = b.share; within = b.within })
    | inr h ↦ rw h (record { share = b.share; within = b.within })
  ]

  total_bound : (per n : ℕ) (c : Cache V) → IsBounded per c → total n c ≤ n * per
  unfolding total
  total_bound per zero c b = omega arith
  total_bound per (suc n) c b = omega (arith, total_bound per n c b, b.within n)

  module _ (hash : Bytes → ℕ) (order : Shard V → List Bytes)
      (covers : (m : Shard V) → Covers (order m) m) where
    -- A full shard has room after the eviction.
    evict_bound : (per now : ℕ) (m : Shard V) → 1 ≤ per → length (evict hash order per now m) < per
    unfolding evict
    evict_bound per now m h =
        drop_visited_bound per (order (drop_expired now m)) (drop_expired now m) h
          (covers (drop_expired now m))

    put-make_room_bound :
        (c : Cache V) (now : ℕ) (key : Bytes) (e : Entry V) (m : Shard V)
        → 1 ≤ c.per_shard
        → length m ≤ c.per_shard
        → length (put key e (make_room hash order c now key m)) ≤ c.per_shard
    unfolding make_room
    put-make_room_bound c now key e m one h = elim (Bool-cases (has key m)) [
      | inl k ↦ rw k (rw (length-put key e m, k) h)
      | inr k ↦ elim (Bool-cases (leb c.per_shard (length m))) [
        | inl f ↦
            rw (k, f)
              (put_bound (evict hash order c.per_shard now m) (evict_bound c.per_shard now m one))
        | inr f ↦ rw (k, f) (put_bound m (ground arith))
      ]
    ]
      where
        put_bound : (t : Shard V) → length t < c.per_shard → length (put key e t) ≤ c.per_shard
        put_bound t lt = rw (length-put key e t) (elim (Bool-cases (has key t)) [
          | inl g ↦ rw g (omega arith)
          | inr g ↦ rw g (omega arith)
        ])

    set-IsBounded :
        (per : ℕ) (c : Cache V) (now : ℕ) (key group : Bytes) (value : V) (epoch : ℕ)
        → 1 ≤ per
        → IsBounded per c
        → IsBounded per (set hash order c now key group value epoch)
    unfolding set
    set-IsBounded per c now key group value epoch one b = elim (Bool-cases (c.epoch == epoch)) [
      | inl e ↦ rw e (
          with_shard-IsBounded per c k (put key entry (make_room hash order c now key (c.shards k)))
            b
            (subst (λ n. length (put key entry (make_room hash order c now key (c.shards k))) ≤ n)
              b.share
              (put-make_room_bound c now key entry (c.shards k) (rw b.share one)
                (rw b.share (b.within k)))))
      | inr e ↦ rw e b
    ]
      where
        k : ℕ
        k = shard_for hash order key

        entry : Entry V
        entry = record { value = value; group = group; expires = expiry now c.ttl }

    get-IsBounded :
        (per : ℕ) (c : Cache V) (now : ℕ) (key : Bytes)
        → IsBounded per c
        → IsBounded per (get hash order c now key).0
    unfolding get
    get-IsBounded per c now key b =
        read_entry-IsBounded per c now (find key (c.shards (shard_for hash order key))) b

    run_call-IsBounded :
        (per : ℕ) (call : Call V) (c : Cache V)
        → 1 ≤ per
        → IsBounded per c
        → IsBounded per (run_call hash order call c)
    unfolding run_call delete delete_group clear
    run_call-IsBounded per (call_get now key) c one b = get-IsBounded per c now key b
    run_call-IsBounded per (call_set now key group value epoch) c one b =
        set-IsBounded per c now key group value epoch one b
    run_call-IsBounded per (call_delete key) c one b =
        let k = shard_for hash order key in
        with_shard-IsBounded per (record c { epoch = count_up c.epoch }) k (erase key (c.shards k))
          (record { share = b.share; within = b.within })
          (omega (arith, erase_bound key (c.shards k), b.within k))
    run_call-IsBounded per (call_delete_group group) c one b = record {
      share = b.share;
      within = λ i.
          omega
            (arith, length-select (λ a. not (bytes_eq a.1.group group)) (c.shards i), b.within i);
    }
    run_call-IsBounded per call_clear c one b = record {
      share = b.share;
      within = λ i. omega arith;
    }

    run_calls-IsBounded :
        (per : ℕ) (calls : List (Call V)) (c : Cache V)
        → 1 ≤ per
        → IsBounded per c
        → IsBounded per (run_calls hash order calls c)
    unfolding run_calls
    run_calls-IsBounded per [] c one b = b
    run_calls-IsBounded per (call ∷ calls) c one b =
        run_calls-IsBounded per calls (run_call hash order call c) one
          (run_call-IsBounded per call c one b)

    -- When the order in which Go ranges over a map visits every key of it, a cache that starts
    -- empty never holds more than 64 times its share per shard, whatever calls are made of it.
    pub len-run_calls :
        (max_entries ttl : ℤ) (calls : List (Call V))
        → len (run_calls hash order calls (new_cache max_entries ttl))
          ≤ 64 * per_shard_of max_entries
    unfolding len
    len-run_calls max_entries ttl calls =
        total_bound (per_shard_of max_entries) 64
          (run_calls hash order calls (new_cache max_entries ttl))
          (run_calls-IsBounded (per_shard_of max_entries) calls (new_cache max_entries ttl)
            (per_shard_of_pos max_entries) (new_cache-IsBounded max_entries ttl))
