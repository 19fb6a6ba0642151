-- ===== src/Cache.antt =====
-- internal/cache/cache.go: the sharded cache.
-- A shard's map is an association list, the array of 64 shards is a function of the index, and the
-- clock is an argument. Each call is one step: what takes one key holds its shard's lock throughout.
-- `DeleteGroup`, `Clear`, `Len` and `Stats` lock one shard after another in the source, and other calls may
-- come in between; here they too are one step.
-- The seeded hash of `hash/maphash`, and the order in which Go ranges over a map, are parameters.
pub mod Trace
pub mod Shard
pub mod Bound
pub mod Lookup
pub mod Contents
pub mod Epoch
use shard_dns.Prelude.Int.{ℤ, pos, negsuc}
use shard_dns.Prelude.{
  ℕ, zero, suc, ◌+◌, ◌/◌, ◌%◌, ◌^◌, Bool, true, false, not, ◌&&◌, ltb, leb, ◌==◌, if◌then◌else◌,
  Option, none, some, List, [], ◌∷◌, Bytes, bytes_eq, length, select,
}

abbrev pub shard_count : ℕ
shard_count = 64

pub record Entry (V : Type 0) : Type 0 where
  pub value : V
  pub group : Bytes
  pub expires : ℕ

abbrev pub Shard : Type 0 → Type 0
Shard V = List (Bytes × Entry V)

pub record Cache (V : Type 0) : Type 0 where
  pub shards : ℕ → Shard V
  pub per_shard : ℕ
  pub ttl : ℤ
  pub epoch : ℕ
  pub hits : ℕ
  pub misses : ℕ

abbrev pub per_shard_of : ℤ → ℕ
per_shard_of (pos n) = if ltb (n / shard_count) 1 then 1 else n / shard_count
per_shard_of (negsuc n) = 1

-- The counters are unsigned words of 64 bits.
abbrev pub count_up : ℕ → ℕ
count_up n = (n + 1) % 2 ^ 64

-- `now + ttl` as a signed word of 64 bits. A sum past the largest is negative in Go, and then
-- before every time of the clock, as 0 is.
abbrev pub expiry : ℕ → ℤ → ℕ
expiry now (pos zero) = 9223372036854775807
expiry now (pos (suc n)) = if ltb (now + suc n) (2 ^ 63) then now + suc n else 0
expiry now (negsuc n) = 9223372036854775807

module _ {V : Type 0} where
  unfoldable pub new_cache : ℤ → ℤ → Cache V
  new_cache max_entries ttl = record {
    shards = λ i. [];
    per_shard = per_shard_of max_entries;
    ttl = ttl;
    epoch = 0;
    hits = 0;
    misses = 0;
  }

  -- `s.m[key]`
  unfoldable pub find : Bytes → Shard V → Option (Entry V)
  find key [] = none
  find key (b ∷ m) = let rest = find key m in if bytes_eq b.0 key then some b.1 else rest

  unfoldable pub has : Bytes → Shard V → Bool
  has key [] = false
  has key (b ∷ m) = let rest = has key m in if bytes_eq b.0 key then true else rest

  -- `s.m[key] = e`
  unfoldable pub put : Bytes → Entry V → Shard V → Shard V
  put key e [] = (key, e) ∷ []
  put key e (b ∷ m) = let rest = put key e m in if bytes_eq b.0 key then (key, e) ∷ m else b ∷ rest

  -- `delete(s.m, key)`
  unfoldable pub erase : Bytes → Shard V → Shard V
  erase key m = select (λ b. not (bytes_eq b.0 key)) m

  -- The first loop of `evict`.
  unfoldable pub drop_expired : ℕ → Shard V → Shard V
  drop_expired now m = select (λ b. ltb now b.1.expires) m

  -- The second loop of `evict`, over the keys in the order that Go visits them.
  unfoldable pub drop_visited : ℕ → List Bytes → Shard V → Shard V
  drop_visited per [] m = m
  drop_visited per (key ∷ keys) m =
      let rest = drop_visited per keys (erase key m) in if ltb (length m) per then m else rest

  unfoldable pub with_shard : Cache V → ℕ → Shard V → Cache V
  with_shard c k m = record c { shards = λ i. if i == k then m else c.shards i }

  -- What `Get` does with the entry that it found.
  unfoldable pub read_entry : Cache V → ℕ → Option (Entry V) → Cache V × Option V
  read_entry c now none = (record c { misses = count_up c.misses }, none)
  read_entry c now (some e) =
      if ltb now e.expires
      then (record c { hits = count_up c.hits }, some e.value)
      else (record c { misses = count_up c.misses }, none)

  module _ (hash : Bytes → ℕ) (order : Shard V → List Bytes) where
    unfoldable pub shard_for : Bytes → ℕ
    shard_for key = hash key % shard_count

    unfoldable pub evict : ℕ → ℕ → Shard V → Shard V
    evict per now m = let live = drop_expired now m in drop_visited per (order live) live

    unfoldable pub get : Cache V → ℕ → Bytes → Cache V × Option V
    get c now key = read_entry c now (find key (c.shards (shard_for key)))

    -- Room for a new key: `Set` evicts when the shard is full.
    unfoldable pub make_room : Cache V → ℕ → Bytes → Shard V → Shard V
    make_room c now key m =
        if not (has key m) && leb c.per_shard (length m) then evict c.per_shard now m else m

    unfoldable pub set : Cache V → ℕ → Bytes → Bytes → V → ℕ → Cache V
    set c now key group value epoch =
        if not (c.epoch == epoch)
        then c
        else with_shard c (shard_for key) (
            put key (record { value = value; group = group; expires = expiry now c.ttl })
              (make_room c now key (c.shards (shard_for key))))

    unfoldable pub delete : Cache V → Bytes → Cache V
    delete c key =
        with_shard (record c { epoch = count_up c.epoch }) (shard_for key)
          (erase key (c.shards (shard_for key)))

  unfoldable pub delete_group : Cache V → Bytes → Cache V
  delete_group c group = record c {
    epoch = count_up c.epoch;
    shards = λ i. select (λ b. not (bytes_eq b.1.group group)) (c.shards i);
  }

  unfoldable pub clear : Cache V → Cache V
  clear c = record c { epoch = count_up c.epoch; shards = λ i. [] }

  unfoldable pub total : ℕ → Cache V → ℕ
  total zero c = 0
  total (suc n) c = total n c + length (c.shards n)

  unfoldable pub len : Cache V → ℕ
  len c = total shard_count c

  unfoldable pub stats : Cache V → ℕ × ℕ
  stats c = (c.hits, c.misses)
