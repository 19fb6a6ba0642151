-- ===== src/Cache/Lookup.antt =====
-- What `get` answers after `set` and after `delete`.
use shard_dns.Cache.Shard.{find-put, find-erase, find-erase_other}
use shard_dns.Cache.{
  Shard, Cache, Entry, find, get, read_entry, shard_for, set, delete, with_shard, expiry, make_room,
}
use shard_dns.Prelude.{
  ℕ, ◌<◌, Option, none, some, List, ◌≡◌, ◌≢◌, refl, arith, Bytes, true, ◌==◌, ==_iff, ltb,
  Bool-cases, inl, inr,
}

module _ {V : Type 0} (hash : Bytes → ℕ) (order : Shard V → List Bytes) where
  -- A value set with the current epoch is what `get` answers until it expires.
  pub get-set :
      (c : Cache V) (now later : ℕ) (key group : Bytes) (value : V)
      → later < expiry now c.ttl
      → (get hash order (set hash order c now key group value c.epoch) later key).1 ≡ some value
  unfolding get set with_shard read_entry
  get-set c now later key group value h =
      let k = shard_for hash order key in
      let entry : Entry V = record { value = value; group = group; expires = expiry now c.ttl } in
      let same : (c.epoch == c.epoch) ≡ true = ground arith in
      let here : (k == k) ≡ true = ground arith in
      let live : ltb later (expiry now c.ttl) ≡ true = ground arith in
      rw (same, here, find-put key entry (make_room hash order c now key (c.shards k)), live) refl

  read_entry-value :
      (c d : Cache V) (now : ℕ) (e : Option (Entry V))
      → (read_entry c now e).1 ≡ (read_entry d now e).1
  unfolding read_entry
  read_entry-value c d now none = refl
  read_entry-value c d now (some e) = elim (Bool-cases (ltb now e.expires)) [
    | inl h ↦ rw h refl
    | inr h ↦ rw h refl
  ]

  -- The shard of a key, after `delete` of another.
  find-delete :
      (c : Cache V) (key other : Bytes)
      → key ≢ other
      → find other ((delete hash order c key).shards (shard_for hash order other))
        ≡ find other (c.shards (shard_for hash order other))
  unfolding delete with_shard
  find-delete c key other n =
      elim (Bool-cases (shard_for hash order other == shard_for hash order key)) [
        | inl e ↦
            let same = (==_iff (shard_for hash order other) (shard_for hash order key)).0 e in
            rw (e, same) (find-erase_other key other (c.shards (shard_for hash order key)) n)
        | inr e ↦ rw e refl
      ]

  -- After `delete` the key has no value, and each other key has the value that it had.
  pub get-delete :
      (c : Cache V) (now : ℕ) (key other : Bytes)
      → key ≢ other
      → ((get hash order (delete hash order c key) now key).1 ≡ none)
        × ((get hash order (delete hash order c key) now other).1 ≡ (get hash order c now other).1)
  unfolding get
  get-delete c now key other n = (
    gone,
    rw (find-delete c key other n) (
        read_entry-value (delete hash order c key) c now
          (find other (c.shards (shard_for hash order other)))),
  )
    where
      nothing : find key ((delete hash order c key).shards (shard_for hash order key)) ≡ none
      nothing =
          let here : (shard_for hash order key == shard_for hash order key) ≡ true = ground arith in
          unfold delete with_shard in rw here (find-erase key (c.shards (shard_for hash order key)))

      gone : (get hash order (delete hash order c key) now key).1 ≡ none
      gone = rw nothing (unfold read_entry in refl)
