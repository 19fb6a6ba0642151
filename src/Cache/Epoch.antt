-- ===== src/Cache/Epoch.antt =====
-- A value that was loaded before an invalidation is never stored after it.
use shard_dns.Cache.Trace.{
  Call, call_get, call_set, call_delete, call_delete_group, call_clear, run_call, run_calls,
}
use shard_dns.Cache.{
  Shard, Cache, Entry, find, get, read_entry, shard_for, set, delete, delete_group, clear,
  with_shard,
}
use shard_dns.Prelude.{
  ℕ, suc, ◌+◌, ◌%◌, ◌≤◌, ◌<◌, Option, none, some, List, [], ◌∷◌, ◌≡◌, ◌∙◌, refl, arith, Bytes,
  false, ◌==◌, ltb, Bool-cases, inl, inr,
}

module _ {V : Type 0} where
  -- How many of the calls invalidate entries.
  abbrev pub invalidations : List (Call V) → ℕ
  invalidations [] = 0
  invalidations (call_delete key ∷ calls) = suc (invalidations calls)
  invalidations (call_delete_group group ∷ calls) = suc (invalidations calls)
  invalidations (call_clear ∷ calls) = suc (invalidations calls)
  invalidations (call_get now key ∷ calls) = invalidations calls
  invalidations (call_set now key group value epoch ∷ calls) = invalidations calls

  read_entry-epoch :
      (c : Cache V) (now : ℕ) (e : Option (Entry V)) → (read_entry c now e).0.epoch ≡ c.epoch
  unfolding read_entry
  read_entry-epoch c now none = refl
  read_entry-epoch c now (some e) = elim (Bool-cases (ltb now e.expires)) [
    | inl h ↦ rw h refl
    | inr h ↦ rw h refl
  ]

  module _ (hash : Bytes → ℕ) (order : Shard V → List Bytes) where
    set-epoch :
        (c : Cache V) (now : ℕ) (key group : Bytes) (value : V) (epoch : ℕ)
        → (set hash order c now key group value epoch).epoch ≡ c.epoch
    unfolding set with_shard
    set-epoch c now key group value epoch = elim (Bool-cases (c.epoch == epoch)) [
      | inl h ↦ rw h refl
      | inr h ↦ rw h refl
    ]

    run_calls-epoch :
        (calls : List (Call V)) (c : Cache V)
        → c.epoch < 18446744073709551616
        → (run_calls hash order calls c).epoch
          ≡ (c.epoch + invalidations calls) % 18446744073709551616
    unfolding run_calls run_call get delete delete_group clear with_shard
    run_calls-epoch [] c h = omega arith
    run_calls-epoch (call_get now key ∷ calls) c h =
        let e = read_entry-epoch c now (find key (c.shards (shard_for hash order key))) in
        run_calls-epoch calls (run_call hash order (call_get now key) c) (rw e h) ∙ rw e refl
    run_calls-epoch (call_set now key group value epoch ∷ calls) c h =
        let e = set-epoch c now key group value epoch in
        run_calls-epoch calls (set hash order c now key group value epoch) (rw e h) ∙ rw e refl
    run_calls-epoch (call_delete key ∷ calls) c h =
        run_calls-epoch calls (run_call hash order (call_delete key) c) (omega arith) ∙ omega arith
    run_calls-epoch (call_delete_group group ∷ calls) c h =
        run_calls-epoch calls (run_call hash order (call_delete_group group) c) (omega arith)
        ∙ omega arith
    run_calls-epoch (call_clear ∷ calls) c h =
        run_calls-epoch calls (run_call hash order call_clear c) (omega arith) ∙ omega arith

    -- A `set` with the epoch read before some calls changes nothing after them, when one of them at
    -- least, and less than 2 ^ 64 of them, is a `delete`, a `delete_group` or a `clear`.
    pub set-run_calls :
        (c : Cache V) (calls : List (Call V)) (now : ℕ) (key group : Bytes) (value : V)
        → c.epoch < 18446744073709551616
        → 1 ≤ invalidations calls
        → invalidations calls < 18446744073709551616
        → set hash order (run_calls hash order calls c) now key group value c.epoch
          ≡ run_calls hash order calls c
    unfolding set
    set-run_calls c calls now key group value word some_call few =
        let e = run_calls-epoch calls c word in
        let differs : ((run_calls hash order calls c).epoch == c.epoch) ≡ false =
          ground (arith, e) in
        rw differs refl
