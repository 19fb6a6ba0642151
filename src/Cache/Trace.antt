-- ===== src/Cache/Trace.antt =====
-- The calls of the cache's methods, as values, in the order in which they take the lock.
use shard_dns.Cache.{Shard, Cache, get, set, delete, delete_group, clear}
use shard_dns.Prelude.{ℕ, List, [], ◌∷◌, Bytes}

pub data Call (V : Type 0) : Type 0 where
  call_get : ℕ → Bytes → Call V
  call_set : ℕ → Bytes → Bytes → V → ℕ → Call V
  call_delete : Bytes → Call V
  call_delete_group : Bytes → Call V
  call_clear : Call V

module _ {V : Type 0} (hash : Bytes → ℕ) (order : Shard V → List Bytes) where
  unfoldable pub run_call : Call V → Cache V → Cache V
  run_call (call_get now key) c = (get hash order c now key).0
  run_call (call_set now key group value epoch) c = set hash order c now key group value epoch
  run_call (call_delete key) c = delete hash order c key
  run_call (call_delete_group group) c = delete_group c group
  run_call call_clear c = clear c

  unfoldable pub run_calls : List (Call V) → Cache V → Cache V
  run_calls [] c = c
  run_calls (call ∷ calls) c = run_calls calls (run_call call c)
