-- ===== src/Tests/Caches.antt =====
-- The theorems of Cache, Cached and Server at concrete inputs.
use shard_dns.Cache.Bound.{Covers, is_in, len-run_calls}
use shard_dns.Cache.Epoch.{set-run_calls}
use shard_dns.Cache.Lookup.{get-set, get-delete}
use shard_dns.Cache.Trace.{Call, call_get, call_set, call_delete, run_calls}
use shard_dns.Cache.{Shard, Cache, new_cache, get, set, delete, len}
use shard_dns.Cached.Fresh.{find_zone_cached-invalidate, lookup_name_cached-invalidate}
use shard_dns.Cached.{CachedResolver, find_zone_cached, lookup_name_cached, invalidate}
use shard_dns.Codec.{parse_message, u16_at}
use shard_dns.Handler.{in_zone}
use shard_dns.Prelude.Int.{pos}
use shard_dns.Prelude.Text.{has_suffix}
use shard_dns.Server.Replies.{parse_message-form_err, serve_udp-response}
use shard_dns.Server.{form_err, serve_udp}
use shard_dns.Tests.Answers.{ascii, example_resolver, example_zone}
use shard_dns.Tests.Wire.{www}
use shard_dns.Wire.{Message, opcode, rcode}
use shard_dns.Prelude.{
  ℕ, ◌/◌, ◌%◌, ◌≤◌, true, false, none, some, List, [], ◌∷◌, ◌≡◌, ◌≢◌, refl, arith, Bytes, bytes_eq,
  bytes_eq_refl, codes, length, ok, if◌then◌else◌, Bool,
}

-- A hash by the length of the key, and the keys in the order of the map.
abbrev pub by_length : Bytes → ℕ
by_length key = length key

abbrev pub keys : {V : Type 0} → Shard V → List Bytes
keys [] = []
keys (b ∷ m) = b.0 ∷ keys m

weaken : {V : Type 0} (k : Bytes) (ks : List Bytes) (m : Shard V) → Covers ks m → Covers (k ∷ ks) m
unfolding is_in
weaken k ks [] c = c
weaken k ks (b ∷ m) c = (at_front (bytes_eq b.0 k), weaken k ks m c.1)
  where
    at_front : (t : Bool) → (if t then true else is_in b.0 ks) ≡ true
    at_front true = refl
    at_front false = c.0

keys-Covers : {V : Type 0} (m : Shard V) → Covers (keys m) m
unfolding is_in
keys-Covers [] = tt
keys-Covers (b ∷ m) = (rw (bytes_eq_refl b.0) refl, weaken b.0 (keys m) m (keys-Covers m))

abbrev calls : List (Call ℕ)
calls =
    call_set 5 www [] 7 0 ∷ call_get 6 www ∷ call_delete www ∷ call_set 7 (codes "a") [] 8 1 ∷ []

abbrev empty : Cache ℕ
empty = record { shards = λ i. []; per_shard = 2; ttl = pos 60; epoch = 0; hits = 0; misses = 0 }

len-run_calls_example : len (run_calls by_length keys calls (new_cache (pos 100) (pos 60))) ≤ 64
len-run_calls_example = len-run_calls by_length keys keys-Covers (pos 100) (pos 60) calls

set-run_calls_example :
    set by_length keys (run_calls by_length keys calls empty) 9 www [] 7 0
    ≡ run_calls by_length keys calls empty
set-run_calls_example =
    set-run_calls by_length keys empty calls 9 www [] 7 (omega arith) (omega arith) (omega arith)

get-set_example : (get by_length keys (set by_length keys empty 5 www [] 7 0) 64 www).1 ≡ some 7
get-set_example = get-set by_length keys empty 5 64 www [] 7 (omega arith)

www-≢-a : www ≢ codes "a"
www-≢-a e = cc

get-delete_example :
    ((get by_length keys (delete by_length keys empty www) 6 www).1 ≡ none)
    × ((get by_length keys (delete by_length keys empty www) 6 (codes "a")).1
        ≡ (get by_length keys empty 6 (codes "a")).1)
get-delete_example = get-delete by_length keys empty 6 www (codes "a") www-≢-a

abbrev resolver : CachedResolver
resolver = record {
  zones = record { shards = λ i. []; per_shard = 1; ttl = pos 60; epoch = 0; hits = 0; misses = 0 };
  names = record { shards = λ i. []; per_shard = 1; ttl = pos 60; epoch = 0; hits = 0; misses = 0 };
}

find_zone_cached-invalidate_example :
    (find_zone_cached by_length keys by_length keys
      (invalidate by_length keys by_length keys resolver (codes "example") www)
      5
      example_resolver
      www).1
    ≡ ok example_zone
find_zone_cached-invalidate_example =
    find_zone_cached-invalidate by_length keys by_length keys resolver (codes "example") www 5
      example_resolver www

-- The zone's own name, after an invalidation of a name below it.
apex_above :
    (in_zone www (codes "example") ≡ true) × (in_zone (codes "example") (codes "example") ≡ true)
unfolding in_zone has_suffix bytes_eq
apex_above = (refl, refl)

lookup_name_cached-invalidate_example :
    (lookup_name_cached by_length keys by_length keys
      (invalidate by_length keys by_length keys resolver (codes "example") www)
      5
      example_resolver
      (codes "example")
      (codes "example")).1
    ≡ example_resolver.lookup_name (codes "example") (codes "example")
lookup_name_cached-invalidate_example =
    lookup_name_cached-invalidate by_length keys by_length keys resolver (codes "example") b'w'
      (codes "ww.example") 5 example_resolver (codes "example") apex_above.0 apex_above.1

abbrev broken : Bytes
broken = 1 ∷ 2 ∷ 1 ∷ 0 ∷ 0 ∷ 9 ∷ []

parse_message-form_err_example :
    (m : Message) × (parse_message (form_err broken) ≡ ok m)
    × (m.header.id ≡ u16_at broken 0)
    × (m.header.flags / 32768 ≡ 1)
    × (opcode m ≡ 0)
    × (m.header.flags / 256 % 2 ≡ 1)
    × (rcode m ≡ 1)
    × (m.questions ≡ [])
    × (m.answers ≡ [])
parse_message-form_err_example = parse_message-form_err broken (omega arith)

abbrev reflected : Bytes
reflected = 1 ∷ 2 ∷ 0x81 ∷ 0 ∷ 0 ∷ 9 ∷ 0 ∷ 0 ∷ 0 ∷ 0 ∷ 0 ∷ 0 ∷ []

serve_udp-response_example : serve_udp ⦃u = ascii⦄ example_resolver reflected 3 ≡ (none, 3)
serve_udp-response_example =
    serve_udp-response ⦃u = ascii⦄ example_resolver reflected 3 (omega arith) (omega arith)
      (omega arith)
