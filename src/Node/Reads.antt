-- ===== src/Node/Reads.antt =====
-- What a look-up answers and leaves in caches that agree with the store.
use shard_dns.Node.Coherent.{quiet, NameHolds, ZoneHolds, IsCoherent}
use mathlib.Core.Path.{subst₂}
use shard_dns.Cache.Contents.{get-IsFilled, kept-IsFilled, set-IsFilled}
use shard_dns.Cache.{Shard, get}
use shard_dns.Cached.Fresh.{lookup_name_cached-miss, find_zone_cached-miss}
use shard_dns.Cached.{
  CachedResolver, name_key, zone_or_missing, store_zone, load_zone, after_zone_get,
  find_zone_cached, load_name, after_name_get, lookup_name_cached,
}
use shard_dns.Handler.{in_zone}
use shard_dns.Node.Chain.{HasNoZero, name_key-injective}
use shard_dns.Node.{store_resolver}
use shard_dns.Prelude.Text.{GoRuntime}
use shard_dns.Store.RecordTable.{at_name_row, lookup_name}
use shard_dns.Store.ZoneTable.{find_zone, candidates}
use shard_dns.Store.{Tables, collect_records, normalize_zone}
use shard_dns.Zones.{StoreError, not_found, conflict, failure, Zone, NameSet, Resolver}
use shard_dns.Prelude.{
  ℕ, Bool, true, Option, none, some, List, [], ◌≡◌, ◌≢◌, refl, sym, ◌∙◌, Bytes, is_empty, select,
  Bool-cases, Option-cases, inl, inr, Outcome, ok, err,
}

module _ ⦃u : GoRuntime⦄ where
  module _ (zone_hash : Bytes → ℕ) (zone_order : Shard (Option Zone) → List Bytes)
      (name_hash : Bytes → ℕ) (name_order : Shard NameSet → List Bytes) where
    abbrev Coherent : Tables → CachedResolver → Type 0
    Coherent = IsCoherent zone_hash zone_order name_hash name_order

    load_name-IsCoherent :
        (db : Tables) (c : CachedResolver) (now : ℕ) (z n : Bytes) (r : Outcome StoreError NameSet)
        → HasNoZero z
        → ((v : NameSet) → r ≡ ok v → lookup_name quiet db z n ≡ ok v)
        → Coherent db c
        → Coherent db (load_name zone_hash zone_order name_hash name_order c now z n r).0
    unfolding load_name
    load_name-IsCoherent db c now z n (err e) nz same h = h
    load_name-IsCoherent db c now z n (ok v) nz same h = record {
      zones = h.zones;
      names =
          set-IsFilled name_hash name_order (NameHolds db) c.names now (name_key z n) z v
            c.names.epoch
            (λ z' n' nz' e.
              let (a, b) = name_key-injective z z' n n' nz nz' e in
              (a, λ _. subst₂ (λ x y. lookup_name quiet db x y ≡ ok v) a b (same v refl)))
            h.names;
    }

    lookup_name-quiet :
        (faults : ℕ → Bool) (db : Tables) (z n : Bytes) (v : NameSet)
        → lookup_name faults db z n ≡ ok v
        → lookup_name quiet db z n ≡ ok v
    unfolding lookup_name
    lookup_name-quiet faults db z n v h =
        let records = collect_records (select (at_name_row z n) db.records) in
        elim (Bool-cases (faults 0)) [
          | inl e ↦ absurd (let f : err failure ≡ ok v = rw e at h in cc)
          | inr e ↦ elim (Bool-cases (is_empty records)) [
            | inr t ↦ rw t (rw (e, t) at h)
            | inl t ↦ elim (Bool-cases (faults 1)) [
              | inl x ↦ absurd (let f : err failure ≡ ok v = rw (e, t, x) at h in cc)
              | inr x ↦ rw t (rw (e, t, x) at h)
            ]
          ]
        ]

    -- A look-up leaves the caches with what the store answers.
    pub lookup_name_cached-IsCoherent :
        (db : Tables) (c : CachedResolver) (now : ℕ) (faults : ℕ → Bool) (z n : Bytes)
        → HasNoZero z
        → Coherent db c
        → Coherent db
            (lookup_name_cached zone_hash zone_order name_hash name_order c now
              (store_resolver faults db)
              z
              n).0
    unfolding lookup_name_cached after_name_get store_resolver
    lookup_name_cached-IsCoherent db c now faults z n nz h =
        let hit = get name_hash name_order c.names now (name_key z n) in
        let c' : CachedResolver = record c { names = hit.0 } in
        let h' : Coherent db c' = record {
          zones = h.zones;
          names =
              kept-IsFilled name_hash name_order (NameHolds db) c.names now (name_key z n) h.names;
        } in
        elim (Option-cases hit.1) [
          | inl e ↦ rw e (
              load_name-IsCoherent db c' now z n (lookup_name faults db z n) nz
                (lookup_name-quiet faults db z n) h')
          | inr (v, e) ↦ rw e h'
        ]

    lookup_name_cached-hit :
        (c : CachedResolver) (now : ℕ) (next : Resolver) (z n : Bytes) {v : NameSet}
        → (get name_hash name_order c.names now (name_key z n)).1 ≡ some v
        → (lookup_name_cached zone_hash zone_order name_hash name_order c now next z n).1 ≡ ok v
    unfolding lookup_name_cached after_name_get
    lookup_name_cached-hit c now next z n e = rw e refl

    -- With a store that does not fail, a look-up of a name of the zone is answered as by the store.
    pub lookup_name_cached-answer :
        (db : Tables) (c : CachedResolver) (now : ℕ) (z n : Bytes)
        → HasNoZero z
        → in_zone n z ≡ true
        → Coherent db c
        → (lookup_name_cached zone_hash zone_order name_hash name_order c now
            (store_resolver quiet db)
            z
            n).1
          ≡ lookup_name quiet db z n
    lookup_name_cached-answer db c now z n nz inside h =
        elim (Option-cases (get name_hash name_order c.names now (name_key z n)).1) [
          | inl e ↦
              lookup_name_cached-miss zone_hash zone_order name_hash name_order c now
                (store_resolver quiet db) z n e
              ∙ (unfold store_resolver in refl)
          | inr (v, e) ↦
              let (g, holds) =
                get-IsFilled name_hash name_order (NameHolds db) c.names now (name_key z n) h.names
                  e in
              lookup_name_cached-hit c now (store_resolver quiet db) z n e
              ∙ sym ((holds z n nz refl).1 inside)
        ]

    -- The same for zones: a zone that is missing is held as `none`.
    load_zone-IsCoherent :
        (db : Tables) (c : CachedResolver) (now : ℕ) (q : Bytes) (r : Outcome StoreError Zone)
        → (r ≢ err failure → find_zone quiet db q ≡ r)
        → Coherent db c
        → Coherent db (load_zone zone_hash zone_order name_hash name_order c now q r).0
    unfolding load_zone store_zone zone_or_missing
    load_zone-IsCoherent db c now q (ok z) same h = record {
      zones =
          set-IsFilled zone_hash zone_order (ZoneHolds db) c.zones now q [] (some z) c.zones.epoch
            (same (λ e. cc)) h.zones;
      names = h.names;
    }
    load_zone-IsCoherent db c now q (err not_found) same h = record {
      zones =
          set-IsFilled zone_hash zone_order (ZoneHolds db) c.zones now q [] none c.zones.epoch
            (same (λ e. cc)) h.zones;
      names = h.names;
    }
    load_zone-IsCoherent db c now q (err conflict) same h = h
    load_zone-IsCoherent db c now q (err failure) same h = h

    find_zone-quiet :
        (faults : ℕ → Bool) (db : Tables) (q : Bytes)
        → find_zone faults db q ≢ err failure
        → find_zone quiet db q ≡ find_zone faults db q
    unfolding find_zone
    find_zone-quiet faults db q works =
        elim (Bool-cases (is_empty (candidates (normalize_zone q)))) [
          | inl t ↦ rw t refl
          | inr t ↦ elim (Bool-cases (faults 0)) [
            | inl e ↦ absurd (works (rw (t, e) refl))
            | inr e ↦ rw (t, e) refl
          ]
        ]

    pub find_zone_cached-IsCoherent :
        (db : Tables) (c : CachedResolver) (now : ℕ) (faults : ℕ → Bool) (q : Bytes)
        → Coherent db c
        → Coherent db
            (find_zone_cached zone_hash zone_order name_hash name_order c now
              (store_resolver faults db)
              q).0
    unfolding find_zone_cached after_zone_get store_resolver
    find_zone_cached-IsCoherent db c now faults q h =
        let hit = get zone_hash zone_order c.zones now q in
        let c' : CachedResolver = record c { zones = hit.0 } in
        let h' : Coherent db c' = record {
          zones = kept-IsFilled zone_hash zone_order (ZoneHolds db) c.zones now q h.zones;
          names = h.names;
        } in
        elim (Option-cases hit.1) [
          | inl e ↦ rw e (
              load_zone-IsCoherent db c' now q (find_zone faults db q) (find_zone-quiet faults db q)
                h')
          | inr (v, e) ↦ rw e h'
        ]

    find_zone_cached-hit :
        (c : CachedResolver) (now : ℕ) (next : Resolver) (q : Bytes) {v : Option Zone}
        → (get zone_hash zone_order c.zones now q).1 ≡ some v
        → (find_zone_cached zone_hash zone_order name_hash name_order c now next q).1
          ≡ zone_or_missing v
    unfolding find_zone_cached after_zone_get
    find_zone_cached-hit c now next q e = rw e refl

    pub find_zone_cached-answer :
        (db : Tables) (c : CachedResolver) (now : ℕ) (q : Bytes)
        → Coherent db c
        → (find_zone_cached zone_hash zone_order name_hash name_order c now
            (store_resolver quiet db)
            q).1
          ≡ find_zone quiet db q
    find_zone_cached-answer db c now q h =
        elim (Option-cases (get zone_hash zone_order c.zones now q).1) [
          | inl e ↦
              find_zone_cached-miss zone_hash zone_order name_hash name_order c now
                (store_resolver quiet db) q e
              ∙ (unfold store_resolver in refl)
          | inr (v, e) ↦
              find_zone_cached-hit c now (store_resolver quiet db) q e
              ∙ sym (get-IsFilled zone_hash zone_order (ZoneHolds db) c.zones now q h.zones e).1
        ]
