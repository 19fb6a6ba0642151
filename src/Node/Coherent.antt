-- ===== src/Node/Coherent.antt =====
-- Caches that agree with the store, and the invalidations of internal/store/cached.go after a change.
use shard_dns.Cache.Contents.{
  IsFilled, IsFilled-impl, delete-IsFilled, delete_group-IsFilled, clear-IsFilled,
}
use shard_dns.Cache.{Cache, Shard, delete, delete_group}
use shard_dns.Cached.{
  CachedResolver, name_key, zone_or_missing, until_zone, delete_names, invalidate,
}
use shard_dns.Handler.Lookup.{enclosers}
use shard_dns.Handler.{in_zone}
use shard_dns.Node.Chain.{affected-in_list, HasNoZero}
use shard_dns.Prelude.Text.{GoRuntime}
use shard_dns.Store.Below.{HasReverses}
use shard_dns.Store.RecordTable.{lookup_name}
use shard_dns.Store.Lookup.{affected, lookup_name-IsChange, lookup_name-delete_zone}
use shard_dns.Store.Untouched.{IsChange}
use shard_dns.Store.ZoneTable.{find_zone, in_list}
use shard_dns.Store.{Tables}
use shard_dns.Zones.{Zone, NameSet}
use shard_dns.Prelude.{
  ℕ, Bool, true, false, Option, List, [], ◌∷◌, ◌≡◌, ◌≢◌, sym, ap, ◌∙◌, Bytes, bytes_eq,
  bytes_eq_iff, is_empty, select, not, Bool-cases, inl, inr, ok,
}

-- A database that does not fail.
abbrev pub quiet : ℕ → Bool
quiet i = false

module _ ⦃u : GoRuntime⦄ where
  -- An entry of the cache of names is of its zone's group, and holds what the store answers.
  abbrev pub NameHolds : Tables → Bytes → Bytes → NameSet → Type 0
  NameHolds db k g v =
      (z n : Bytes)
      → HasNoZero z
      → k ≡ name_key z n
      → (g ≡ z) × (in_zone n z ≡ true → lookup_name quiet db z n ≡ ok v)

  abbrev pub ZoneHolds : Tables → Bytes → Bytes → Option Zone → Type 0
  ZoneHolds db k g v = find_zone quiet db k ≡ zone_or_missing v

  module _ (zone_hash : Bytes → ℕ) (zone_order : Shard (Option Zone) → List Bytes)
      (name_hash : Bytes → ℕ) (name_order : Shard NameSet → List Bytes) where
    pub record IsCoherent (db : Tables) (c : CachedResolver) : Type 0 where
      pub names : IsFilled name_hash name_order (NameHolds db) c.names
      pub zones : IsFilled zone_hash zone_order (ZoneHolds db) c.zones

    delete_names-IsFilled :
        (good : Bytes → Bytes → NameSet → Type 0) (c : Cache NameSet) (zone : Bytes)
        (ns : List Bytes)
        → IsFilled name_hash name_order good c
        → IsFilled name_hash name_order
            (λ k g v. ((n : Bytes) → in_list n ns ≡ true → name_key zone n ≢ k) × good k g v)
            (delete_names zone_hash zone_order name_hash name_order c zone ns)
    unfolding delete_names in_list
    delete_names-IsFilled good c zone [] h =
        IsFilled-impl name_hash name_order c (λ k g v p. ((λ n i. cc), p)) h
    delete_names-IsFilled good c zone (m ∷ ns) h =
        let rest =
          delete_names-IsFilled (λ k g v. (name_key zone m ≢ k) × good k g v)
            (delete name_hash name_order c (name_key zone m)) zone ns
            (delete-IsFilled name_hash name_order good c (name_key zone m) h) in
        IsFilled-impl name_hash name_order _
          (λ k g v p. (
            (λ n i. elim (Bool-cases (bytes_eq n m)) [
              | inl t ↦ rw ((bytes_eq_iff n m).0 t) p.1.0
              | inr t ↦ p.0 n (rw t at i)
            ]),
            p.1.1,
          ))
          rest

    -- What an entry held still holds, when the change cannot alter its place.
    NameHolds-IsChange :
        (db db' : Tables) (zone name : Bytes)
        → HasReverses db.records
        → IsChange zone name db db'
        → (k g : Bytes) (v : NameSet) → NameHolds db k g v
        → ((z n : Bytes)
            → HasNoZero z
            → k ≡ name_key z n
            → in_zone n z ≡ true
            → affected zone name z n ≢ true)
        → NameHolds db' k g v
    NameHolds-IsChange db db' zone name rev change k g v holds far z n nz e =
        let (same, answers) = holds z n nz e in
        (
          same,
          λ inside. elim (Bool-cases (affected zone name z n)) [
            | inl t ↦ absurd (far z n nz e inside t)
            | inr t ↦ lookup_name-IsChange quiet zone name db db' z n change rev t ∙ answers inside
          ],
        )

    -- After a change at a name and the invalidation that goes with it, the caches hold what the
    -- changed store answers.
    pub invalidate-IsCoherent :
        (db db' : Tables) (c : CachedResolver) (zone name : Bytes)
        → HasReverses db.records
        → IsChange zone name db db'
        → IsCoherent db c
        → IsCoherent db' (invalidate zone_hash zone_order name_hash name_order c zone name)
    unfolding invalidate
    invalidate-IsCoherent db db' c zone name rev change h = record {
      zones = clear-IsFilled zone_hash zone_order (ZoneHolds db') c.zones;
      names = elim (Bool-cases (is_empty name)) [
        | inl e ↦ rw e (
            IsFilled-impl name_hash name_order (delete_group c.names zone)
              (λ k g v p.
                NameHolds-IsChange db db' zone name rev change k g v p.1 (λ z n nz at inside t.
                  p.0 ((affected-in_list zone name z n t inside).0 ∙ sym (p.1 z n nz at).0)))
              (delete_group-IsFilled name_hash name_order (NameHolds db) c.names zone h.names))
        | inr e ↦ rw e (
            IsFilled-impl name_hash name_order
              (delete_names zone_hash zone_order name_hash name_order c.names zone
                (until_zone zone (name ∷ enclosers name)))
              (λ k g v p.
                NameHolds-IsChange db db' zone name rev change k g v p.1 (λ z n nz at inside t.
                  let (same, on_chain) = affected-in_list zone name z n t inside in
                  p.0 n on_chain (ap (λ x. name_key x n) same ∙ sym at)))
              (delete_names-IsFilled (NameHolds db) c.names zone
                (until_zone zone (name ∷ enclosers name)) h.names))
      ];
    }

    -- The same after a zone was deleted with its records.
    pub invalidate-IsCoherent_zone :
        (db db' : Tables) (c : CachedResolver) (zone : Bytes)
        → HasReverses db.records
        → db'.records ≡ select (λ r. not (bytes_eq r.zone zone)) db.records
        → IsCoherent db c
        → IsCoherent db' (invalidate zone_hash zone_order name_hash name_order c zone [])
    unfolding invalidate
    invalidate-IsCoherent_zone db db' c zone rev same h = record {
      zones = clear-IsFilled zone_hash zone_order (ZoneHolds db') c.zones;
      names =
          IsFilled-impl name_hash name_order (delete_group c.names zone)
            (λ k g v p z n nz e.
              let (at, answers) = p.1 z n nz e in
              (
                at,
                λ inside.
                    lookup_name-delete_zone quiet db db' zone z n same rev (λ q. p.0 (q ∙ sym at))
                    ∙ answers inside,
              ))
            (delete_group-IsFilled name_hash name_order (NameHolds db) c.names zone h.names);
    }
