-- ===== src/Cached/Fresh.antt =====
-- After an invalidation the resolver behind the caches is asked again, and until then it is not.
use mathlib.Core.Path.{subst}
use shard_dns.Cache.Shard.{find-erase, find-erase_other, key-cases}
use shard_dns.Cache.{Cache, Shard, find, get, read_entry, shard_for, clear, delete, with_shard}
use shard_dns.Cached.{
  CachedResolver, name_key, load_zone, after_zone_get, find_zone_cached, load_name, after_name_get,
  lookup_name_cached, until_zone, delete_names, invalidate,
}
use shard_dns.Handler.Lookup.{enclosers}
use shard_dns.Handler.{in_zone}
use shard_dns.Node.Chain.{chain-until_zone}
use shard_dns.Store.ZoneTable.{in_list}
use shard_dns.Zones.{StoreError, not_found, conflict, failure, Zone, NameSet, Resolver}
use shard_dns.Prelude.{
  ℕ, Option, none, List, [], ◌∷◌, ◌≡◌, ◌∙◌, refl, arith, Bytes, true, sym, bytes_eq, ◌==◌, ==_iff,
  Bool-cases, inl, inr, Outcome, ok, err, All, bytes_eq_iff,
}

All-impl :
    {P Q : Bytes → Type 0} (ns : List Bytes) → ((n : Bytes) → P n → Q n) → All P ns → All Q ns
All-impl [] f h = tt
All-impl (n ∷ ns) f h = (f n h.0, All-impl ns f h.1)

in_list-All :
    (P : Bytes → Type 0) (n : Bytes) (ns : List Bytes) → in_list n ns ≡ true → All P ns → P n
unfolding in_list
in_list-All P n [] h a = absurd cc
in_list-All P n (m ∷ ns) h a = elim (Bool-cases (bytes_eq n m)) [
  | inl e ↦ subst P (sym ((bytes_eq_iff n m).0 e)) a.0
  | inr e ↦ in_list-All P n ns (rw e at h) a.1
]

module _ {V : Type 0} (hash : Bytes → ℕ) (order : Shard V → List Bytes) where
  -- The key has no entry at all.
  abbrev Absent : Cache V → Bytes → Type 0
  Absent c key = find key (c.shards (shard_for hash order key)) ≡ none

  get-Absent :
      (c : Cache V) (now : ℕ) (key : Bytes) → Absent c key → (get hash order c now key).1 ≡ none
  unfolding get read_entry
  get-Absent c now key h = rw h refl

  Absent-delete : (c : Cache V) (key : Bytes) → Absent (delete hash order c key) key
  unfolding delete with_shard
  Absent-delete c key =
      let here : (shard_for hash order key == shard_for hash order key) ≡ true = ground arith in
      rw here (find-erase key (c.shards (shard_for hash order key)))

  Absent-delete_other :
      (c : Cache V) (key other : Bytes) → Absent c other → Absent (delete hash order c key) other
  unfolding delete with_shard
  Absent-delete_other c key other h =
      elim (Bool-cases (shard_for hash order other == shard_for hash order key)) [
        | inl e ↦
            let same = (==_iff (shard_for hash order other) (shard_for hash order key)).0 e in
            elim (key-cases key other) [
              | inl k ↦ rw (e, k) (find-erase other (c.shards (shard_for hash order other)))
              | inr k ↦ rw e (
                  find-erase_other key other (c.shards (shard_for hash order key))
                    (λ q. let t = (bytes_eq_iff key other).1 q in cc)
                  ∙ rw same at h)
            ]
        | inr e ↦ rw e h
      ]

module _ (zone_hash : Bytes → ℕ) (zone_order : Shard (Option Zone) → List Bytes)
    (name_hash : Bytes → ℕ) (name_order : Shard NameSet → List Bytes) where
  load_zone-answer :
      (c : CachedResolver) (now : ℕ) (qname : Bytes) (r : Outcome StoreError Zone)
      → (load_zone zone_hash zone_order name_hash name_order c now qname r).1 ≡ r
  unfolding load_zone
  load_zone-answer c now qname (ok z) = refl
  load_zone-answer c now qname (err not_found) = refl
  load_zone-answer c now qname (err conflict) = refl
  load_zone-answer c now qname (err failure) = refl

  pub find_zone_cached-miss :
      (c : CachedResolver) (now : ℕ) (next : Resolver) (qname : Bytes)
      → (get zone_hash zone_order c.zones now qname).1 ≡ none
      → (find_zone_cached zone_hash zone_order name_hash name_order c now next qname).1
        ≡ next.find_zone qname
  unfolding find_zone_cached after_zone_get
  find_zone_cached-miss c now next qname miss = rw miss (
      load_zone-answer (record c { zones = (get zone_hash zone_order c.zones now qname).0 }) now
        qname (next.find_zone qname))

  -- After an invalidation, of whatever zone and name, a zone is what the resolver behind the caches
  -- finds.
  pub find_zone_cached-invalidate :
      (c : CachedResolver) (zone name : Bytes) (now : ℕ) (next : Resolver) (qname : Bytes)
      → (find_zone_cached zone_hash zone_order name_hash name_order
          (invalidate zone_hash zone_order name_hash name_order c zone name)
          now
          next
          qname).1
        ≡ next.find_zone qname
  find_zone_cached-invalidate c zone name now next qname =
      find_zone_cached-miss (invalidate zone_hash zone_order name_hash name_order c zone name) now
        next qname
        (unfold invalidate in
          get-Absent zone_hash zone_order (clear c.zones) now qname (unfold find clear in refl))

  load_name-answer :
      (c : CachedResolver) (now : ℕ) (zone name : Bytes) (r : Outcome StoreError NameSet)
      → (load_name zone_hash zone_order name_hash name_order c now zone name r).1 ≡ r
  unfolding load_name
  load_name-answer c now zone name (ok found) = refl
  load_name-answer c now zone name (err e) = refl

  Absent-delete_names :
      (c : Cache NameSet) (zone : Bytes) (ns : List Bytes) (key : Bytes)
      → Absent name_hash name_order c key
      → Absent name_hash name_order
          (delete_names zone_hash zone_order name_hash name_order c zone ns)
          key
  unfolding delete_names
  Absent-delete_names c zone [] key h = h
  Absent-delete_names c zone (n ∷ ns) key h =
      Absent-delete_names (delete name_hash name_order c (name_key zone n)) zone ns key
        (Absent-delete_other name_hash name_order c (name_key zone n) key h)

  delete_names-Absent :
      (c : Cache NameSet) (zone : Bytes) (ns : List Bytes)
      → All
          (λ n.
            Absent name_hash name_order
              (delete_names zone_hash zone_order name_hash name_order c zone ns)
              (name_key zone n))
          ns
  unfolding delete_names
  delete_names-Absent c zone [] = tt
  delete_names-Absent c zone (n ∷ ns) =
      let d = delete name_hash name_order c (name_key zone n) in
      (
        Absent-delete_names d zone ns (name_key zone n)
            (Absent-delete name_hash name_order c (name_key zone n)),
        delete_names-Absent d zone ns,
      )

  pub lookup_name_cached-miss :
      (c : CachedResolver) (now : ℕ) (next : Resolver) (zone name : Bytes)
      → (get name_hash name_order c.names now (name_key zone name)).1 ≡ none
      → (lookup_name_cached zone_hash zone_order name_hash name_order c now next zone name).1
        ≡ next.lookup_name zone name
  unfolding lookup_name_cached after_name_get
  lookup_name_cached-miss c now next zone name miss = rw miss (
      load_name-answer
        (record c { names = (get name_hash name_order c.names now (name_key zone name)).0 }) now
        zone name (next.lookup_name zone name))

  -- The names that are deleted are looked up behind the caches.
  deleted-fresh :
      (c : CachedResolver) (zone : Bytes) (b : ℕ) (bs : Bytes) (now : ℕ) (next : Resolver)
      → All
          (λ n.
            (lookup_name_cached zone_hash zone_order name_hash name_order
              (invalidate zone_hash zone_order name_hash name_order c zone (b ∷ bs))
              now
              next
              zone
              n).1
            ≡ next.lookup_name zone n)
          (until_zone zone ((b ∷ bs) ∷ enclosers (b ∷ bs)))
  deleted-fresh c zone b bs now next =
      let ns = until_zone zone ((b ∷ bs) ∷ enclosers (b ∷ bs)) in
      let after = invalidate zone_hash zone_order name_hash name_order c zone (b ∷ bs) in
      let fresh : (n : Bytes)
          → Absent name_hash name_order
              (delete_names zone_hash zone_order name_hash name_order c.names zone ns)
              (name_key zone n)
          → (lookup_name_cached zone_hash zone_order name_hash name_order after now next zone n).1
            ≡ next.lookup_name zone n =
        λ n h. lookup_name_cached-miss after now next zone n (
          unfold invalidate in
          get-Absent name_hash name_order
            (delete_names zone_hash zone_order name_hash name_order c.names zone ns) now
            (name_key zone n) h) in
      All-impl ns fresh (delete_names-Absent c.names zone ns)

  -- After an invalidation of a name that is not empty, the record sets of the name and of every name
  -- above it that is the zone's or below it, that is of each name which it ends in behind a dot, are
  -- what the resolver behind the caches finds.
  pub lookup_name_cached-invalidate :
      (c : CachedResolver) (zone : Bytes) (b : ℕ) (bs : Bytes) (now : ℕ) (next : Resolver)
      (n : Bytes)
      → in_zone (b ∷ bs) n ≡ true
      → in_zone n zone ≡ true
      → (lookup_name_cached zone_hash zone_order name_hash name_order
          (invalidate zone_hash zone_order name_hash name_order c zone (b ∷ bs))
          now
          next
          zone
          n).1
        ≡ next.lookup_name zone n
  lookup_name_cached-invalidate c zone b bs now next n above inside =
      in_list-All _ n (until_zone zone ((b ∷ bs) ∷ enclosers (b ∷ bs)))
        (chain-until_zone zone (b ∷ bs) n above inside) (deleted-fresh c zone b bs now next)
