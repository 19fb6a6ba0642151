-- ===== src/Node/Runs.antt =====
-- Runs of a node: look-ups in any order with changes of the store, each followed by its notification.
use shard_dns.Cache.{Shard, new_cache}
use shard_dns.Cached.{
  CachedResolver, new_cached_resolver, find_zone_cached, lookup_name_cached, invalidate,
}
use shard_dns.Handler.{in_zone}
use shard_dns.Node.Chain.{HasNoZero}
use shard_dns.Node.Coherent.{quiet, IsCoherent, invalidate-IsCoherent, invalidate-IsCoherent_zone}
use shard_dns.Node.Reads.{
  lookup_name_cached-IsCoherent, lookup_name_cached-answer, find_zone_cached-IsCoherent,
  find_zone_cached-answer,
}
use shard_dns.Node.{ChangeKind, kind_zone, kind_record, store_resolver, on_change}
use shard_dns.Prelude.Int.{ℤ}
use shard_dns.Prelude.Text.{GoRuntime}
use shard_dns.Store.Below.{HasReverses}
use shard_dns.Store.Lookup.{delete_zone-records, create_zone-records, update_zone-records}
use shard_dns.Store.RecordTable.{create_record, delete_record, lookup_name}
use shard_dns.Store.Untouched.{IsChange, select-All, create_record-IsChange, delete_record-IsChange}
use shard_dns.Store.ZoneTable.{find_zone, create_zone, update_zone, delete_zone}
use shard_dns.Store.{Tables, normalize_zone, normalize_name, reverse_name}
use shard_dns.Zones.{Zone, Record, NameSet}
use shard_dns.Prelude.{ℕ, Bool, true, not, Option, List, [], ◌≡◌, refl, Bytes, bytes_eq, ok}

pub record Node : Type 0 where
  pub db : Tables
  pub caches : CachedResolver

-- A node as it starts: the store as it is, and empty caches.
abbrev pub started : Tables → ℕ → ℤ → Node
started db max_entries ttl = record { db = db; caches = new_cached_resolver max_entries ttl }

module _ ⦃u : GoRuntime⦄ (zone_hash : Bytes → ℕ) (zone_order : Shard (Option Zone) → List Bytes)
    (name_hash : Bytes → ℕ) (name_order : Shard NameSet → List Bytes) (md5 : Bytes → Bytes) where
  abbrev told : CachedResolver → ChangeKind → Bytes → Bytes → CachedResolver
  told = on_change zone_hash zone_order name_hash name_order

  -- A look-up, with any failures of the store, or a successful change and its notification.
  pub data Step (s t : Node) : Type 0 where
    asked_name :
        (now : ℕ) (faults : ℕ → Bool) (z n : Bytes)
        → HasNoZero z
        → t ≡ record s {
          caches =
              (lookup_name_cached zone_hash zone_order name_hash name_order s.caches now
                (store_resolver faults s.db)
                z
                n).0;
        }
        → Step s t
    asked_zone :
        (now : ℕ) (faults : ℕ → Bool) (q : Bytes)
        → t ≡ record s {
          caches =
              (find_zone_cached zone_hash zone_order name_hash name_order s.caches now
                (store_resolver faults s.db)
                q).0;
        }
        → Step s t
    record_created :
        (faults : ℕ → Bool) (now : ℤ) (r out : Record)
        → create_record faults md5 now s.db r ≡ ok (t.db, out)
        → t.caches
          ≡ told s.caches kind_record
              (normalize_zone r.zone)
              (normalize_name (normalize_zone r.zone) r.name)
        → Step s t
    record_deleted :
        (faults : ℕ → Bool) (now : ℤ) (z n ty d : Bytes)
        → delete_record faults md5 now s.db z n ty d ≡ ok t.db
        → t.caches
          ≡ told s.caches kind_record (normalize_zone z) (normalize_name (normalize_zone z) n)
        → Step s t
    zone_created :
        (faults : ℕ → Bool) (now : ℤ) (z out : Zone)
        → create_zone faults now s.db z ≡ ok (t.db, out)
        → t.caches ≡ told s.caches kind_zone out.name []
        → Step s t
    zone_updated :
        (faults : ℕ → Bool) (now : ℤ) (z out : Zone)
        → update_zone faults now s.db z ≡ ok (t.db, out)
        → t.caches ≡ told s.caches kind_zone out.name []
        → Step s t
    zone_deleted :
        (faults : ℕ → Bool) (name : Bytes)
        → delete_zone faults s.db name ≡ ok t.db
        → t.caches ≡ told s.caches kind_zone (normalize_zone name) []
        → Step s t

  pub data Reach (s : Node) : Node → Type 0 where
    here : Reach s s
    next : {t v : Node} → Reach s t → Step t v → Reach s v

  abbrev Coherent : Tables → CachedResolver → Type 0
  Coherent = IsCoherent zone_hash zone_order name_hash name_order

  record IsSound (s : Node) : Type 0 where
    reverses : HasReverses s.db.records
    coherent : Coherent s.db s.caches

  -- A change of the zones' rows alone.
  same_records-IsChange :
      (zone name : Bytes) (db db' : Tables) → db'.records ≡ db.records → IsChange zone name db db'
  same_records-IsChange zone name db db' e = record {
    differs = λ q off. rw e refl;
    reverses = λ h. rw e h;
  }

  changed-IsSound :
      (s t : Node) (kind : ChangeKind) (zone name : Bytes)
      → IsChange zone name s.db t.db
      → t.caches ≡ invalidate zone_hash zone_order name_hash name_order s.caches zone name
      → IsSound s
      → IsSound t
  changed-IsSound s t kind zone name change e h = record {
    reverses = change.reverses h.reverses;
    coherent = rw e (
        invalidate-IsCoherent zone_hash zone_order name_hash name_order s.db t.db s.caches zone name
          h.reverses change h.coherent);
  }

  Step-IsSound : {s t : Node} → Step s t → IsSound s → IsSound t
  unfolding on_change
  Step-IsSound {s} {t} (asked_name now faults z n nz e) h = rw e (record {
    reverses = h.reverses;
    coherent =
        lookup_name_cached-IsCoherent zone_hash zone_order name_hash name_order s.db s.caches now
          faults z n nz h.coherent;
  })
  Step-IsSound {s} {t} (asked_zone now faults q e) h = rw e (record {
    reverses = h.reverses;
    coherent =
        find_zone_cached-IsCoherent zone_hash zone_order name_hash name_order s.db s.caches now
          faults q h.coherent;
  })
  Step-IsSound {s} {t} (record_created faults now r out made e) h =
      changed-IsSound s t kind_record _ _ (create_record-IsChange faults md5 now s.db r made) e h
  Step-IsSound {s} {t} (record_deleted faults now z n ty d made e) h =
      changed-IsSound s t kind_record _ _ (delete_record-IsChange faults md5 now s.db z n ty d made)
        e h
  Step-IsSound {s} {t} (zone_created faults now z out made e) h =
      changed-IsSound s t kind_zone out.name []
        (same_records-IsChange out.name [] s.db t.db (create_zone-records faults now s.db z made)) e
        h
  Step-IsSound {s} {t} (zone_updated faults now z out made e) h =
      changed-IsSound s t kind_zone out.name []
        (same_records-IsChange out.name [] s.db t.db (update_zone-records faults now s.db z made)) e
        h
  Step-IsSound {s} {t} (zone_deleted faults name made e) h =
      let left = delete_zone-records faults s.db name made in
      record {
        reverses = rw left (
            select-All (λ r. r.name_rev ≡ reverse_name r.name)
              (λ r. not (bytes_eq r.zone (normalize_zone name))) s.db.records h.reverses);
        coherent = rw e (
            invalidate-IsCoherent_zone zone_hash zone_order name_hash name_order s.db t.db s.caches
              (normalize_zone name) h.reverses left h.coherent);
      }

  Reach-IsSound : {s t : Node} → Reach s t → IsSound s → IsSound t
  Reach-IsSound here h = h
  Reach-IsSound (next r st) h = Step-IsSound st (Reach-IsSound r h)

  started-IsSound :
      (db : Tables) (max_entries : ℕ) (ttl : ℤ)
      → HasReverses db.records
      → IsSound (started db max_entries ttl)
  unfolding new_cached_resolver new_cache
  started-IsSound db max_entries ttl h = record {
    reverses = h;
    coherent = record {
      names = record { entries = λ i. tt };
      zones = record { entries = λ i. tt };
    };
  }

  -- A node that starts with empty caches, on records that keep the reverses of their names, answers
  -- after any run, when the database does not fail then, as its store does: the look-up of every
  -- name in a zone without a zero byte, and the search for the zone of a name.
  pub answers-Reach :
      (db : Tables) (max_entries : ℕ) (ttl : ℤ) {t : Node}
      → HasReverses db.records
      → Reach (started db max_entries ttl) t
      → (now : ℕ) (z n q : Bytes) → HasNoZero z
      → in_zone n z ≡ true
      → ((lookup_name_cached zone_hash zone_order name_hash name_order t.caches now
            (store_resolver quiet t.db)
            z
            n).1
          ≡ lookup_name quiet t.db z n)
        × ((find_zone_cached zone_hash zone_order name_hash name_order t.caches now
              (store_resolver quiet t.db)
              q).1
            ≡ find_zone quiet t.db q)
  answers-Reach db max_entries ttl {t} rev run now z n q nz inside =
      let h = Reach-IsSound run (started-IsSound db max_entries ttl rev) in
      (
        lookup_name_cached-answer zone_hash zone_order name_hash name_order t.db t.caches now z n nz
            inside h.coherent,
        find_zone_cached-answer zone_hash zone_order name_hash name_order t.db t.caches now q
            h.coherent,
      )
