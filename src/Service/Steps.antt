-- ===== src/Service/Steps.antt =====
-- The calls of internal/api/service.go at a node, with the notifier of cmd/sharddnsd/main.go.
use shard_dns.Cache.{Shard}
use shard_dns.Cached.{CachedResolver}
use shard_dns.Node.Runs.{
  Node, Step, record_created, record_deleted, zone_created, zone_updated, zone_deleted,
}
use shard_dns.Node.{on_change}
use shard_dns.Prelude.Int.{ℤ}
use shard_dns.Prelude.Text.{GoRuntime, trim_space}
use shard_dns.Service.Requests.{
  Request, create_zone_of, update_zone_of, get_zone_of, delete_zone_of, list_zones_of,
  create_record_of, delete_record_of, list_records_of, get_records_of,
}
use shard_dns.Service.Normal.{requested_record-normal}
use shard_dns.Service.{
  Code, internal, failed_precondition, already_exists, ZoneRequest, CreateRecordRequest, Notice,
  Reply, after_change, after_read, after_tests, requested_zone, updated_zone, requested_record,
  create_zone_call, get_zone_call, update_zone_call, delete_zone_call, list_zones_call,
  create_record_call, delete_record_call, list_records_call, get_records_call, zone_notice,
}
use shard_dns.Store.RecordTable.{create_record, delete_record}
use shard_dns.Store.ZoneTable.{delete_zone}
use shard_dns.Store.{Tables, normalize_zone, normalize_name}
use shard_dns.Zones.{StoreError, Zone, NameSet}
use shard_dns.Prelude.{
  ℕ, Bool, Option, List, [], ◌∷◌, ◌≡◌, refl, Bytes, Outcome, ok, err, >>=-eq-ok, inl, inr, ◌⊎◌,
}

-- Are the zone and the name that a deletion names, in their normal form, their own normal forms?
abbrev pub IsSettled : ⦃u : GoRuntime⦄ → Request → Type 0
IsSettled (delete_zone_of n) = normalize_zone (normalize_zone n) ≡ normalize_zone n
IsSettled (delete_record_of z n t d) =
    (normalize_zone (normalize_zone z) ≡ normalize_zone z)
    × (normalize_name (normalize_zone z) (normalize_name (normalize_zone z) n)
        ≡ normalize_name (normalize_zone z) n)
IsSettled _ = Unit

module _ ⦃u : GoRuntime⦄ (zone_hash : Bytes → ℕ) (zone_order : Shard (Option Zone) → List Bytes)
    (name_hash : Bytes → ℕ) (name_order : Shard NameSet → List Bytes) (failed : Code)
    (md5 : Bytes → Bytes) where
  abbrev pub told_all : CachedResolver → List Notice → CachedResolver
  told_all c [] = c
  told_all c (n ∷ ns) =
      told_all (on_change zone_hash zone_order name_hash name_order c n.kind n.zone n.name) ns

  -- A node when the service has replied, and the notifier has told the caches.
  abbrev pub replied : {A : Type 0} → Node → Reply A → Node
  replied s r = record { db = r.db; caches = told_all s.caches r.notices }

  -- A call of the service, at some failures of the database and some time.
  abbrev pub call : (ℕ → ℕ → Bool) → ℤ → Request → Node → Node
  call faults now (create_zone_of m) s = replied s (create_zone_call failed md5 faults now s.db m)
  call faults now (update_zone_of m) s = replied s (update_zone_call failed md5 faults now s.db m)
  call faults now (get_zone_of n) s = replied s (get_zone_call failed md5 faults now s.db n)
  call faults now (delete_zone_of n) s = replied s (delete_zone_call failed md5 faults now s.db n)
  call faults now (list_zones_of before size t) s =
      replied s (list_zones_call failed md5 faults now s.db before size t)
  call faults now (create_record_of m) s =
      replied s (create_record_call failed md5 faults now s.db m)
  call faults now (delete_record_of z n t d) s =
      replied s (delete_record_call failed md5 faults now s.db z n t d)
  call faults now (list_records_of z size t) s =
      replied s (list_records_call failed md5 faults now s.db z size t)
  call faults now (get_records_of z n t) s =
      replied s (get_records_call failed md5 faults now s.db z n t)

  abbrev pub IsStepOrNothing : Node → Node → Type 0
  IsStepOrNothing s t = (t ≡ s) ⊎ Step zone_hash zone_order name_hash name_order md5 s t

  module _ (faults : ℕ → ℕ → Bool) (now : ℤ) (s : Node) where
    after_change-Step :
        {A : Type 0} (c : Code) (notice : A → Notice) (r : Outcome StoreError (Tables × A))
        → ((db' : Tables) (a : A)
            → r ≡ ok (db', a)
            → Step zone_hash zone_order name_hash name_order md5 s
                (record { db = db'; caches = told_all s.caches (notice a ∷ []) }))
        → IsStepOrNothing s (replied s (after_change failed md5 faults now s.db c notice r))
    unfolding after_change
    after_change-Step c notice (ok (db', a)) h = inr (h db' a refl)
    after_change-Step c notice (err e) h = inl refl

    after_read-Step :
        {A : Type 0} (r : Outcome StoreError A)
        → IsStepOrNothing s (replied s (after_read failed md5 faults now s.db r))
    unfolding after_read
    after_read-Step (ok a) = inl refl
    after_read-Step (err e) = inl refl

    after_tests-Step :
        {A B : Type 0} (r : Outcome Code A) (go : A → Reply B)
        → ((a : A) → r ≡ ok a → IsStepOrNothing s (replied s (go a)))
        → IsStepOrNothing s (replied s (after_tests failed md5 faults now s.db r go))
    unfolding after_tests
    after_tests-Step (ok a) go h = h a refl
    after_tests-Step (err c) go h = inl refl

    ruleset call_rules = (after_change-Step, after_read-Step, after_tests-Step)

    create_record_call-Step :
        (m : CreateRecordRequest) → IsStepOrNothing s (call faults now (create_record_of m) s)
    unfolding create_record_call
    create_record_call-Step m = after_tests-Step (requested_record m) _ (λ r e.
        let (zone, name) = requested_record-normal m e in
        after_change-Step failed_precondition _ (create_record (faults 0) md5 now s.db r)
          (λ db' a made. record_created (faults 0) now r a made (rw (zone, name) refl)))

    delete_record_call-Step :
        (z n t d : Bytes)
        → IsSettled (delete_record_of z n t d)
        → IsStepOrNothing s (call faults now (delete_record_of z n t d) s)
    unfolding delete_record_call
    delete_record_call-Step z n t d h = after_change-Step internal _ _ (λ db' a made.
        let (db'', removed, e) =
          >>=-eq-ok (delete_record (faults 0) md5 now s.db (normalize_zone z) _ t (trim_space d)) _
            made in
        let same : db'' ≡ db' = cc in
        record_deleted (faults 0) now (normalize_zone z) (normalize_name (normalize_zone z) n) t
          (trim_space d) (rw same at removed) (rw (h.0, h.1) refl))

    delete_zone_call-Step :
        (n : Bytes)
        → IsSettled (delete_zone_of n)
        → IsStepOrNothing s (call faults now (delete_zone_of n) s)
    unfolding delete_zone_call
    delete_zone_call-Step n h = after_change-Step internal _ _ (λ db' a made.
        let (db'', removed, e) =
          >>=-eq-ok (delete_zone (faults 0) s.db (normalize_zone n)) _ made in
        let same : db'' ≡ db' = cc in
        zone_deleted (faults 0) (normalize_zone n) (rw same at removed) (rw h refl))

    create_zone_call-Step :
        (m : ZoneRequest) → IsStepOrNothing s (call faults now (create_zone_of m) s)
    unfolding create_zone_call
    create_zone_call-Step m = after_tests-Step _ _ (λ _ e.
        after_change-Step already_exists zone_notice _
          (λ db' a made. zone_created (faults 0) now (requested_zone m) a made refl))

    update_zone_call-Step :
        (m : ZoneRequest) → IsStepOrNothing s (call faults now (update_zone_of m) s)
    unfolding update_zone_call
    update_zone_call-Step m = after_tests-Step _ _ (λ old e. after_tests-Step _ _ (λ _ f.
        after_change-Step internal zone_notice _
          (λ db' a made. zone_updated (faults 1) now (updated_zone m old) a made refl)))

    -- Every call of the service, whichever statements fail, leaves the node as it was or takes it one
    -- step, its change followed by the notification of the very zone and name that it changed. A
    -- deletion names a zone and a name whose normal forms are their own normal forms.
    pub call-Step : (req : Request) → IsSettled req → IsStepOrNothing s (call faults now req s)
    unfolding get_zone_call list_zones_call list_records_call get_records_call
    call-Step (create_zone_of m) h = create_zone_call-Step m
    call-Step (update_zone_of m) h = update_zone_call-Step m
    call-Step (get_zone_of n) h = after_read-Step _
    call-Step (delete_zone_of n) h = delete_zone_call-Step n h
    call-Step (list_zones_of before size t) h = after_read-Step _
    call-Step (create_record_of m) h = create_record_call-Step m
    call-Step (delete_record_of z n t d) h = delete_record_call-Step z n t d h
    call-Step (list_records_of z size t) h =
        after_tests-Step _ _ (λ _ e. after_tests-Step _ _ (λ a f. inl refl))
    call-Step (get_records_of z n t) h = after_read-Step _
