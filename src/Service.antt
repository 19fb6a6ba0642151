-- ===== src/Service.antt =====
-- internal/api/service.go: the calls of the management API over the store.
-- A call answers a value or a code, with the tables after it and the changes that it notified.
-- `faults i` are the failing statements of a call's store operation `i`. An error of the store that
-- is neither ErrNotFound nor ErrConflict has the code `failed`: canceled or deadline exceeded when
-- the context says so, and internal otherwise. Messages, logging and times are left out.
pub mod Requests
pub mod Plain
pub mod Normal
pub mod Steps
use shard_dns.Name.Validate.{NameFault, validate_name}
use shard_dns.Name.{PackError, pack_name}
use shard_dns.Node.{ChangeKind, kind_zone, kind_record}
use shard_dns.Prelude.Int.{ℤ, pos, negsuc, is_negative}
use shard_dns.Prelude.Text.{GoRuntime, to_lower, trim_space, replace_first}
use shard_dns.RData.Build.{build_rdata}
use shard_dns.RData.{RDataError, supported_type}
use shard_dns.Store.RecordTable.{create_record, delete_record, list_records, get_records}
use shard_dns.Store.ZoneTable.{create_zone, get_zone, update_zone, delete_zone, list_zones}
use shard_dns.Store.{Tables, normalize_zone, normalize_name, normalize_type}
use shard_dns.Wire.TypeNames.{type_code}
use shard_dns.Zones.{StoreError, not_found, conflict, failure, Zone, Record}
use shard_dns.Prelude.{
  ℕ, zero, suc, ◌+◌, Bool, true, false, not, ◌||◌, ltb, ◌==◌, if◌then◌else◌, Option, none, some,
  List, [], ◌∷◌, ◌++◌, Bytes, bytes_eq, codes, is_empty, Outcome, ok, err, ◌>>=◌, ◌>>◌, guard,
  map_err,
}

pub data Code : Type 0 where
  invalid_argument code_not_found already_exists failed_precondition unauthenticated : Code
  canceled deadline_exceeded internal : Code

-- The fields of CreateZoneRequest and of UpdateZoneRequest.
pub record ZoneRequest : Type 0 where
  pub name : Bytes
  pub primary_ns : Bytes
  pub admin_email : Bytes
  pub refresh : ℤ
  pub retry : ℤ
  pub expire : ℤ
  pub minimum_ttl : ℤ

pub record CreateRecordRequest : Type 0 where
  pub zone : Bytes
  pub name : Bytes
  pub rtype : Bytes
  pub ttl : ℤ
  pub rdata : Bytes

-- A call of the notifier.
pub record Notice : Type 0 where
  pub kind : ChangeKind
  pub zone : Bytes
  pub name : Bytes

pub record Reply (A : Type 0) : Type 0 where
  pub db : Tables
  pub notices : List Notice
  pub answer : Outcome Code A

abbrev pub refused : {A : Type 0} → Tables → Code → Reply A
refused db c = record { db = db; notices = []; answer = err c }

abbrev pub answered : {A : Type 0} → Tables → List Notice → A → Reply A
answered db notices a = record { db = db; notices = notices; answer = ok a }

unfoldable pub or_string : Bytes → Bytes → Bytes
or_string v def = if is_empty v then def else v

unfoldable pub or_int : ℤ → ℤ → ℤ
or_int (pos zero) def = def
or_int v def = v

unfoldable pub page_size : ℤ → ℕ
page_size (pos zero) = 100
page_size (pos (suc n)) = if ltb 1000 (suc n) then 1000 else suc n
page_size (negsuc n) = 100

unfoldable pub to_error : Code → StoreError → Code → Code
to_error failed not_found conflict_code = code_not_found
to_error failed conflict conflict_code = conflict_code
to_error failed failure conflict_code = failed

-- The interceptor of `NewAuthInterceptor`: the call, if the header holds the token.
unfoldable pub authorized : {A : Type 0} → Bytes → Bytes → Outcome Code A → Outcome Code A
authorized token header call =
    if bytes_eq header (codes "Bearer " ++ token) then call else err unauthenticated

-- `ttl == 0` stands for the default; the other values of an int32 up to maxTTL are those not negative.
unfoldable pub ttl_of : ℤ → Outcome Code ℤ
ttl_of (pos zero) = ok (pos 300)
ttl_of (pos (suc n)) = if ltb 2147483647 (suc n) then err invalid_argument else ok (pos (suc n))
ttl_of (negsuc n) = err invalid_argument

abbrev pub zone_notice : Zone → Notice
zone_notice z = record { kind = kind_zone; zone = z.name; name = [] }

module _ ⦃u : GoRuntime⦄ where
  unfoldable pub packs : Bytes → Outcome Code Bytes
  packs n = map_err (λ e. invalid_argument) (pack_name [] (to_lower n))

  unfoldable pub validate_soa : Zone → Outcome Code (Unit {0})
  validate_soa z = packs z.primary_ns >>= λ a.
      packs (replace_first b'@' b'.' z.admin_email) >>= λ b.
      guard
        (not (
          is_negative z.refresh
          || is_negative z.retry
          || is_negative z.expire
          || is_negative z.min_ttl))
        invalid_argument

  unfoldable pub requested_zone : ZoneRequest → Zone
  requested_zone m =
      let name = normalize_zone m.name in
      record {
        name = name;
        primary_ns = or_string m.primary_ns (codes "ns1." ++ name ++ codes ".");
        admin_email = or_string m.admin_email (codes "hostmaster." ++ name ++ codes ".");
        serial = pos 0;
        refresh = or_int m.refresh (pos 3600);
        retry = or_int m.retry (pos 900);
        expire = or_int m.expire (pos 604800);
        min_ttl = or_int m.minimum_ttl (pos 300);
      }

  unfoldable pub updated_zone : ZoneRequest → Zone → Zone
  updated_zone m z = record z {
    primary_ns = or_string m.primary_ns z.primary_ns;
    admin_email = or_string m.admin_email z.admin_email;
    refresh = or_int m.refresh z.refresh;
    retry = or_int m.retry z.retry;
    expire = or_int m.expire z.expire;
    min_ttl = or_int m.minimum_ttl z.min_ttl;
  }

  abbrev pub has_valid_name : Bytes → Outcome Code (Unit {0})
  has_valid_name name = map_err (λ e. invalid_argument) (validate_name name)

  -- The record that `CreateRecord` of the service passes on, after its tests.
  unfoldable pub requested_record : CreateRecordRequest → Outcome Code Record
  requested_record m =
      let zone = normalize_zone m.zone in
      let rtype = normalize_type m.rtype in
      let code = type_code rtype in
      let name = normalize_name zone m.name in
      let rdata = trim_space m.rdata in
      guard (not (is_empty zone || is_empty m.name || is_empty m.rtype)) invalid_argument
      >> guard (not (bytes_eq rtype (codes "SOA"))) invalid_argument
      >> guard (supported_type code) invalid_argument
      >> has_valid_name name
      >> (map_err (λ e. invalid_argument) (build_rdata code rdata) >>= λ wire.
          ttl_of m.ttl >>= λ ttl. ok (record {
            id = 0;
            zone = zone;
            name = name;
            rtype = rtype;
            ttl = ttl;
            rdata = rdata;
            wire = none;
            wire_err = false;
          }))

  module _ (failed : Code) (md5 : Bytes → Bytes) (faults : ℕ → ℕ → Bool) (now : ℤ)
      (db : Tables) where
    -- What a change of the store gives: the changed tables and a notice, or an error.
    unfoldable pub after_change :
        {A : Type 0} → Code → (A → Notice) → Outcome StoreError (Tables × A) → Reply A
    after_change conflict_code notice (ok (db', a)) = answered db' (notice a ∷ []) a
    after_change conflict_code notice (err e) = refused db (to_error failed e conflict_code)

    -- What a reading of the store gives.
    unfoldable pub after_read : {A : Type 0} → Outcome StoreError A → Reply A
    after_read (ok a) = answered db [] a
    after_read (err e) = refused db (to_error failed e internal)

    -- A call goes on with the value of its tests, or is refused with their code.
    unfoldable pub after_tests : {A B : Type 0} → Outcome Code A → (A → Reply B) → Reply B
    after_tests (ok a) go = go a
    after_tests (err c) go = refused db c

    unfoldable pub create_zone_call : ZoneRequest → Reply Zone
    create_zone_call m =
        let z = requested_zone m in
        after_tests (has_valid_name z.name >> validate_soa z)
          (λ _. after_change already_exists zone_notice (create_zone (faults 0) now db z))

    unfoldable pub get_zone_call : Bytes → Reply Zone
    get_zone_call name = after_read (get_zone (faults 0) db name)

    unfoldable pub update_zone_call : ZoneRequest → Reply Zone
    update_zone_call m =
        after_tests (map_err (λ e. to_error failed e internal) (get_zone (faults 0) db m.name))
          (λ old.
            let z = updated_zone m old in
            after_tests (validate_soa z)
              (λ _. after_change internal zone_notice (update_zone (faults 1) now db z)))

    unfoldable pub delete_zone_call : Bytes → Reply (Unit {0})
    delete_zone_call text =
        let name = normalize_zone text in
        after_change internal (λ _. record { kind = kind_zone; zone = name; name = [] })
          (delete_zone (faults 0) db name >>= λ db'. ok (db', tt))

    unfoldable pub list_zones_call : (Bytes → Bytes → Bool) → ℤ → Bytes → Reply (List Zone × Bytes)
    list_zones_call before size token =
        after_read (list_zones (faults 0) before db (page_size size) token)

    unfoldable pub create_record_call : CreateRecordRequest → Reply Record
    create_record_call m = after_tests (requested_record m) (λ r.
        after_change failed_precondition
          (λ _. record { kind = kind_record; zone = r.zone; name = r.name })
          (create_record (faults 0) md5 now db r))

    unfoldable pub delete_record_call : Bytes → Bytes → Bytes → Bytes → Reply (Unit {0})
    delete_record_call zone_text name_text rtype rdata =
        let zone = normalize_zone zone_text in
        let name = normalize_name zone name_text in
        after_change internal (λ _. record { kind = kind_record; zone = zone; name = name })
          (delete_record (faults 0) md5 now db zone name rtype (trim_space rdata) >>= λ db'.
            ok (db', tt))

    -- Every error of the listing itself is answered as an invalid argument.
    unfoldable pub list_records_call : Bytes → ℤ → Bytes → Reply (List Record × Bytes)
    list_records_call zone size token =
        after_tests
          (guard (not (is_empty zone)) invalid_argument
            >> map_err (λ e. to_error failed e internal) (get_zone (faults 0) db zone))
          (λ _.
            after_tests
              (map_err (λ e. invalid_argument)
                (list_records (faults 1) db zone (page_size size) token))
              (answered db []))

    unfoldable pub get_records_call : Bytes → Bytes → Bytes → Reply (List Record)
    get_records_call zone name rtype = after_read (get_records (faults 0) db zone name rtype)
