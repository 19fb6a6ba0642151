-- ===== src/Cli.antt =====
-- cmd/sharddns/main.go: the command line of the admin client.
-- The server is a `Client`, the operations of the generated client over a state that its calls
-- change. Go's package `flag`, which reads the flags of `zone create` and `zone update`, is a
-- parameter. The tables that are printed are lists of what they show; the messages are left out.
pub mod Arguments
pub mod Served
pub mod Listing
use shard_dns.Config.{atoi}
use shard_dns.Prelude.Int.{ℤ, pos, negsuc}
use shard_dns.Prelude.Text.{has_prefix, join}
use shard_dns.Service.{Code, ZoneRequest, CreateRecordRequest}
use shard_dns.Zones.{Zone, Record}
use shard_dns.Prelude.{
  ℕ, zero, suc, ◌+◌, ◌-◌, ◌%◌, Bool, true, false, ◌||◌, ltb, if◌then◌else◌, Option, none, some,
  List, [], ◌∷◌, ◌++◌, Bytes, bytes_eq, codes, is_empty, Outcome, ok, err,
}

-- The operations of `sharddnsv1connect.DNSManagerClient`.
pub record Client (S : Type 0) : Type 0 where
  pub create_zone : ZoneRequest → S → S × Outcome Code Zone
  pub get_zone : Bytes → S → S × Outcome Code Zone
  pub update_zone : ZoneRequest → S → S × Outcome Code Zone
  pub delete_zone : Bytes → S → S × Outcome Code (Unit {0})
  pub list_zones : ℤ → Bytes → S → S × Outcome Code (List Zone × Bytes)
  pub create_record : CreateRecordRequest → S → S × Outcome Code Record
  pub delete_record : Bytes → Bytes → Bytes → Bytes → S → S × Outcome Code (Unit {0})
  pub list_records : Bytes → ℤ → Bytes → S → S × Outcome Code (List Record × Bytes)
  pub get_records : Bytes → Bytes → Bytes → S → S × Outcome Code (List Record)

-- How the program ends, with what it has printed.
pub data Ending : Type 0 where
  shown_usage shown_version no_command bad_flags died : Ending
  shown_zones : List Zone → Ending
  shown_records : List Record → Ending
  zone_deleted : Bytes → Ending
  record_deleted : Bytes → Bytes → Bytes → Bytes → Ending

-- The flags of `zoneWrite`.
pub record ZoneFlags : Type 0 where
  pub ns : Bytes
  pub email : Bytes
  pub refresh : ℤ
  pub retry : ℤ
  pub expire : ℤ
  pub ttl : ℤ

-- `int32(x)`
abbrev pub signed_32 : ℕ → ℤ
signed_32 n = if ltb n 2147483648 then pos n else negsuc (4294967295 - n)

unfoldable pub to_i32 : ℤ → ℤ
to_i32 (pos n) = signed_32 (n % 4294967296)
to_i32 (negsuc n) = signed_32 (4294967295 - n % 4294967296)

-- `envOr`
unfoldable pub env_or : (Bytes → Bytes) → Bytes → Bytes → Bytes
env_or env k def = if is_empty (env k) then def else env k

pub record Globals : Type 0 where
  pub addr : Bytes
  pub token : Bytes
  pub args : List Bytes

pub data ArgKind : Type 0 where
  addr_flag token_flag help_flag other_arg : ArgKind

unfoldable pub kind_of : Bytes → ArgKind
kind_of a =
    if bytes_eq a (codes "--addr") || bytes_eq a (codes "-addr")
    then addr_flag
    else if bytes_eq a (codes "--token") || bytes_eq a (codes "-token")
    then token_flag
    else if bytes_eq a (codes "--help") || bytes_eq a (codes "-h") || bytes_eq a (codes "help")
    then help_flag
    else other_arg

-- The loop over `os.Args` in `main`: the flags anywhere among the arguments.
unfoldable pub read_globals : Globals → List Bytes → Outcome Ending Globals
read_globals g [] = ok g
read_globals g (a ∷ []) = elim (kind_of a) [
  | addr_flag ↦ err died
  | token_flag ↦ err died
  | help_flag ↦ err shown_usage
  | other_arg ↦ ok (record g { args = g.args ++ a ∷ [] })
]
read_globals g (a ∷ b ∷ rest) = elim (kind_of a) [
  | addr_flag ↦ read_globals (record g { addr = b }) rest
  | token_flag ↦ read_globals (record g { token = b }) rest
  | help_flag ↦ err shown_usage
  | other_arg ↦ read_globals (record g { args = g.args ++ a ∷ [] }) (b ∷ rest)
]

-- `strings.Contains`
unfoldable pub contains : Bytes → Bytes → Bool
contains [] sub = has_prefix [] sub
contains (c ∷ s) sub = let rest = contains s sub in if has_prefix (c ∷ s) sub then true else rest

unfoldable pub with_scheme : Bytes → Bytes
with_scheme addr = if contains addr (codes "://") then addr else codes "http://" ++ addr

-- The header that `bearer` sets, when there is a token.
unfoldable pub bearer : Bytes → Option Bytes
bearer token = if is_empty token then none else some (codes "Bearer " ++ token)

-- The rest of a command behind its one call of the server.
unfoldable pub after_call : {S A : Type 0} → (A → Ending) → S × Outcome Code A → Option (S × Ending)
after_call show (s, ok a) = some (s, show a)
after_call show (s, err c) = some (s, died)

module _ {S : Type 0} where
  -- The loop of `zone list` and of `record list`, with the pages left to ask for; `none` when there
  -- are more.
  unfoldable pub list_pages :
      {A : Type 0}
      → ℕ
      → (List A → Ending)
      → (Bytes → S → S × Outcome Code (List A × Bytes))
      → Bytes
      → List A
      → S
      → Option (S × Ending)
  list_pages zero show ask token found s = none
  list_pages (suc left) show ask token found s =
      let (s', answer) = ask token s in
      elim answer [
        | err c ↦ some (s', died)
        | ok (some_more, token') ↦ elim (is_empty token') [
          | true ↦ some (s', show (found ++ some_more))
          | false ↦ list_pages left show ask token' (found ++ some_more) s'
        ]
      ]

  module _ (c : Client S) (pages : ℕ) (parse_flags : List Bytes → Option ZoneFlags) (s : S) where
    unfoldable pub zone_request : Bytes → ZoneFlags → ZoneRequest
    zone_request name f = record {
      name = name;
      primary_ns = f.ns;
      admin_email = f.email;
      refresh = to_i32 f.refresh;
      retry = to_i32 f.retry;
      expire = to_i32 f.expire;
      minimum_ttl = to_i32 f.ttl;
    }

    unfoldable pub zone_write : Bytes → Bytes → List Bytes → Option (S × Ending)
    zone_write op name args = elim (parse_flags args) [
      | none ↦ some (s, bad_flags)
      | some f ↦
          after_call (λ z. shown_zones (z ∷ []))
            (if bytes_eq op (codes "create")
              then c.create_zone (zone_request name f) s
              else c.update_zone (zone_request name f) s)
    ]

    abbrev is_delete : Bytes → Bool
    is_delete op =
        bytes_eq op (codes "delete") || bytes_eq op (codes "del") || bytes_eq op (codes "rm")

    -- The command `zone` with a subcommand and what follows it.
    unfoldable pub zone_named : Bytes → List Bytes → Option (S × Ending)
    zone_named op [] = some (s, died)
    zone_named op (name ∷ rest) =
        if bytes_eq op (codes "create") || bytes_eq op (codes "update")
        then zone_write op name rest
        else if bytes_eq op (codes "get")
        then after_call (λ z. shown_zones (z ∷ [])) (c.get_zone name s)
        else if is_delete op
        then after_call (λ _. zone_deleted name) (c.delete_zone name s)
        else some (s, died)

    unfoldable pub zone : List Bytes → Option (S × Ending)
    zone [] = some (s, died)
    zone (op ∷ args) =
        if bytes_eq op (codes "list")
        then list_pages pages shown_zones (c.list_zones (pos 500)) [] [] s
        else zone_named op args

    unfoldable pub record_add : List Bytes → Option (S × Ending)
    record_add (zone ∷ name ∷ rtype ∷ ttl ∷ word ∷ words) = elim (atoi ttl) [
      | none ↦ some (s, died)
      | some n ↦
          after_call (λ r. shown_records (r ∷ []))
            (c.create_record
              (record {
                zone = zone;
                name = name;
                rtype = rtype;
                ttl = to_i32 n;
                rdata = join (codes " ") (word ∷ words);
              })
              s)
    ]
    record_add _ = some (s, died)

    unfoldable pub record_list : List Bytes → Option (S × Ending)
    record_list (zone ∷ rest) =
        list_pages pages shown_records (c.list_records zone (pos 1000)) [] [] s
    record_list [] = some (s, died)

    unfoldable pub record_get : List Bytes → Option (S × Ending)
    record_get (zone ∷ name ∷ rtype ∷ rest) =
        after_call shown_records (c.get_records zone name rtype s)
    record_get _ = some (s, died)

    unfoldable pub record_delete : List Bytes → Option (S × Ending)
    record_delete (zone ∷ name ∷ rtype ∷ word ∷ words) =
        let rdata = join (codes " ") (word ∷ words) in
        after_call (λ _. record_deleted zone name rtype rdata)
          (c.delete_record zone name rtype rdata s)
    record_delete _ = some (s, died)

    -- The command `record`.
    unfoldable pub record_command : List Bytes → Option (S × Ending)
    record_command [] = some (s, died)
    record_command (op ∷ args) =
        if bytes_eq op (codes "add") || bytes_eq op (codes "create")
        then record_add args
        else if bytes_eq op (codes "list")
        then record_list args
        else if bytes_eq op (codes "get")
        then record_get args
        else if is_delete op
        then record_delete args
        else some (s, died)

    unfoldable pub command : List Bytes → Option (S × Ending)
    command [] = some (s, no_command)
    command (op ∷ args) =
        if bytes_eq op (codes "zone")
        then zone args
        else if bytes_eq op (codes "record")
        then record_command args
        else some (s, died)

-- `main` behind its flags: `connect` makes the client for an address and the header of its calls.
unfoldable pub after_globals :
    {S : Type 0}
    → (Bytes → Option Bytes → Client S)
    → ℕ
    → (List Bytes → Option ZoneFlags)
    → S
    → Bytes
    → Bytes
    → List Bytes
    → Option (S × Ending)
after_globals connect pages parse_flags s addr token [] = some (s, no_command)
after_globals connect pages parse_flags s addr token (op ∷ args) =
    if bytes_eq op (codes "version")
    then some (s, shown_version)
    else command (connect (with_scheme addr) (bearer token)) pages parse_flags s (op ∷ args)

unfoldable pub main :
    {S : Type 0}
    → (Bytes → Option Bytes → Client S)
    → (Bytes → Bytes)
    → ℕ
    → (List Bytes → Option ZoneFlags)
    → List Bytes
    → S
    → Option (S × Ending)
main connect env pages parse_flags args s =
    let started : Globals = record {
      addr = env_or env (codes "SHARDDNS_ADDR") (codes "http://localhost:9053");
      token = env (codes "SHARDDNS_TOKEN");
      args = [];
    } in
    elim (read_globals started args) [
      | err e ↦ some (s, e)
      | ok g ↦ after_globals connect pages parse_flags s g.addr g.token g.args
    ]
