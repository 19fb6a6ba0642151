-- ===== src/Config.antt =====
-- internal/config/config.go: the settings that sharddnsd reads from its environment.
-- The environment, the number of processors and `time.ParseDuration`, whose durations are numbers of
-- nanoseconds, are parameters.
pub mod Loaded
use shard_dns.Prelude.Int.{ℤ, pos, negsuc, is_negative}
use shard_dns.Prelude.Text.{GoRuntime, to_lower, parse_uint_base10}
use shard_dns.Prelude.{
  ℕ, zero, suc, ◌*◌, ◌≤◌, Bool, true, false, not, ◌||◌, ltb, ◌==◌, if◌then◌else◌, Option, none,
  some, [], ◌∷◌, ◌≡◌, refl, sym, ◌∙◌, arith, Bytes, bytes_eq, codes, is_empty, Bool-cases, inl, inr,
  ◌⊎◌, Outcome, ok, err, ◌>>=◌, ◌>>◌, guard,
}

pub data ConfigError : Type 0 where
  bad_cache_ttl no_database_url bad_cache_max_entries : ConfigError

pub record Config : Type 0 where
  pub dns_addr : Bytes
  pub api_addr : Bytes
  pub api_token : Bytes
  pub database_url : Bytes
  pub db_max_conns : ℤ
  pub workers : ℤ
  pub log_level : Bytes
  pub cache_enabled : Bool
  pub cache_ttl : ℤ
  pub cache_max_entries : ℤ
  pub nats_url : Bytes
  pub nats_subject : Bytes

abbrev minus : ℕ → ℤ
minus zero = pos 0
minus (suc n) = negsuc n

-- `strconv.Atoi`, whose `int` has 64 bits.
unfoldable pub atoi : Bytes → Option ℤ
atoi [] = none
atoi (c ∷ s) =
    if c == b'-'
    then elim (parse_uint_base10 s 9223372036854775809) [ none ↦ none | some n ↦ some (minus n) ]
    else elim (parse_uint_base10 (if c == b'+' then s else c ∷ s) 9223372036854775808) [
      | none ↦ none
      | some n ↦ some (pos n)
    ]

-- `n <= 0`
abbrev pub not_positive : ℤ → Bool
not_positive (pos zero) = true
not_positive (pos (suc n)) = false
not_positive (negsuc n) = true

module _ (env : Bytes → Option Bytes) where
  -- `os.Getenv`
  unfoldable pub variable : Bytes → Bytes
  variable k = elim (env k) [ none ↦ [] | some v ↦ v ]

  unfoldable pub getenv : Bytes → Bytes → Bytes
  getenv k def = elim (env k) [ none ↦ def | some v ↦ if is_empty v then def else v ]

  unfoldable pub getenv_int : Bytes → ℤ → ℤ
  getenv_int k def = elim (atoi (variable k)) [ none ↦ def | some n ↦ n ]

  unfoldable pub getenv_bool : ⦃u : GoRuntime⦄ → Bytes → Bool → Bool
  getenv_bool k def =
      let v = to_lower (variable k) in
      if bytes_eq v (codes "1")
        || bytes_eq v (codes "true")
        || bytes_eq v (codes "yes")
        || bytes_eq v (codes "on")
      then true
      else if bytes_eq v (codes "0")
          || bytes_eq v (codes "false")
          || bytes_eq v (codes "no")
          || bytes_eq v (codes "off")
      then false
      else def

-- The settings as the environment has them, before the tests and the defaults of `Load`.
unfoldable pub read_config : ⦃u : GoRuntime⦄ → (Bytes → Option Bytes) → ℤ → Config
read_config env ttl = record {
  dns_addr = getenv env (codes "DNS_ADDR") (codes ":53");
  api_addr = getenv env (codes "API_ADDR") (codes ":9053");
  api_token = variable env (codes "API_TOKEN");
  database_url = variable env (codes "DATABASE_URL");
  db_max_conns = getenv_int env (codes "DB_MAX_CONNS") (pos 0);
  workers = getenv_int env (codes "WORKERS") (pos 0);
  log_level = getenv env (codes "LOG_LEVEL") (codes "info");
  cache_enabled = getenv_bool env (codes "CACHE_ENABLED") false;
  cache_ttl = ttl;
  cache_max_entries = getenv_int env (codes "CACHE_MAX_ENTRIES") (pos 100000);
  nats_url = variable env (codes "NATS_URL");
  nats_subject = getenv env (codes "NATS_SUBJECT") (codes "sharddns.changes");
}

-- The non-negative duration of CACHE_TTL.
unfoldable pub ttl_setting : (Bytes → Option ℤ) → Bytes → Outcome ConfigError ℤ
ttl_setting parse_duration text = elim (parse_duration text) [
  | none ↦ err bad_cache_ttl
  | some ttl ↦ if is_negative ttl then err bad_cache_ttl else ok ttl
]

-- The defaults that depend on the number of processors.
unfoldable pub sized : ℕ → Config → Config
sized cpus c = record c {
  workers = if not_positive c.workers then pos (4 * cpus) else c.workers;
  db_max_conns =
      if not_positive c.db_max_conns
      then pos (if ltb 8 (2 * cpus) then 2 * cpus else 8)
      else c.db_max_conns;
}

unfoldable pub load :
    ⦃u : GoRuntime⦄ → (Bytes → Option Bytes) → ℕ → (Bytes → Option ℤ) → Outcome ConfigError Config
load env cpus parse_duration =
    ttl_setting parse_duration (getenv env (codes "CACHE_TTL") (codes "0")) >>= λ ttl.
    let c = read_config env ttl in
    guard (not (is_empty c.database_url)) no_database_url
    >> guard (not (not_positive c.cache_max_entries)) bad_cache_max_entries
    >> ok (sized cpus c)
