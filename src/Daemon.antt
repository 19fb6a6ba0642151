-- ===== src/Daemon.antt =====
-- cmd/sharddnsd/main.go: how the server starts and ends, with `Open` and `Migrate` of
-- internal/store/store.go and `Connect` of internal/events/bus.go. A run is the list of what it
-- acquires, releases and does; what the database, NATS and the system answer is a `World`.
pub mod Released
use shard_dns.Config.{Config, ConfigError}
use shard_dns.Prelude.Text.{GoRuntime, to_lower}
use shard_dns.Prelude.{
  ℕ, zero, suc, ◌+◌, Bool, true, false, not, ◌||◌, ◌==◌, if◌then◌else◌, Option, none, some, List,
  [], ◌∷◌, ◌++◌, Bytes, bytes_eq, codes, is_empty, Outcome, ok, err,
}

pub data Level : Type 0 where
  level_debug level_info level_warn level_error : Level

-- `newLogger`: the level of a name.
unfoldable pub level_of : ⦃u : GoRuntime⦄ → Bytes → Level
level_of name =
    let level = to_lower name in
    if bytes_eq level (codes "debug")
    then level_debug
    else if bytes_eq level (codes "warn") || bytes_eq level (codes "warning")
    then level_warn
    else if bytes_eq level (codes "error")
    then level_error
    else level_info

-- The answer of `/readyz`: the status and the text.
unfoldable pub readyz : Bool → Option Bool → ℕ × Bytes
readyz ping healthy = if not ping then (503, codes "database unavailable\n") else elim healthy [
  | none ↦ (200, codes "ok\n")
  | some h ↦ if not h then (503, codes "nats unavailable\n") else (200, codes "ok\n")
]

-- `healthcheck`, over `net.SplitHostPort`, `net.JoinHostPort` and the status of a GET, if it answers.
unfoldable pub healthcheck :
    (Bytes → Option (Bytes × Bytes)) → (Bytes → Bytes → Bytes) → (Bytes → Option ℕ) → Bytes → ℕ
healthcheck split_host_port join_host_port get api_addr =
    elim (split_host_port (if is_empty api_addr then codes ":9053" else api_addr)) [
      | none ↦ 1
      | some (host, port) ↦
          let any =
            is_empty host || bytes_eq host (codes "0.0.0.0") || bytes_eq host (codes "::") in
          let name = if any then codes "127.0.0.1" else host in
          elim (get (codes "http://" ++ (join_host_port name port ++ codes "/readyz"))) [
            | none ↦ 1
            | some status ↦ if status == 200 then 0 else 1
          ]
    ]

pub data Resource : Type 0 where
  pool connection lock bus : Resource

pub data Act : Type 0 where
  acquire : Resource → Act
  release : Resource → Act
  check_schema apply_schema subscribe listen_dns listen_api serve_all : Act

pub data RunError : Type 0 where
  bad_config no_store not_migrated no_bus not_subscribed no_dns no_api server_failed : RunError

-- What one call of `Open` meets, and what `Migrate` meets.
pub data Opening : Type 0 where
  bad_url no_pool no_ping opened : Opening

pub data Migration : Type 0 where
  no_connection no_lock no_check present no_schema applied : Migration

pub record World : Type 0 where
  pub opening : ℕ → Opening  -- at an attempt
  pub is_over : ℕ → Bool  -- the context ends in the pause behind an attempt
  pub migration : Migration
  pub has_bus : Bool
  pub has_subscription : Bool
  pub has_dns : Bool
  pub has_api : Bool
  pub ends_well : Bool  -- no server ends with an error

abbrev pub Run : Type 0
Run = List Act × Outcome RunError (Unit {0})

-- One part of a run and then another, if the first goes well.
unfoldable pub and_then : Run → Run → Run
and_then (t, ok _) k = (t ++ k.0, k.1)
and_then (t, err e) k = (t, err e)

-- A part of a run and what it defers.
unfoldable pub defer : Resource → Run → Run
defer r k = (k.0 ++ release r ∷ [], k.1)

unfoldable pub step : Bool → Act → RunError → Run
step works act e = if works then (act ∷ [], ok tt) else ([], err e)

-- `Open`: a pool that does not answer is closed.
unfoldable pub open_trace : Opening → List Act
open_trace bad_url = []
open_trace no_pool = []
open_trace no_ping = acquire pool ∷ release pool ∷ []
open_trace opened = acquire pool ∷ []

-- `Migrate`
unfoldable pub migrate : Migration → Run
migrate no_connection = ([], err not_migrated)
migrate no_lock = (acquire connection ∷ release connection ∷ [], err not_migrated)
migrate no_check = (
  acquire connection ∷ acquire lock ∷ check_schema ∷ release lock ∷ release connection ∷ [],
  err not_migrated,
)
migrate present = (
  acquire connection ∷ acquire lock ∷ check_schema ∷ release lock ∷ release connection ∷ [],
  ok tt,
)
migrate no_schema = (
  acquire connection ∷ acquire lock ∷ check_schema ∷ release lock ∷ release connection ∷ [],
  err not_migrated,
)
migrate applied = (
  acquire connection
      ∷ acquire lock
      ∷ check_schema
      ∷ apply_schema
      ∷ release lock
      ∷ release connection
      ∷ [],
  ok tt,
)

abbrev pub is_opened : Opening → Bool
is_opened opened = true
is_opened bad_url = false
is_opened no_pool = false
is_opened no_ping = false

abbrev pub max_attempts : ℕ
max_attempts = 30

module _ (w : World) where
  -- The loop of `connectStore`, with the attempts left.
  unfoldable pub connect_loop : ℕ → ℕ → Run
  connect_loop zero attempt = ([], err no_store)
  connect_loop (suc left) attempt =
      let t = open_trace (w.opening attempt) in
      let rest = connect_loop left (attempt + 1) in
      if is_opened (w.opening attempt)
      then (t, ok tt)
      else if w.is_over attempt
      then (t, err no_store)
      else (t ++ rest.0, rest.1)

  unfoldable pub connect_store : Run
  connect_store = connect_loop max_attempts 1

  -- `run` from the DNS server on.
  unfoldable pub run_servers : Run
  run_servers = and_then (step w.has_dns listen_dns no_dns) (
      and_then (step w.has_api listen_api no_api)
        (serve_all ∷ [], if w.ends_well then ok tt else err server_failed))

  -- `run` from the bus on.
  unfoldable pub run_bus : Config → Run
  run_bus cfg =
      if is_empty cfg.nats_url
      then run_servers
      else and_then (step w.has_bus (acquire bus) no_bus) (
          defer bus (
            if cfg.cache_enabled
            then and_then (step w.has_subscription subscribe not_subscribed) run_servers
            else run_servers))

  -- `run`, with what `config.Load` answers.
  unfoldable pub run : Outcome ConfigError Config → Run
  run (err e) = ([], err bad_config)
  run (ok cfg) = and_then connect_store (defer pool (and_then (migrate w.migration) (run_bus cfg)))
