-- ===== src/Tests/Settings.antt =====
-- The settings of a small environment.
use shard_dns.Config.Loaded.{IsLoaded, load-IsLoaded}
use shard_dns.Config.{
  load, variable, getenv, getenv_int, getenv_bool, ttl_setting, read_config, sized, atoi,
}
use shard_dns.Prelude.Int.{ℤ, pos}
use shard_dns.Prelude.Text.{to_lower, is_ascii}
use shard_dns.Tests.Answers.{ascii}
use shard_dns.Prelude.{
  false, Option, none, some, ◌≡◌, refl, arith, Bytes, bytes_eq, codes, if◌then◌else◌, ok, all,
}

abbrev env : Bytes → Option Bytes
env k = if bytes_eq k (codes "DATABASE_URL") then some (codes "postgres://db") else none

abbrev no_time : Bytes → Option ℤ
no_time text = some (pos 0)

load-IsLoaded_example : IsLoaded env no_time (load ⦃u = ascii⦄ env 4 no_time)
load-IsLoaded_example = load-IsLoaded ⦃u = ascii⦄ env 4 no_time (omega arith) refl

-- The defaults on four processors.
load_run :
    load ⦃u = ascii⦄ env 4 no_time
    ≡ ok (record {
      dns_addr = codes ":53";
      api_addr = codes ":9053";
      api_token = codes "";
      database_url = codes "postgres://db";
      db_max_conns = pos 8;
      workers = pos 16;
      log_level = codes "info";
      cache_enabled = false;
      cache_ttl = pos 0;
      cache_max_entries = pos 100000;
      nats_url = codes "";
      nats_subject = codes "sharddns.changes";
    })
unfolding load ttl_setting read_config sized getenv getenv_int getenv_bool variable atoi bytes_eq
    to_lower is_ascii all
load_run = refl
