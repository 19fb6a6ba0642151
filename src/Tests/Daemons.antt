-- ===== src/Tests/Daemons.antt =====
-- A run of the server whose database answers late and whose bus takes no subscription.
use shard_dns.Config.{Config}
use shard_dns.Daemon.Released.{held_after, held_after-run}
use shard_dns.Daemon.{World, no_ping, opened, applied, run}
use shard_dns.Prelude.Int.{pos}
use shard_dns.Prelude.{ltb, if◌then◌else◌, true, false, some, [], ◌≡◌, codes, ok}

abbrev late : World
late = record {
  opening = λ attempt. if ltb attempt 3 then no_ping else opened;
  is_over = λ attempt. false;
  migration = applied;
  has_bus = true;
  has_subscription = false;
  has_dns = true;
  has_api = true;
  ends_well = true;
}

abbrev settings : Config
settings = record {
  dns_addr = codes ":53";
  api_addr = codes ":9053";
  api_token = [];
  database_url = codes "postgres://db";
  db_max_conns = pos 20;
  workers = pos 4;
  log_level = codes "info";
  cache_enabled = true;
  cache_ttl = pos 0;
  cache_max_entries = pos 1000;
  nats_url = codes "nats://bus";
  nats_subject = codes "changes";
}

held_after-run_example : held_after (run late (ok settings)).0 [] ≡ some []
held_after-run_example = held_after-run late (ok settings)
