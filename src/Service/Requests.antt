-- ===== src/Service/Requests.antt =====
-- The requests of internal/api/service.go, one constructor for each call.
use shard_dns.Prelude.Int.{ℤ}
use shard_dns.Service.{ZoneRequest, CreateRecordRequest}
use shard_dns.Prelude.{Bool, Bytes}

pub data Request : Type 0 where
  create_zone_of update_zone_of : ZoneRequest → Request
  get_zone_of delete_zone_of : Bytes → Request
  list_zones_of : (Bytes → Bytes → Bool) → ℤ → Bytes → Request
  create_record_of : CreateRecordRequest → Request
  delete_record_of : Bytes → Bytes → Bytes → Bytes → Request
  list_records_of : Bytes → ℤ → Bytes → Request
  get_records_of : Bytes → Bytes → Bytes → Request
