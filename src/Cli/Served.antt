-- ===== src/Cli/Served.antt =====
-- The service of internal/api/service.go as the admin client sees it, behind the interceptor that
-- `newAPIServer` of cmd/sharddnsd/main.go puts before it.
use shard_dns.Cli.{Client, bearer}
use shard_dns.Prelude.Int.{ℤ}
use shard_dns.Prelude.Text.{GoRuntime}
use shard_dns.Service.{
  Code, Reply, authorized, create_zone_call, get_zone_call, update_zone_call, delete_zone_call,
  list_zones_call, create_record_call, delete_record_call, list_records_call, get_records_call,
}
use shard_dns.Store.{Tables}
use shard_dns.Prelude.{
  ℕ, Bool, if◌then◌else◌, Option, none, some, [], ◌∷◌, ◌++◌, ◌≡◌, refl, Bytes, bytes_eq_refl, codes,
  is_empty, Outcome, ok, err,
}

-- The header as `req.Header().Get` reads it. It is supposed to arrive as the client set it: that
-- net/http trims blanks around a header's value, and refuses a line end in it, is left out.
unfoldable pub header_text : Option Bytes → Bytes
header_text none = []
header_text (some h) = h

-- `newAPIServer`: the interceptor stands before the calls when the server has a token.
unfoldable pub intercepted :
    {A : Type 0} → Bytes → Option Bytes → Tables → Reply A → Tables × Outcome Code A
intercepted token header db r =
    elim (if is_empty token then ok tt else authorized token (header_text header) (ok tt)) [
      | ok _ ↦ (r.db, r.answer)
      | err c ↦ (db, err c)
    ]

module _ ⦃u : GoRuntime⦄ (failed : Code) (md5 : Bytes → Bytes) (faults : ℕ → ℕ → Bool) (now : ℤ)
    (before : Bytes → Bytes → Bool) (token : Bytes) (header : Option Bytes) where
  -- The service as the client sees it.
  unfoldable pub service_client : Client Tables
  service_client = record {
    create_zone = λ m db. intercepted token header db (create_zone_call failed md5 faults now db m);
    get_zone = λ n db. intercepted token header db (get_zone_call failed md5 faults now db n);
    update_zone = λ m db. intercepted token header db (update_zone_call failed md5 faults now db m);
    delete_zone = λ n db. intercepted token header db (delete_zone_call failed md5 faults now db n);
    list_zones = λ size t db.
        intercepted token header db (list_zones_call failed md5 faults now db before size t);
    create_record =
        λ m db. intercepted token header db (create_record_call failed md5 faults now db m);
    delete_record = λ z n t d db.
        intercepted token header db (delete_record_call failed md5 faults now db z n t d);
    list_records = λ z size t db.
        intercepted token header db (list_records_call failed md5 faults now db z size t);
    get_records =
        λ z n t db. intercepted token header db (get_records_call failed md5 faults now db z n t);
  }

-- A server with a token admits the header that the client sets for it.
pub intercepted-bearer :
    {A : Type 0}
    → (token : Bytes) (db : Tables) (r : Reply A)
    → intercepted token (bearer token) db r ≡ (r.db, r.answer)
unfolding intercepted bearer authorized header_text
intercepted-bearer [] db r = refl
intercepted-bearer (c ∷ token) db r =
    rw (intercepted, authorized, bytes_eq_refl (codes "Bearer " ++ c ∷ token)) refl
