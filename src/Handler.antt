-- ===== src/Handler.antt =====
-- The parts of internal/dns/handler.go that turn stored records into a response: the wire form of
-- a record, the rotation of a set, the SOA record, and the test for a name inside a zone. The
-- logger is left out.
pub mod Lookup
pub mod Closest
pub mod Rotation
pub mod Response
pub mod Resolve
use shard_dns.Name.{PackError}
use shard_dns.Prelude.Int.{ℤ, to_u32}
use shard_dns.Prelude.Text.{GoRuntime, has_suffix, replace_first}
use shard_dns.RData.Build.{build_rdata, build_soa}
use shard_dns.Wire.TypeNames.{type_code}
use shard_dns.Wire.{Rr, class_in, type_soa}
use shard_dns.Zones.{Zone, Record}
use shard_dns.Prelude.{
  ℕ, zero, suc, ◌+◌, ◌%◌, Bool, true, false, not, ◌||◌, Option, none, some, List, [], ◌∷◌, ◌++◌,
  ltb, ◌==◌, if◌then◌else◌, Bytes, bytes_eq, length, get_elem?, select, Outcome, ok, err, ◌>>=◌,
}

-- A byte slice that may be nil, read as a slice.
abbrev pub or_empty : Option Bytes → Bytes
or_empty none = []
or_empty (some b) = b

module _ ⦃u : GoRuntime⦄ where
  -- The wire form of a record that has none stored.
  unfoldable pub built_wire : Record → Option Bytes
  built_wire r = elim (build_rdata (type_code r.rtype) r.rdata) [ ok w ↦ some w | err e ↦ none ]

  unfoldable pub wire_of : Record → Option Bytes
  wire_of r = elim r.wire [ some w ↦ some w | none ↦ if r.wire_err then none else built_wire r ]

  -- What a record with this type code and wire form adds to a section.
  unfoldable pub served : Bytes → Record → ℕ → Option Bytes → List Rr
  served owner r t none = []
  served owner r t (some w) =
      if t == 0
      then []
      else record { name = owner; rtype = t; class = class_in; ttl = to_u32 r.ttl; rdata = w } ∷ []

  unfoldable pub append_rr : List Rr → Bytes → Record → List Rr
  append_rr section owner r = section ++ served owner r (type_code r.rtype) (wire_of r)

  unfoldable pub filter_type : List Record → ℕ → List Record
  filter_type records t = select (λ r. type_code r.rtype == t) records

  -- One round of the loop in `appendSet`, at a position that is in range there.
  unfoldable pub append_nth : List Rr → Bytes → List Record → ℕ → List Rr
  append_nth section owner records k = elim (get_elem? records k) [
    | none ↦ section
    | some r ↦ append_rr section owner r
  ]

  -- The loop of `appendSet` over the rounds left, at round `i`.
  unfoldable pub set_loop : ℕ → List Rr → Bytes → List Record → ℕ → ℕ → List Rr
  set_loop zero section owner records start i = section
  set_loop (suc left) section owner records start i =
      set_loop left (append_nth section owner records ((start + i) % length records)) owner records
        start (i + 1)

  -- `appendSet`, with the handler's counter `rotate`: the new counter and the new section.
  unfoldable pub append_set : ℕ → List Rr → Bytes → List Record → ℕ × List Rr
  append_set rotate section owner records =
      let n = length records in
      let rotate' = (rotate + 1) % 4294967296 in
      if n == 0
      then (rotate, section)
      else if ltb 1 n
      then (rotate', set_loop n section owner records (rotate' % n) 0)
      else (rotate, set_loop n section owner records 0 0)

-- The SOA record of a zone; the admin's address gets a dot for its `@`.
unfoldable pub soa_rr : Zone → Outcome PackError Rr
soa_rr zone =
    build_soa zone.primary_ns (replace_first b'@' b'.' zone.admin_email) (to_u32 zone.serial)
      (to_u32 zone.refresh) (to_u32 zone.retry) (to_u32 zone.expire) (to_u32 zone.min_ttl)
    >>= λ rdata. ok (record {
      name = zone.name;
      rtype = type_soa;
      class = class_in;
      ttl = to_u32 zone.min_ttl;
      rdata = rdata;
    })

unfoldable pub in_zone : Bytes → Bytes → Bool
in_zone name zone = bytes_eq name zone || has_suffix name (b'.' ∷ zone)
