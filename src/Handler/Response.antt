-- ===== src/Handler/Response.antt =====
-- What `resolve` of internal/dns/handler.go does to the response: `negative`, `zoneFor`,
-- `addGlue`, `addAdditional` and the appending of sets. The response and the handler's counter are passed along; a method that
-- may fail also says whether it did. The context and its time limit are left out: a lookup that
-- runs out of time is an error of the resolver.
use shard_dns.Handler.{or_empty, wire_of, append_rr, append_set, soa_rr, in_zone}
use shard_dns.Prelude.Int.{to_u32}
use shard_dns.Prelude.Text.{GoRuntime, to_lower}
use shard_dns.RData.Build.{rdata_names}
use shard_dns.Wire.TypeNames.{type_code}
use shard_dns.Wire.{Rr, Message, type_ns, type_mx, type_srv, rcode_nx_domain, set_rcode}
use shard_dns.Zones.{StoreError, not_found, conflict, failure, Zone, Record, Resolver}
use shard_dns.Prelude.{
  ℕ, Bool, false, not, ◌||◌, Option, none, some, List, [], ◌∷◌, ◌++◌, ltb, leb, ◌==◌, if◌then◌else◌,
  Bytes, codes, bytes_eq, length, is_empty, Outcome, ok, err,
}

abbrev pub max_additional : ℕ
max_additional = 16

-- The response under construction, and the handler's counter.
pub record Work : Type 0 where
  pub resp : Message
  pub rotate : ℕ

-- What `resolve` returns: the work, and whether there was an error.
pub data Done : Type 0 where
  done : Work → Done
  failed : Work → Done

abbrev pub with_answers : Work → List Rr → Work
with_answers w rrs = record w { resp = record (w.resp) { answers = rrs } }

abbrev pub with_authority : Work → List Rr → Work
with_authority w rrs = record w { resp = record (w.resp) { authority = rrs } }

abbrev pub with_additional : Work → List Rr → Work
with_additional w rrs = record w { resp = record (w.resp) { additional = rrs } }

-- `append` of one record to the answers
abbrev pub answer : Work → Rr → Work
answer w rr = with_answers w (w.resp.answers ++ (rr ∷ []))

-- `negative`: NXDOMAIN unless the name exists, and the SOA record, its time to live capped.
unfoldable pub negative : Work → Zone → Bool → Work
negative w zone exists =
    let w' = if exists then w else record w { resp = set_rcode w.resp rcode_nx_domain } in
    elim (soa_rr zone) [
      | ok soa ↦
          let cap = to_u32 zone.min_ttl in
          let capped : Rr = record soa { ttl = if ltb cap soa.ttl then cap else soa.ttl } in
          with_authority w' (w'.resp.authority ++ (capped ∷ []))
      | err e ↦ w'
    ]

-- The `Bytes` are in the list: `seen[target]`.
unfoldable pub is_seen : Bytes → List Bytes → Bool
is_seen t [] = false
is_seen t (s ∷ ss) = bytes_eq t s || is_seen t ss

-- `zoneFor`: no zone is no error.
unfoldable pub zone_result : Outcome StoreError Zone → Outcome StoreError (Option Zone)
zone_result (ok z) = ok (some z)
zone_result (err not_found) = ok none
zone_result (err conflict) = err conflict
zone_result (err failure) = err failure

module _ ⦃u : GoRuntime⦄ where
  -- `h.appendSet(&resp.Answers, …)`
  unfoldable pub answer_set : Work → Bytes → List Record → Work
  answer_set w owner records =
      let set = append_set w.rotate w.resp.answers owner records in
      record w { resp = record (w.resp) { answers = set.1 }; rotate = set.0 }

  -- `h.appendRR(section, …)` for each of the records
  unfoldable pub append_all : List Rr → Bytes → List Record → List Rr
  append_all section owner [] = section
  append_all section owner (r ∷ rs) = append_all (append_rr section owner r) owner rs

  -- The addresses of a target: the types are compared as they are written.
  unfoldable pub append_addresses : List Rr → Bytes → List Record → List Rr
  append_addresses section target [] = section
  append_addresses section target (a ∷ rs) =
      let is_address = bytes_eq a.rtype (codes "A") || bytes_eq a.rtype (codes "AAAA") in
      append_addresses (if is_address then append_rr section target a else section) target rs

  -- The target of a record, in lower case, or nothing.
  unfoldable pub target_of : ℕ → Record → Bytes
  target_of t r = to_lower (rdata_names t (or_empty (wire_of r)))

  module _ (r : Resolver) where
    -- The loop of `addGlue`, over the records left; `seen` is the set of targets.
    unfoldable pub glue_loop : Zone → List Bytes → List Rr → List Record → List Rr
    glue_loop zone seen section [] = section
    glue_loop zone seen section (a ∷ rs) =
        let target = target_of (type_code a.rtype) a in
        let skip = glue_loop zone seen section rs in
        let next = λ (s : List Rr). glue_loop zone (target ∷ seen) s rs in
        let glue : List Rr = elim (r.lookup_name zone.name target) [
          | ok set ↦ next (append_addresses section target set.records)
          | err e ↦ next section
        ] in
        if leb max_additional (length seen)
        then section
        else if is_empty target || not (in_zone target zone.name)
        then skip
        else if is_seen target seen
        then skip
        else glue

    unfoldable pub add_glue : Work → Zone → List Record → Work
    add_glue w zone records = with_additional w (glue_loop zone [] w.resp.additional records)

    unfoldable pub add_additional : Work → Zone → ℕ → List Record → Work
    add_additional w zone qtype records =
        if qtype == type_mx || qtype == type_ns || qtype == type_srv
        then add_glue w zone records
        else w

    unfoldable pub zone_for : Bytes → Outcome StoreError (Option Zone)
    zone_for name = zone_result (r.find_zone name)
