-- ===== src/Tests/Denials.antt =====
-- The theorems of Handler/Closest, Handler/Resolve/Denied and Node/Denial at a name that no record has.
use shard_dns.Handler.Closest.{IsVerdict, lookup-IsVerdict}
use shard_dns.Handler.Lookup.{Match, found, enclosers, cut_or_dname, climb, wildcard, lookup}
use shard_dns.Handler.Resolve.Denied.{IsDeniedOf, handle-IsDenied}
use shard_dns.Handler.Resolve.{
  handle, handle_questions, handle_name, refusal, finish, resolve, resolve_loop, hop, on_match,
  answer_found,
}
use shard_dns.Handler.Response.{negative}
use shard_dns.Handler.{filter_type, soa_rr}
use shard_dns.Node.Coherent.{quiet}
use shard_dns.Node.Denial.{lookup-denied}
use shard_dns.Node.{store_resolver}
use shard_dns.Prelude.Text.{replace_first, has_suffix, split, join, to_lower, trim_suffix}
use shard_dns.RData.Build.{build_soa}
use shard_dns.Store.RecordTable.{any_row, at_name_row, has_below, in_range, bytes_lt, lookup_name}
use shard_dns.Store.{collect_records, reverse_name}
use shard_dns.Tests.Answers.{ascii, example_resolver, example_zone, www_set}
use shard_dns.Tests.Stores.{tables, rows-HasReverses}
use shard_dns.Tests.Wire.{query}
use shard_dns.Wire.{Message, rcode, opcode, new_response, response_flags, set_aa, set_rcode}
use shard_dns.Zones.{exists}
use shard_dns.Prelude.{
  ◌&&◌, ◌||◌, false, [], ◌∷◌, select, ◌≡◌, refl, arith, Bytes, bytes_eq, codes, IsIn, inl, inr, ◌⊎◌,
  ok,
}

abbrev missing : Bytes
missing = codes "ww.example"

below_zone : (missing ≡ example_zone.name) ⊎ IsIn example_zone.name (enclosers missing)
unfolding enclosers
below_zone = inr (inl refl)

lookup-IsVerdict_example :
    (m : Match) × (lookup ⦃u = ascii⦄ example_resolver example_zone missing 1 ≡ ok m)
    × IsVerdict ⦃u = ascii⦄ example_zone www_set missing 1 m
lookup-IsVerdict_example =
    lookup-IsVerdict ⦃u = ascii⦄ example_zone www_set example_resolver (λ n. refl) missing 1
      below_zone

missing_denied :
    lookup ⦃u = ascii⦄ (store_resolver ⦃u = ascii⦄ quiet tables) example_zone missing 1
    ≡ ok (found [] false)
unfolding lookup climb wildcard cut_or_dname filter_type enclosers exists store_resolver lookup_name
    collect_records at_name_row any_row has_below in_range bytes_lt reverse_name split join select
    bytes_eq
missing_denied = refl

lookup-denied_example :
    any_row
      (λ r.
        (bytes_eq r.zone (codes "example") && bytes_eq r.name missing)
        || (bytes_eq r.zone (codes "example") && has_suffix r.name (b'.' ∷ missing)))
      tables.records
    ≡ false
lookup-denied_example =
    lookup-denied ⦃u = ascii⦄ tables example_zone missing 1 [] rows-HasReverses below_zone
      missing_denied

abbrev absent_query : Message
absent_query = record query { questions = record { name = missing; qtype = 1; class = 1 } ∷ [] }

absent_code : rcode (handle ⦃u = ascii⦄ example_resolver absent_query 0).resp ≡ 3
unfolding rcode replace_first handle handle_questions handle_name refusal finish resolve
    resolve_loop hop on_match answer_found lookup climb wildcard cut_or_dname filter_type enclosers
    exists negative soa_rr build_soa select to_lower trim_suffix new_response response_flags set_aa
    set_rcode opcode bytes_eq
absent_code = refl

handle-IsDenied_example : IsDeniedOf ⦃u = ascii⦄ example_resolver absent_query.questions
handle-IsDenied_example =
    handle-IsDenied ⦃u = ascii⦄ example_resolver absent_query 0 (omega arith) absent_code
