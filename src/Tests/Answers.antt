-- ===== src/Tests/Answers.antt =====
-- Answers to queries: runs, and the theorems of Handler at concrete inputs.
use shard_dns.Handler.Lookup.{lookup, at_name}
use shard_dns.Handler.Resolve.Failing.{IsTurnedAway, handle-IsTurnedAway}
use shard_dns.Handler.Resolve.Header.{handle_header, handle-udp_size}
use shard_dns.Handler.Resolve.{
  handle, handle_questions, handle_name, refusal, finish, resolve, resolve_loop, hop, on_match,
  answer_found,
}
use shard_dns.Handler.Response.{answer_set, add_additional}
use shard_dns.Handler.Rotation.{rotated, served_all, start_of, append_set-rotated}
use shard_dns.Handler.{served, wire_of, append_rr, filter_type, append_nth, set_loop, append_set}
use shard_dns.Prelude.Int.{pos}
use shard_dns.Prelude.Text.{GoRuntime, to_lower, trim_suffix}
use shard_dns.Wire.TypeNames.{type_code}
use shard_dns.Wire.{opcode, new_response, response_flags, set_aa, set_rcode, udp_size}
use shard_dns.Zones.{failure, Zone, Record, NameSet, Resolver}
use shard_dns.Prelude.{
  ℕ, ◌/◌, ◌%◌, ◌^◌, true, false, none, some, List, [], ◌∷◌, Bytes, ◌≡◌, refl, arith, if◌then◌else◌,
  bytes_eq, codes, select, ok, err,
}
use shard_dns.Tests.Wire.{www, query}

-- A runtime for ASCII text alone.
instance abbrev pub ascii : GoRuntime
ascii = record {
  lower = λ s. s;
  upper = λ s. s;
  trim = λ s. s;
  words = λ s. s ∷ [];
  parse_addr = λ s. none;
  base64_decode = λ s. none;
}

abbrev pub example_zone : Zone
example_zone = record {
  name = codes "example";
  primary_ns = codes "ns1.example.";
  admin_email = codes "admin@example.";
  serial = pos 1;
  refresh = pos 3600;
  retry = pos 900;
  expire = pos 604800;
  min_ttl = pos 300;
}

abbrev address_record : ℕ → Record
address_record n = record {
  id = n;
  zone = codes "example";
  name = www;
  rtype = codes "A";
  ttl = pos 300;
  rdata = [];
  wire = some (192 ∷ 0 ∷ 2 ∷ n ∷ []);
  wire_err = false;
}

abbrev pub www_set : Bytes → NameSet
www_set n = record {
  records = if bytes_eq n www then address_record 1 ∷ address_record 2 ∷ [] else [];
  has_children = false;
}

abbrev pub example_resolver : Resolver
example_resolver = record { find_zone = λ n. ok example_zone; lookup_name = λ z n. ok (www_set n) }

program : Unit {0}
unfolding handle handle_questions handle_name refusal finish resolve resolve_loop hop on_match
    answer_found lookup at_name answer_set add_additional append_set set_loop append_nth append_rr
    served wire_of filter_type select type_code to_lower trim_suffix new_response response_flags
    set_aa set_rcode opcode bytes_eq
program = tt

-- The second record comes first once the counter is odd.
handle-www :
    (handle example_resolver query 0).resp.answers
    ≡ record { name = www; rtype = 1; class = 1; ttl = 300; rdata = 192 ∷ 0 ∷ 2 ∷ 2 ∷ [] }
      ∷ record { name = www; rtype = 1; class = 1; ttl = 300; rdata = 192 ∷ 0 ∷ 2 ∷ 1 ∷ [] }
      ∷ []
unfolding program
handle-www = refl

handle_header_example :
    ((handle example_resolver query 0).resp.header.id ≡ 4660)
    × ((handle example_resolver query 0).resp.questions ≡ query.questions)
    × (opcode (handle example_resolver query 0).resp ≡ opcode query)
    × ((handle example_resolver query 0).resp.header.flags / 2 ^ 8 % 2 ≡ 1)
    × ((handle example_resolver query 0).resp.header.flags / 2 ^ 15 ≡ 1)
    × ((handle example_resolver query 0).resp.header.flags / 2 ^ 9 % 2 ≡ 0)
    × ((handle example_resolver query 0).resp.edns0 ≡ true)
    × ((handle example_resolver query 0).resp.edns0_do ≡ true)
handle_header_example = handle_header example_resolver query 0 (omega arith)

abbrev pair : List Record
pair = address_record 1 ∷ address_record 2 ∷ []

append_set-rotated_example :
    ((append_set 6 [] www pair).1
      ≡ served_all www (rotated (start_of (append_set 6 [] www pair).0 2) pair))
    × ((append_set 6 [] www pair).0 ≡ 7)
append_set-rotated_example = append_set-rotated 6 [] www pair

handle-udp_size_example : udp_size (handle example_resolver query 0).resp ≡ 1232
handle-udp_size_example = handle-udp_size example_resolver query 0 (omega arith)

-- A database that is down.
abbrev down : Resolver
down = record { find_zone = λ n. ok example_zone; lookup_name = λ z n. err failure }

handle-IsTurnedAway_example : IsTurnedAway (handle down query 0).resp
handle-IsTurnedAway_example = handle-IsTurnedAway down failure (λ z n. refl) query 0 (omega arith)
