-- ===== src/Handler/Resolve.antt =====
-- `resolve` and `Handle` of internal/dns/handler.go.
pub mod Frames
pub mod Rounds
pub mod Header
pub mod Failing
pub mod Fair
pub mod Denied
use shard_dns.Handler.Lookup.{Match, cut_at, dname_at, found, lookup}
use shard_dns.Handler.Response.{
  Work, Done, done, failed, with_answers, with_authority, answer, negative, answer_set, append_all,
  target_of, add_glue, add_additional, zone_for,
}
use shard_dns.Handler.{or_empty, wire_of, append_rr, filter_type, soa_rr}
use shard_dns.Name.{pack_name}
use shard_dns.Prelude.Int.{to_u32}
use shard_dns.Prelude.Text.{GoRuntime, to_lower, trim_suffix}
use shard_dns.RData.Build.{rdata_names}
use shard_dns.Wire.{
  Question, Rr, Message, type_cname, type_soa, type_dname, type_opt, type_axfr, type_any, class_in,
  class_any, rcode_format_error, rcode_server_failure, rcode_not_implemented, rcode_refused, opcode,
  set_rcode, set_aa, clear_aa, new_response,
}
use shard_dns.Zones.{StoreError, not_found, conflict, failure, Zone, Record, Resolver}
use shard_dns.Prelude.{
  ℕ, zero, suc, ◌+◌, Bool, true, false, not, ◌&&◌, ◌||◌, Option, none, some, List, [], ◌∷◌, ◌++◌,
  ltb, ◌==◌, if◌then◌else◌, Bytes, codes, bytes_eq, length, is_empty, Outcome, ok, err,
}

abbrev pub max_chain : ℕ
max_chain = 8

abbrev pub type_ixfr : ℕ
type_ixfr = 251

-- A round of the loop in `resolve` returns, or goes on at another zone and name, which is also the
-- owner of what follows.
pub data Hop : Type 0 where
  stop : Done → Hop
  next : Zone → Bytes → Work → Hop

-- After an alias to `target`: on, if a zone holds it.
unfoldable pub follow : Outcome StoreError (Option Zone) → Bytes → Work → Hop
follow (ok none) target w = stop (done w)
follow (ok (some z)) target w = next z target w
follow (err e) target w = stop (failed w)

-- `m.cut != nil`: a referral, with no AA bit.
unfoldable pub referral : ⦃u : GoRuntime⦄ → Resolver → Zone → Bytes → List Record → Work → Hop
referral r zone at cut w =
    let w' : Work = record w {
      resp = record (clear_aa w.resp) { authority = append_all w.resp.authority at cut };
    } in
    stop (done (add_glue r w' zone cut))

module _ ⦃u : GoRuntime⦄ where
  module _ (r : Resolver) where
    -- The synthesized CNAME of a DNAME, and the hop to its target.
    unfoldable pub synthesize : Bytes → Bytes → Record → Work → Hop
    synthesize owner to d w =
        if ltb 253 (length to)
        then stop (done (record w { resp = set_rcode w.resp rcode_server_failure }))
        else elim (pack_name [] to) [
          | err e ↦ stop (done w)
          | ok cname ↦ follow (zone_for r to) to (
              answer w (record {
                name = owner;
                rtype = type_cname;
                class = class_in;
                ttl = to_u32 d.ttl;
                rdata = cname;
              }))
        ]

    -- `m.dname != nil`
    unfoldable pub through_dname : Bytes → Bytes → Bytes → Record → Work → Hop
    through_dname name owner at d w =
        let w' = with_answers w (append_rr w.resp.answers at d) in
        let target = rdata_names type_dname (or_empty (wire_of d)) in
        let to = trim_suffix name (b'.' ∷ at) ++ (b'.' ∷ to_lower target) in
        if is_empty target then stop (done w') else synthesize owner to d w'

    -- `qtype == TypeANY`
    unfoldable pub answer_any : Zone → Bool → Bytes → List Record → Bool → Work → Hop
    answer_any zone apex owner records exists w =
        let w' : Work =
          if apex then elim (soa_rr zone) [ ok soa ↦ answer w soa | err e ↦ w ] else w in
        let w'' = answer_set w' owner records in
        stop (done (if is_empty w''.resp.answers then negative w'' zone (exists || apex) else w''))

    -- `apex && qtype == TypeSOA`
    unfoldable pub answer_soa : Zone → Work → Hop
    answer_soa zone w = elim (soa_rr zone) [
      | ok soa ↦ stop (done (answer w soa))
      | err e ↦ stop (failed w)
    ]

    -- The records at the name are CNAMEs, the first of which is followed.
    unfoldable pub through_cname : Bytes → Record → List Record → Work → Hop
    through_cname owner c cs w =
        let w' = answer_set w owner (c ∷ cs) in
        let target = target_of type_cname c in
        if is_empty target then stop (done w') else follow (zone_for r target) target w'

    -- The rest of a round, where the lookup found records or nothing.
    unfoldable pub answer_found : Zone → Bytes → Bytes → ℕ → List Record → Bool → Work → Hop
    answer_found zone name owner qtype records exists w =
        let apex = bytes_eq name zone.name in
        let same = filter_type records qtype in
        let cnames = filter_type records type_cname in
        let nothing = stop (done (negative w zone (not (is_empty records) || exists || apex))) in
        if qtype == type_any
        then answer_any zone apex owner records exists w
        else if apex && qtype == type_soa
        then answer_soa zone w
        else if not (is_empty same)
        then stop (done (add_additional r (answer_set w owner same) zone qtype same))
        else if qtype == type_cname
        then nothing
        else elim cnames [ [] ↦ nothing | c ∷ cs ↦ through_cname owner c cs w ]

    unfoldable pub on_match : Zone → Bytes → Bytes → ℕ → Work → Match → Hop
    on_match zone name owner qtype w (cut_at at cut) = referral r zone at cut w
    on_match zone name owner qtype w (dname_at at d) = through_dname name owner at d w
    on_match zone name owner qtype w (found records exists) =
        answer_found zone name owner qtype records exists w

    -- One round of the loop in `resolve`.
    unfoldable pub hop : Zone → Bytes → Bytes → ℕ → Work → Hop
    hop zone name owner qtype w = elim (lookup r zone name qtype) [
      | ok m ↦ on_match zone name owner qtype w m
      | err e ↦ stop (failed w)
    ]

    -- The loop of `resolve`, with the rounds left.
    unfoldable pub resolve_loop : ℕ → Zone → Bytes → Bytes → ℕ → Work → Done
    resolve_loop zero zone name owner qtype w = done w
    resolve_loop (suc left) zone name owner qtype w = elim (hop zone name owner qtype w) [
      | stop d ↦ d
      | next zone' name' w' ↦ resolve_loop left zone' name' name' qtype w'
    ]

    -- `hops` runs from 0 to `maxChain`.
    unfoldable pub resolve : Zone → Bytes → Bytes → ℕ → Work → Done
    resolve = resolve_loop (max_chain + 1)

    -- What `Handle` makes of the result: after an error the sections are empty.
    unfoldable pub finish : Done → Work
    finish (done w) = w
    finish (failed w) = record w {
      resp =
          set_rcode (clear_aa (record (w.resp) { answers = []; authority = []; additional = [] }))
            rcode_server_failure;
    }

    -- `Handle` behind its checks of the question.
    unfoldable pub handle_name : Question → Work → Work
    handle_name q w =
        let bare = trim_suffix q.name (codes ".") in
        let qname = to_lower bare in
        let refuse = λ (code : ℕ). record w { resp = set_rcode w.resp code } in
        if is_empty qname then refuse rcode_refused else elim (r.find_zone qname) [
          | err e ↦ elim e [
            | not_found ↦ refuse rcode_refused
            | conflict ↦ refuse rcode_server_failure
            | failure ↦ refuse rcode_server_failure
          ]
          | ok zone ↦ finish (resolve zone qname bare q.qtype (record w { resp = set_aa w.resp }))
        ]

    -- The code with which `Handle` turns a question away, or none.
    unfoldable pub refusal : Question → Option ℕ
    refusal q =
        if not (q.class == class_in) && not (q.class == class_any)
        then some rcode_refused
        else if q.qtype == type_opt
        then some rcode_format_error
        else if q.qtype == type_axfr || q.qtype == type_ixfr
        then some rcode_refused
        else none

    unfoldable pub handle_questions : List Question → Work → Work
    handle_questions (q ∷ []) w = elim (refusal q) [
      | some code ↦ record w { resp = set_rcode w.resp code }
      | none ↦ handle_name q w
    ]
    handle_questions _ w = record w { resp = set_rcode w.resp rcode_format_error }

    -- The response to a request, and the handler's counter after it.
    unfoldable pub handle : Message → ℕ → Work
    handle req rotate =
        let w : Work = record { resp = new_response req; rotate = rotate } in
        if not (opcode req == 0)
        then record w { resp = set_rcode w.resp rcode_not_implemented }
        else handle_questions req.questions w
