-- ===== src/Handler/Resolve/Failing.antt =====
-- Answers of a handler whose resolver cannot look names up.
use shard_dns.Handler.Lookup.{lookup}
use shard_dns.Handler.Resolve.{
  stop, hop, resolve_loop, resolve, finish, handle_name, refusal, handle_questions, handle,
}
use shard_dns.Handler.Response.{Work, failed}
use shard_dns.Prelude.Text.{GoRuntime, to_lower, trim_suffix}
use shard_dns.Wire.Flags.{
  set_aa_flags, clear_aa_flags, rcode-set_rcode, new_response_lem, new_response-word,
}
use shard_dns.Wire.{
  IsU16, Question, Message, set_rcode, rcode, set_aa, clear_aa, new_response, opcode,
}
use shard_dns.Zones.{StoreError, not_found, conflict, failure, Zone, Resolver}
use shard_dns.Prelude.{
  ℕ, suc, ◌/◌, ◌%◌, ◌≤◌, ◌<◌, ◌==◌, some, List, [], ◌∷◌, ◌≡◌, ◌≢◌, refl, sym, ◌∙◌, arith, Bytes,
  codes, is_empty, Bool-cases, Option-cases, Outcome-cases, inl, inr, err,
}

-- An answer without records and without authority, whose code is neither NOERROR nor NXDOMAIN.
pub record IsTurnedAway (m : Message) : Type 0 where
  pub no_answers : m.answers ≡ []
  pub no_authority : m.authority ≡ []
  pub no_additional : m.additional ≡ []
  pub not_authoritative : m.header.flags / 1024 % 2 ≡ 0
  pub is_error : 1 ≤ rcode m
  pub is_no_absence : rcode m ≢ 3

-- A message before its code is set.
record IsBlank (m : Message) : Type 0 where
  blank_answers : m.answers ≡ []
  blank_authority : m.authority ≡ []
  blank_additional : m.additional ≡ []
  blank_aa : m.header.flags / 1024 % 2 ≡ 0
  word : IsU16 m.header.flags

-- The codes that the handler turns a request away with.
abbrev IsErrorCode : ℕ → Type 0
IsErrorCode code = (code < 16) × (1 ≤ code) × (code ≢ 3)

form_err_code : IsErrorCode 1
form_err_code = (omega arith, omega arith, λ t. cc)

failure_code : IsErrorCode 2
failure_code = (omega arith, omega arith, λ t. cc)

not_implemented_code : IsErrorCode 4
not_implemented_code = (omega arith, omega arith, λ t. cc)

refused_code : IsErrorCode 5
refused_code = (omega arith, omega arith, λ t. cc)

set_rcode-IsTurnedAway :
    (m : Message) (code : ℕ) → IsBlank m → IsErrorCode code → IsTurnedAway (set_rcode m code)
set_rcode-IsTurnedAway m code b (small, nonzero, present) =
    let (is_code, o, high, w) = rcode-set_rcode m code b.word small in
    unfold set_rcode in
    record {
      no_answers = b.blank_answers;
      no_authority = b.blank_authority;
      no_additional = b.blank_additional;
      not_authoritative = omega (arith, high, b.blank_aa);
      is_error = omega (arith, is_code, nonzero);
      is_no_absence = λ e. present (sym is_code ∙ e);
    }

new_response-IsBlank : (req : Message) → IsU16 req.header.flags → IsBlank (new_response req)
new_response-IsBlank req h =
    let (i, q, o, rd, qr, aa, tc, rc, an, ns, ar, e, z, d) = new_response_lem req h in
    record {
      blank_answers = an;
      blank_authority = ns;
      blank_additional = ar;
      blank_aa = aa;
      word = new_response-word req h;
    }

module _ ⦃u : GoRuntime⦄ (r : Resolver) (e : StoreError)
    (fails : (z n : Bytes) → r.lookup_name z n ≡ err e) where
  lookup_failed : (zone : Zone) (name : Bytes) (qtype : ℕ) → lookup r zone name qtype ≡ err e
  unfolding lookup
  lookup_failed zone name qtype = rw (lookup, fails zone.name name) refl

  hop_failed :
      (zone : Zone) (name owner : Bytes) (qtype : ℕ) (w : Work)
      → hop r zone name owner qtype w ≡ stop (failed w)
  unfolding hop
  hop_failed zone name owner qtype w = rw (hop, lookup_failed zone name qtype) refl

  resolve_loop_failed :
      (left : ℕ) (zone : Zone) (name owner : Bytes) (qtype : ℕ) (w : Work)
      → resolve_loop r (suc left) zone name owner qtype w ≡ failed w
  unfolding resolve_loop
  resolve_loop_failed left zone name owner qtype w =
      rw (resolve_loop, hop_failed zone name owner qtype w) refl

  resolve_failed :
      (zone : Zone) (name owner : Bytes) (qtype : ℕ) (w : Work)
      → resolve r zone name owner qtype w ≡ failed w
  unfolding resolve
  resolve_failed = resolve_loop_failed 8

  finish-IsTurnedAway :
      (w : Work) → IsU16 w.resp.header.flags → IsTurnedAway (finish r (failed w)).resp
  unfolding finish clear_aa
  finish-IsTurnedAway w h =
      let m : Message = record (w.resp) { answers = []; authority = []; additional = [] } in
      let cleared = clear_aa_flags m h in
      set_rcode-IsTurnedAway (clear_aa m) 2
        (record {
          blank_answers = refl;
          blank_authority = refl;
          blank_additional = refl;
          blank_aa = omega (arith, cleared);
          word = omega (arith, cleared, h);
        })
        failure_code

  handle_name-IsTurnedAway :
      (q : Question) (w : Work) → IsBlank w.resp → IsTurnedAway (handle_name r q w).resp
  unfolding handle_name
  handle_name-IsTurnedAway q w b =
      let bare = trim_suffix q.name (codes ".") in
      let qname = to_lower bare in
      elim (Bool-cases (is_empty qname)) [
        | inl t ↦ rw (t, handle_name) (set_rcode-IsTurnedAway w.resp 5 b refused_code)
        | inr t ↦ elim (Outcome-cases (r.find_zone qname)) [
          | inl (zone, g) ↦
              let asked : Work = record w { resp = set_aa w.resp } in
              rw (t, g, resolve_failed zone qname bare q.qtype asked, handle_name)
                (finish-IsTurnedAway asked
                  (let s = set_aa_flags w.resp b.word in omega (arith, s, b.word, b.blank_aa)))
          | inr (not_found, g) ↦
              rw (t, g, handle_name) (set_rcode-IsTurnedAway w.resp 5 b refused_code)
          | inr (conflict, g) ↦
              rw (t, g, handle_name) (set_rcode-IsTurnedAway w.resp 2 b failure_code)
          | inr (failure, g) ↦
              rw (t, g, handle_name) (set_rcode-IsTurnedAway w.resp 2 b failure_code)
        ]
      ]

  refusal-IsErrorCode : (q : Question) (code : ℕ) → refusal r q ≡ some code → IsErrorCode code
  unfolding refusal
  refusal-IsErrorCode q code h = ground arith

  handle_questions-IsTurnedAway :
      (qs : List Question) (w : Work) → IsBlank w.resp → IsTurnedAway (handle_questions r qs w).resp
  unfolding handle_questions
  handle_questions-IsTurnedAway [] w b = set_rcode-IsTurnedAway w.resp 1 b form_err_code
  handle_questions-IsTurnedAway (q ∷ []) w b = elim (Option-cases (refusal r q)) [
    | inl t ↦ rw (t, handle_questions) (handle_name-IsTurnedAway q w b)
    | inr (code, t) ↦
        rw (t, handle_questions)
          (set_rcode-IsTurnedAway w.resp code b (refusal-IsErrorCode q code t))
  ]
  handle_questions-IsTurnedAway (q ∷ q' ∷ qs) w b = set_rcode-IsTurnedAway w.resp 1 b form_err_code

  -- When the resolver cannot look any name up, the answer to every request with sixteen-bit flags,
  -- whatever zone is found for it, has no records, no AA bit, and a code that is neither NOERROR nor
  -- NXDOMAIN.
  pub handle-IsTurnedAway :
      (req : Message) (rotate : ℕ)
      → IsU16 req.header.flags
      → IsTurnedAway (handle r req rotate).resp
  unfolding handle
  handle-IsTurnedAway req rotate h =
      let b = new_response-IsBlank req h in
      elim (Bool-cases (opcode req == 0)) [
        | inl t ↦
            rw (t, handle)
              (handle_questions-IsTurnedAway req.questions
                (record { resp = new_response req; rotate = rotate }) b)
        | inr t ↦
            rw (t, handle) (set_rcode-IsTurnedAway (new_response req) 4 b not_implemented_code)
      ]
