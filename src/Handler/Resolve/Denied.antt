-- ===== src/Handler/Resolve/Denied.antt =====
-- When `Handle` of internal/dns/handler.go answers NXDOMAIN.
use shard_dns.Handler.Resolve.Fair.{
  IsReached, asked, aliased, map-IsFair, IsDenied, IsFair, IsFairDone, IsFairHop, if-IsFairHop,
  set_rcode-IsFair, clear_aa-IsFair, negative-IsFair, through_dname-IsFairHop, answer_any-IsFairHop,
  answer_soa-IsFairHop, cnames-IsFairHop,
}
use shard_dns.Handler.Lookup.{Match, cut_at, dname_at, found, lookup}
use shard_dns.Handler.Resolve.{
  Hop, stop, next, referral, answer_any, answer_soa, through_cname, answer_found, on_match, hop,
  resolve_loop, resolve, max_chain, finish, handle_name, refusal, handle_questions, handle,
}
use shard_dns.Handler.Response.{
  Work, Done, done, failed, negative, answer_set, target_of, add_glue, add_additional,
}
use shard_dns.Handler.{filter_type}
use shard_dns.Prelude.Text.{GoRuntime, to_lower, trim_suffix}
use shard_dns.Wire.Flags.{rcode_flags, set_aa_flags, new_response_lem, new_response-word}
use shard_dns.Wire.{
  IsU16, Question, Message, type_cname, type_soa, type_any, rcode, opcode, set_aa, clear_aa,
  new_response,
}
use shard_dns.Zones.{not_found, conflict, failure, Zone, Record, Resolver}
use shard_dns.Prelude.{
  ℕ, zero, suc, ◌+◌, ◌%◌, ◌<◌, Bool, false, not, ◌&&◌, ◌||◌, some, List, [], ◌∷◌, ◌==◌,
  if◌then◌else◌, ◌≡◌, ◌≢◌, refl, sym, ◌∙◌, arith, Bytes, bytes_eq, codes, is_empty, Bool-cases,
  Option-cases, Outcome-cases, inl, inr, ok,
}

module _ ⦃u : GoRuntime⦄ (r : Resolver) (q : Question) where
  add_additional-IsFair :
      (w : Work) (zone : Zone) (qtype : ℕ) (records : List Record)
      → IsFair (IsDenied r q) w.resp.header.flags
      → IsFair (IsDenied r q) (add_additional r w zone qtype records).resp.header.flags
  unfolding add_additional add_glue
  add_additional-IsFair w zone qtype records h =
      elim (Bool-cases (qtype == 15 || qtype == 2 || qtype == 33)) [
        | inl e ↦ rw (add_additional, e) h
        | inr e ↦ rw (add_additional, e) h
      ]

  answer_found-IsFairHop :
      (zone : Zone) (name owner : Bytes) (records : List Record) (there : Bool) (w : Work)
      → IsFair (IsDenied r q) w.resp.header.flags
      → IsReached r q zone name
      → lookup r zone name q.qtype ≡ ok (found records there)
      → IsFairHop r q (answer_found r zone name owner q.qtype records there w)
  unfolding answer_found answer_set
  answer_found-IsFairHop zone name owner records there w h at_name e =
      let qtype = q.qtype in
      let deny : there ≡ false → IsDenied r q = λ f. (zone, name, records, at_name, rw f at e) in
      let apex = bytes_eq name zone.name in
      let same = filter_type records qtype in
      let cnames = filter_type records type_cname in
      let nothing = stop (done (negative w zone (not (is_empty records) || there || apex))) in
      let last = elim cnames as (λ _. Hop) [
        | [] ↦ nothing
        | c ∷ cs ↦ through_cname r owner c cs w
      ] in
      let with_same = stop (done (add_additional r (answer_set w owner same) zone qtype same)) in
      let denied =
        negative-IsFair r q w zone (not (is_empty records) || there || apex) h
          (λ e. deny (ground arith)) in
      let r1 = if qtype == type_cname then nothing else last in
      let r2 = if not (is_empty same) then with_same else r1 in
      let r3 = if apex && qtype == type_soa then answer_soa r zone w else r2 in
      if-IsFairHop r q (qtype == type_any) (answer_any r zone apex owner records there w) r3
        (answer_any-IsFairHop r q zone apex owner records there w h deny)
        (λ _.
          if-IsFairHop r q (apex && qtype == type_soa) (answer_soa r zone w) r2
            (answer_soa-IsFairHop r q zone w h)
            (λ _.
              if-IsFairHop r q (not (is_empty same)) with_same r1
                (add_additional-IsFair (answer_set w owner same) zone qtype same h)
                (λ bare. if-IsFairHop r q (qtype == type_cname) nothing last denied (λ _.
                  cnames-IsFairHop r q owner cnames nothing w h
                    (λ c cs z some_cname to_zone.
                      unfold target_of in
                      aliased zone name records there c cs z at_name e (ground arith) some_cname
                        to_zone)
                    denied))))

  on_match-IsFairHop :
      (zone : Zone) (name owner : Bytes) (w : Work) (m : Match)
      → IsFair (IsDenied r q) w.resp.header.flags
      → IsReached r q zone name
      → lookup r zone name q.qtype ≡ ok m
      → IsFairHop r q (on_match r zone name owner q.qtype w m)
  unfolding on_match referral add_glue
  on_match-IsFairHop zone name owner w (cut_at at cut) h at_name e =
      clear_aa-IsFair (IsDenied r q) w.resp h
  on_match-IsFairHop zone name owner w (dname_at at d) h at_name e =
      through_dname-IsFairHop r q zone name owner at d w h at_name e
  on_match-IsFairHop zone name owner w (found records there) h at_name e =
      answer_found-IsFairHop zone name owner records there w h at_name e

  hop-IsFairHop :
      (zone : Zone) (name owner : Bytes) (w : Work)
      → IsFair (IsDenied r q) w.resp.header.flags
      → IsReached r q zone name
      → IsFairHop r q (hop r zone name owner q.qtype w)
  unfolding hop
  hop-IsFairHop zone name owner w h at_name = elim (Outcome-cases (lookup r zone name q.qtype)) [
    | inl (m, e) ↦ rw (e, hop) (on_match-IsFairHop zone name owner w m h at_name e)
    | inr (x, e) ↦ rw (e, hop) h
  ]

  resolve_loop-IsFairDone :
      (left : ℕ) (zone : Zone) (name owner : Bytes) (w : Work)
      → IsFair (IsDenied r q) w.resp.header.flags
      → IsReached r q zone name
      → IsFairDone r q (resolve_loop r left zone name owner q.qtype w)
  unfolding resolve_loop
  resolve_loop-IsFairDone zero zone name owner w h at_name = h
  resolve_loop-IsFairDone (suc left) zone name owner w h at_name =
      on (hop r zone name owner q.qtype w)
        (λ z n v k at_n. resolve_loop-IsFairDone left z n n v k at_n)
        (hop-IsFairHop zone name owner w h at_name)
    where
      on :
          (x : Hop)
          → ((z : Zone) (n : Bytes) (v : Work)
              → IsFair (IsDenied r q) v.resp.header.flags
              → IsReached r q z n
              → IsFairDone r q (resolve_loop r left z n n q.qtype v))
          → IsFairHop r q x
          → IsFairDone r q (elim x as (λ _. Done) [
            | stop d ↦ d
            | next z n v ↦ resolve_loop r left z n n q.qtype v
          ])
      on (stop d) further k = k
      on (next z n v) further k = further z n v k.1 k.0

  finish-IsFair :
      (d : Done) → IsFairDone r q d → IsFair (IsDenied r q) (finish r d).resp.header.flags
  unfolding finish
  finish-IsFair (done w) h = h
  finish-IsFair (failed w) h =
      let emptied : Message = record (w.resp) { answers = []; authority = []; additional = [] } in
      set_rcode-IsFair (IsDenied r q) (clear_aa emptied) 2
        (clear_aa-IsFair (IsDenied r q) emptied h).0 (omega arith) (λ c. absurd (omega (arith, c)))

  handle_name-IsFair :
      (w : Work)
      → IsFair (IsDenied r q) w.resp.header.flags
      → IsFair (IsDenied r q) (handle_name r q w).resp.header.flags
  unfolding handle_name resolve
  handle_name-IsFair w h =
      let bare = trim_suffix q.name (codes ".") in
      let qname = to_lower bare in
      let refused =
        set_rcode-IsFair (IsDenied r q) w.resp 5 h.0 (omega arith)
          (λ c. absurd (omega (arith, c))) in
      let broken =
        set_rcode-IsFair (IsDenied r q) w.resp 2 h.0 (omega arith)
          (λ c. absurd (omega (arith, c))) in
      elim (Bool-cases (is_empty qname)) [
        | inl t ↦ rw (t, handle_name) refused
        | inr t ↦ elim (Outcome-cases (r.find_zone qname)) [
          | inl (zone, g) ↦
              let with_aa : Work = record w { resp = set_aa w.resp } in
              rw (t, g, handle_name)
                (finish-IsFair (resolve r zone qname bare q.qtype with_aa) (
                  resolve_loop-IsFairDone (max_chain + 1) zone qname bare with_aa
                    (set_aa-IsFair w.resp h) (asked zone g)))
          | inr (not_found, g) ↦ rw (t, g, handle_name) refused
          | inr (conflict, g) ↦ rw (t, g, handle_name) broken
          | inr (failure, g) ↦ rw (t, g, handle_name) broken
        ]
      ]
    where
      set_aa-IsFair :
          (m : Message)
          → IsFair (IsDenied r q) m.header.flags
          → IsFair (IsDenied r q) (set_aa m).header.flags
      set_aa-IsFair m h =
          let f = set_aa_flags m h.0 in
          let low : (set_aa m).header.flags % 16 ≡ m.header.flags % 16 = omega (arith, f) in
          (
            omega (arith, f, h.0),
            elim h.1 [ inl other ↦ inl (λ e. other (sym low ∙ e)) | inr denied ↦ inr denied ],
          )

module _ ⦃u : GoRuntime⦄ (r : Resolver) where
  -- The one question of the request is denied.
  abbrev pub IsDeniedOf : List Question → Type 0
  IsDeniedOf qs = (q : Question) × (qs ≡ q ∷ []) × IsDenied r q

  refusal-code : (q : Question) (code : ℕ) → refusal r q ≡ some code → (code < 16) × (code ≢ 3)
  unfolding refusal
  refusal-code q code e = (ground arith, λ three. absurd (ground arith))

  handle_questions-IsFair :
      (qs : List Question) (w : Work)
      → IsU16 w.resp.header.flags
      → w.resp.header.flags % 16 ≢ 3
      → IsFair (IsDeniedOf qs) (handle_questions r qs w).resp.header.flags
  unfolding handle_questions
  handle_questions-IsFair [] w h other =
      set_rcode-IsFair (IsDeniedOf []) w.resp 1 h (omega arith) (λ c. absurd (omega (arith, c)))
  handle_questions-IsFair (q ∷ []) w h other = elim (Option-cases (refusal r q)) [
    | inl t ↦
        rw (t, handle_questions)
          (map-IsFair (IsDenied r q) (IsDeniedOf (q ∷ [])) (handle_name r q w).resp.header.flags
            (λ d. (q, refl, d)) (handle_name-IsFair r q w (h, inl other)))
    | inr (code, t) ↦
        let (small, not_nx) = refusal-code q code t in
        rw (t, handle_questions) (set_rcode-IsFair (IsDeniedOf (q ∷ [])) w.resp code h small not_nx)
  ]
  handle_questions-IsFair (q ∷ q' ∷ qs) w h other =
      set_rcode-IsFair (IsDeniedOf (q ∷ q' ∷ qs)) w.resp 1 h (omega arith)
        (λ c. absurd (omega (arith, c)))

  -- A request with sixteen-bit flags is answered with NXDOMAIN only if it has one question, and a
  -- look-up for its type found nothing, not even that the name exists, at a name reached from the
  -- question: its own, in lower case, without a last dot and in the zone found for it, or one that
  -- CNAME and DNAME records lead to from there, each in the zone found for it.
  pub handle-IsDenied :
      (req : Message) (rotate : ℕ)
      → IsU16 req.header.flags
      → rcode (handle r req rotate).resp ≡ 3
      → IsDeniedOf req.questions
  unfolding handle
  handle-IsDenied req rotate h e =
      let w : Work = record { resp = new_response req; rotate = rotate } in
      let word = new_response-word req h in
      let (_, _, _, _, _, _, _, zero_code, _, _, _, _, _, _) = new_response_lem req h in
      let other : w.resp.header.flags % 16 ≢ 3 =
        λ c. absurd (omega (arith, c, zero_code, rcode_flags (new_response req) word)) in
      let fair : IsFair (IsDeniedOf req.questions) (handle r req rotate).resp.header.flags =
        elim (Bool-cases (opcode req == 0)) [
          | inl t ↦ rw (t, handle) (handle_questions-IsFair req.questions w word other)
          | inr t ↦
              rw (t, handle)
                (set_rcode-IsFair (IsDeniedOf req.questions) (new_response req) 4 word (omega arith)
                  (λ c. absurd (omega (arith, c))))
        ] in
      elim fair.1 [
        | inl not_nx ↦ absurd (not_nx (sym (rcode_flags (handle r req rotate).resp fair.0) ∙ e))
        | inr denied ↦ denied
      ]
