-- ===== src/Handler/Resolve/Header.antt =====
-- What every answer of `handle` keeps of the request's header.
use shard_dns.Handler.Resolve.Frames.{
  Frames, Frames-set_rcode, Frames-set_aa, Frames-clear_aa, Frames-sections,
}
use shard_dns.Handler.Resolve.Rounds.{DoneOk, HopOk, hop-HopOk}
use shard_dns.Handler.Resolve.{
  Hop, stop, next, hop, resolve_loop, resolve, finish, handle_name, refusal, handle_questions,
  handle,
}
use shard_dns.Handler.Response.{Work, Done, done, failed}
use shard_dns.Prelude.Text.{GoRuntime, to_lower, trim_suffix}
use shard_dns.Wire.Flags.{new_response_lem, new_response-word, opcode_flags}
use shard_dns.Wire.{
  IsU16, Question, Message, opcode, set_aa, clear_aa, new_response, udp_size, max_edns_udp_size,
  max_udp_message_size,
}
use shard_dns.Zones.{not_found, conflict, failure, Zone, Resolver}
use shard_dns.Prelude.{
  if◌then◌else◌, ℕ, zero, suc, ◌/◌, ◌%◌, ◌^◌, ◌<◌, Bool, true, false, some, List, [], ◌∷◌, ◌≡◌,
  refl, ◌∙◌, arith, Bytes, codes, is_empty, Outcome-cases, Option-cases, Bool-cases, inl, inr, ◌==◌,
}

module _ (base : Message) ⦃u : GoRuntime⦄ (r : Resolver) where
  after_hop :
      (left : ℕ) (qtype : ℕ) (h : Hop)
      → HopOk base h
      → ((zone : Zone) (name : Bytes) (w : Work)
          → Frames base w.resp
          → DoneOk base (resolve_loop r left zone name name qtype w))
      → DoneOk base (elim h as (λ _. Done) [
        | stop d ↦ d
        | next zone name w ↦ resolve_loop r left zone name name qtype w
      ])
  after_hop left qtype (stop (done w)) h k = h
  after_hop left qtype (stop (failed w)) h k = h
  after_hop left qtype (next zone name w) h k = k zone name w h

  resolve_loop-DoneOk :
      (left : ℕ) (zone : Zone) (name owner : Bytes) (qtype : ℕ) (w : Work)
      → Frames base w.resp
      → DoneOk base (resolve_loop r left zone name owner qtype w)
  unfolding resolve_loop
  resolve_loop-DoneOk zero zone name owner qtype w f = f
  resolve_loop-DoneOk (suc left) zone name owner qtype w f =
      after_hop left qtype (hop r zone name owner qtype w)
        (hop-HopOk base r zone name owner qtype w f)
        (λ zone' name' w' f'. resolve_loop-DoneOk left zone' name' name' qtype w' f')

  finish-Frames : (d : Done) → DoneOk base d → Frames base (finish r d).resp
  unfolding finish
  finish-Frames (done w) f = f
  finish-Frames (failed w) f =
      let cleared = record (w.resp) { answers = []; authority = []; additional = [] } in
      Frames-set_rcode base (clear_aa cleared) 2
        (Frames-clear_aa base cleared (Frames-sections base w.resp [] [] [] f)) (omega arith)

  handle_name-Frames :
      (q : Question) (w : Work) → Frames base w.resp → Frames base (handle_name r q w).resp
  unfolding handle_name resolve
  handle_name-Frames q w f =
      let bare = trim_suffix q.name (codes ".") in
      let qname = to_lower bare in
      elim (Bool-cases (is_empty qname)) [
        | inl e ↦ rw (e, handle_name) (Frames-set_rcode base w.resp 5 f (omega arith))
        | inr e ↦ elim (Outcome-cases (r.find_zone qname)) [
          | inl (zone, g) ↦
              rw (e, g, handle_name)
                (finish-Frames _ (
                  resolve_loop-DoneOk 9 zone qname bare q.qtype (record w { resp = set_aa w.resp })
                    (Frames-set_aa base w.resp f)))
          | inr (not_found, g) ↦
              rw (e, g, handle_name) (Frames-set_rcode base w.resp 5 f (omega arith))
          | inr (conflict, g) ↦
              rw (e, g, handle_name) (Frames-set_rcode base w.resp 2 f (omega arith))
          | inr (failure, g) ↦
              rw (e, g, handle_name) (Frames-set_rcode base w.resp 2 f (omega arith))
        ]
      ]

  refusal-lt : (q : Question) (code : ℕ) → refusal r q ≡ some code → code < 16
  unfolding refusal
  refusal-lt q code h = ground arith

  handle_questions-Frames :
      (qs : List Question) (w : Work)
      → Frames base w.resp
      → Frames base (handle_questions r qs w).resp
  unfolding handle_questions
  handle_questions-Frames [] w f = Frames-set_rcode base w.resp 1 f (omega arith)
  handle_questions-Frames (q ∷ []) w f = elim (Option-cases (refusal r q)) [
    | inl e ↦ rw (e, handle_questions) (handle_name-Frames q w f)
    | inr (code, e) ↦
        rw (e, handle_questions) (Frames-set_rcode base w.resp code f (refusal-lt q code e))
  ]
  handle_questions-Frames (q ∷ q' ∷ qs) w f = Frames-set_rcode base w.resp 1 f (omega arith)

  handle-Frames :
      (req : Message) (rotate : ℕ)
      → Frames base (new_response req)
      → Frames base (handle r req rotate).resp
  unfolding handle
  handle-Frames req rotate f = elim (Bool-cases (opcode req == 0)) [
    | inl e ↦
        rw (e, handle)
          (handle_questions-Frames req.questions
            (record { resp = new_response req; rotate = rotate }) f)
    | inr e ↦ rw (e, handle) (Frames-set_rcode base (new_response req) 4 f (omega arith))
  ]

Frames-self : (m : Message) → IsU16 m.header.flags → Frames m m
Frames-self m h = record {
  same_id = refl;
  same_questions = refl;
  same_edns = refl;
  same_do = refl;
  same_size = refl;
  same_high = refl;
  same_middle = refl;
  word = h;
}

-- Whatever the resolver answers, a response keeps the request's identifier, questions,
-- operation code and RD bit; its QR bit is set and its TC bit clear; and it has EDNS exactly when
-- the request has, with the request's DO bit.
pub handle_header :
    ⦃u : GoRuntime⦄
    → (r : Resolver) (req : Message) (rotate : ℕ) → IsU16 req.header.flags
    → ((handle r req rotate).resp.header.id ≡ req.header.id)
      × ((handle r req rotate).resp.questions ≡ req.questions)
      × (opcode (handle r req rotate).resp ≡ opcode req)
      × ((handle r req rotate).resp.header.flags / 2 ^ 8 % 2 ≡ req.header.flags / 2 ^ 8 % 2)
      × ((handle r req rotate).resp.header.flags / 2 ^ 15 ≡ 1)
      × ((handle r req rotate).resp.header.flags / 2 ^ 9 % 2 ≡ 0)
      × ((handle r req rotate).resp.edns0 ≡ req.edns0)
      × ((handle r req rotate).resp.edns0_do ≡ (if req.edns0 then req.edns0_do else false))
handle_header ⦃u⦄ r req rotate h =
    let (i, q, o, rd, qr, aa, tc, rc, an, ns, ar, e, z, d) = new_response_lem req h in
    let base = new_response req in
    let w = new_response-word req h in
    let f = handle-Frames base ⦃u = u⦄ r req rotate (Frames-self base w) in
    let m = (handle ⦃u = u⦄ r req rotate).resp in
    let om = opcode_flags m f.word in
    let ob = opcode_flags base w in
    (
      f.same_id ∙ i,
      f.same_questions ∙ q,
      omega (arith, om, ob, o, f.same_high),
      omega (arith, rd, f.same_middle, f.word, w),
      omega (arith, qr, f.same_high),
      omega (arith, tc, f.same_middle, f.word, w),
      f.same_edns ∙ e,
      f.same_do ∙ d,
    )

udp_size_edns :
    (m : Message) (b : Bool)
    → m.edns0 ≡ b
    → m.edns0_size ≡ (if b then max_edns_udp_size else 0)
    → udp_size m ≡ (if b then max_edns_udp_size else max_udp_message_size)
unfolding udp_size
udp_size_edns m true e z = rw (e, z) refl
udp_size_edns m false e z = rw e refl

-- The limit `udp_size` of a response, which `pack_udp` reads, is 1232 when a request with
-- sixteen-bit flags has EDNS and 512 when it has not, whatever the resolver answers and whatever
-- size the request advertises.
pub handle-udp_size :
    ⦃u : GoRuntime⦄
    → (r : Resolver) (req : Message) (rotate : ℕ) → IsU16 req.header.flags
    → udp_size (handle r req rotate).resp
      ≡ (if req.edns0 then max_edns_udp_size else max_udp_message_size)
handle-udp_size ⦃u⦄ r req rotate h =
    let (i, q, o, rd, qr, aa, tc, rc, an, ns, ar, e, z, d) = new_response_lem req h in
    let base = new_response req in
    let f = handle-Frames base ⦃u = u⦄ r req rotate (Frames-self base (new_response-word req h)) in
    udp_size_edns (handle ⦃u = u⦄ r req rotate).resp req.edns0 (f.same_edns ∙ e) (f.same_size ∙ z)
