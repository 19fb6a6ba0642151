-- ===== src/Codec/Sections.antt =====
-- The parser on the pieces that the packer writes: questions, records and whole sections.
use shard_dns.Codec.Layout.{
  name_wire, name_wire-append, name_wire-nil, parse_name-name_wire, length-name_wire, u16_at-append,
  u32_at-append, question_fields, questions_wire, rr_fields, rrs_wire, IsQuestion, IsRr,
}
use shard_dns.Codec.{
  u16_at, u32_at, header_at, rr_at, parse_questions, parse_rrs, parse_rr_section,
  parse_question_section, header_bytes,
}
use shard_dns.Name.{parse_name}
use shard_dns.Wire.{IsU16, IsU32, Header, Question, Rr}
use shard_dns.Prelude.{
  ℕ, suc, ◌+◌, ◌-◌, ◌*◌, ◌≤◌, false, List, [], ◌∷◌, ◌++◌, ◌≡◌, refl, arith, ◌∙◌, ap, sym, le→leb,
  ◌==◌, append_assoc, append-nil, Bytes, put_u16, put_u32, length, length-append, slice,
  slice_middle, All, ok,
}

u16_at-put : (v : ℕ) (ys : Bytes) → IsU16 v → u16_at (put_u16 v ++ ys) 0 ≡ v
unfolding u16_at
u16_at-put v ys h = omega arith

question_at :
    (pre more : Bytes) (q : Question)
    → IsQuestion q
    → (u16_at (pre ++ (question_fields q ++ more)) (length pre) ≡ q.qtype)
      × (u16_at (pre ++ (question_fields q ++ more)) (length pre + 2) ≡ q.class)
      × (length pre + 4 ≤ length (pre ++ (question_fields q ++ more)))
      × (length (pre ++ question_fields q) ≡ length pre + 4)
unfolding question_fields
question_at pre more q h =
    let ys = put_u16 q.qtype ++ (put_u16 q.class ++ more) in
    (
      rw (u16_at-append pre ys (length pre) 0 (omega arith)) (u16_at-put q.qtype _ h.qtype_word),
      rw (u16_at-append pre ys (length pre + 2) 2 refl)
          (unfold u16_at in u16_at-put q.class more h.class_word),
      omega (arith, length-append pre ys),
      omega (arith, length-append pre (put_u16 q.qtype ++ put_u16 q.class)),
    )

parse_questions_step :
    (n : ℕ) (buf : Bytes) (off : ℕ) (q : Question) (qs : List Question) (next after end : ℕ)
    → parse_name buf off ≡ ok (q.name, next)
    → (u16_at buf next ≡ q.qtype)
      × (u16_at buf (next + 2) ≡ q.class)
      × (next + 4 ≤ length buf)
      × (after ≡ next + 4)
    → parse_questions n buf after ≡ ok (qs, end)
    → parse_questions (suc n) buf off ≡ ok (q ∷ qs, end)
unfolding parse_questions
parse_questions_step n buf off q qs next after end named (t, c, fits, e) later =
    rw (named, parse_questions) (rw (le→leb (next + 4) (length buf) fits, ← e, later, t, c))

-- The bytes of one piece join the part already read.
shift_piece :
    (pre : Bytes) (name : Bytes) (piece more : Bytes)
    → pre ++ name_wire name (piece ++ more) ≡ (pre ++ name_wire name []) ++ (piece ++ more)
shift_piece pre name piece more =
    rw (name_wire-nil name (piece ++ more))
      (sym (append_assoc pre (name_wire name []) (piece ++ more)))

pub parse_questions-wire :
    (qs : List Question) (pre rest : Bytes) (off : ℕ)
    → off ≡ length pre
    → All IsQuestion qs
    → parse_questions (length qs) (pre ++ questions_wire qs rest) off
      ≡ ok (qs, length (pre ++ questions_wire qs []))
unfolding parse_questions questions_wire
parse_questions-wire [] pre rest off e h = rw append-nil (ap (λ n. ok ([], n)) e)
parse_questions-wire (q ∷ qs) pre rest off e (h, hs) =
    let piece = question_fields q in
    let more = questions_wire qs rest in
    let pre1 = pre ++ name_wire q.name [] in
    let facts = question_at pre1 more q h in
    let buf = pre ++ name_wire q.name (piece ++ more) in
    let placed = shift_piece pre q.name piece more in
    let placed' = placed ∙ sym (append_assoc pre1 piece more) in
    let done =
      shift_piece pre q.name piece (questions_wire qs [])
      ∙ sym (append_assoc pre1 piece (questions_wire qs [])) in
    let step =
      parse_questions_step (length qs) buf off q qs (length pre1) (length (pre1 ++ piece))
        (length ((pre1 ++ piece) ++ questions_wire qs []))
        (rw e (parse_name-name_wire pre (piece ++ more) q.name h.canonical))
        (rw placed (facts.0, facts.1, facts.2, facts.3))
        (rw placed' (parse_questions-wire qs (pre1 ++ piece) rest _ refl hs)) in
    step ∙ ap (λ b. ok (q ∷ qs, length b)) (sym done)

u32_at-put : (v : ℕ) (ys : Bytes) → IsU32 v → u32_at (put_u32 v ++ ys) 0 ≡ v
unfolding u32_at
u32_at-put v ys h = omega arith

-- The ten bytes `rr_fields rr`, read at their places.
rr_fields_read :
    (rr : Rr) (more : Bytes)
    → IsRr rr
    → (u16_at (rr_fields rr ++ more) 0 ≡ rr.rtype)
      × (u16_at (rr_fields rr ++ more) 2 ≡ rr.class)
      × (u32_at (rr_fields rr ++ more) 4 ≡ rr.ttl)
      × (u16_at (rr_fields rr ++ more) 8 ≡ length rr.rdata)
unfolding rr_fields u32_at
rr_fields_read rr more h =
    let record { canonical = _; rtype_word = t; class_word = c; ttl_word = l; rdata_fits = d } =
      h in
    (omega arith, omega arith, omega arith, omega arith)

length-rr_fields : (rr : Rr) → length (rr_fields rr) ≡ 10
unfolding rr_fields
length-rr_fields rr = refl

rr_at-fields :
    (pre more : Bytes) (rr : Rr)
    → IsRr rr
    → rr_at (pre ++ (rr_fields rr ++ (rr.rdata ++ more))) rr.name (length pre) (length rr.rdata)
      ≡ rr
unfolding rr_at
rr_at-fields pre more rr h =
    let ys = rr_fields rr ++ (rr.rdata ++ more) in
    let (t, c, l, d) = rr_fields_read rr (rr.rdata ++ more) h in
    let n = length-append pre (rr_fields rr) in
    let m = length-rr_fields rr in
    let assoc : (pre ++ rr_fields rr) ++ (rr.rdata ++ more) ≡ pre ++ ys =
      append_assoc pre (rr_fields rr) (rr.rdata ++ more) in
    let cut : slice (length pre + 10) (length pre + 10 + length rr.rdata) (pre ++ ys) ≡ rr.rdata =
      rw (← assoc) (
        slice_middle (pre ++ rr_fields rr) rr.rdata more (length pre + 10)
          (length pre + 10 + length rr.rdata) (omega arith) (omega arith)) in
    let t' = u16_at-append pre ys (length pre) 0 (omega arith) ∙ t in
    let c' = u16_at-append pre ys (length pre + 2) 2 refl ∙ c in
    let l' = u32_at-append pre ys (length pre + 4) 4 refl ∙ l in
    λ i. record { name = rr.name; rtype = t' i; class = c' i; ttl = l' i; rdata = cut i }

rr_sizes :
    (pre more : Bytes) (rr : Rr)
    → IsRr rr
    → (u16_at (pre ++ (rr_fields rr ++ (rr.rdata ++ more))) (length pre + 8) ≡ length rr.rdata)
      × (length pre + 10 + length rr.rdata ≤ length (pre ++ (rr_fields rr ++ (rr.rdata ++ more))))
      × (length (pre ++ (rr_fields rr ++ rr.rdata)) ≡ length pre + 10 + length rr.rdata)
rr_sizes pre more rr h =
    let ys = rr_fields rr ++ (rr.rdata ++ more) in
    (
      u16_at-append pre ys (length pre + 8) 8 refl ∙ (rr_fields_read rr (rr.rdata ++ more) h).3,
      omega (
        arith,
        length-append pre ys,
        length-append (rr_fields rr) (rr.rdata ++ more),
        length-append rr.rdata more,
        length-rr_fields rr,
      ),
      omega (
        arith,
        length-append pre (rr_fields rr ++ rr.rdata),
        length-append (rr_fields rr) rr.rdata,
        length-rr_fields rr,
      ),
    )

parse_rrs_step :
    (n : ℕ) (buf : Bytes) (off : ℕ) (rr : Rr) (rrs : List Rr) (next after end : ℕ)
    → parse_name buf off ≡ ok (rr.name, next)
    → (u16_at buf (next + 8) ≡ length rr.rdata)
      × (next + 10 + length rr.rdata ≤ length buf)
      × (after ≡ next + 10 + length rr.rdata)
    → rr_at buf rr.name next (length rr.rdata) ≡ rr
    → parse_rrs n buf after ≡ ok (rrs, end)
    → parse_rrs (suc n) buf off ≡ ok (rr ∷ rrs, end)
unfolding parse_rrs
parse_rrs_step n buf off rr rrs next after end named (len, fits, e) read later =
    rw (named, parse_rrs)
      (rw (
        le→leb (next + 10) (length buf) (omega arith),
        len,
        le→leb (next + 10 + length rr.rdata) (length buf) fits,
        ← e,
        later,
        read,
      ))

pub parse_rrs-wire :
    (rrs : List Rr) (pre rest : Bytes) (off : ℕ)
    → off ≡ length pre
    → All IsRr rrs
    → parse_rrs (length rrs) (pre ++ rrs_wire rrs rest) off
      ≡ ok (rrs, length (pre ++ rrs_wire rrs []))
unfolding parse_rrs rrs_wire
parse_rrs-wire [] pre rest off e h = rw append-nil (ap (λ n. ok ([], n)) e)
parse_rrs-wire (rr ∷ rrs) pre rest off e (h, hs) =
    let piece = rr_fields rr ++ rr.rdata in
    let more = rrs_wire rrs rest in
    let pre1 = pre ++ name_wire rr.name [] in
    let facts = rr_sizes pre1 more rr h in
    let tail = rr_fields rr ++ (rr.rdata ++ more) in
    let buf = pre ++ name_wire rr.name tail in
    let placed = shift_piece pre rr.name (rr_fields rr) (rr.rdata ++ more) in
    let placed' =
      placed
      ∙ (ap (◌++◌ pre1) (sym (append_assoc (rr_fields rr) rr.rdata more))
          ∙ sym (append_assoc pre1 piece more)) in
    let done =
      shift_piece pre rr.name (rr_fields rr) (rr.rdata ++ rrs_wire rrs [])
      ∙ (ap (◌++◌ pre1) (sym (append_assoc (rr_fields rr) rr.rdata (rrs_wire rrs [])))
          ∙ sym (append_assoc pre1 piece (rrs_wire rrs []))) in
    let step =
      parse_rrs_step (length rrs) buf off rr rrs (length pre1) (length (pre1 ++ piece))
        (length ((pre1 ++ piece) ++ rrs_wire rrs []))
        (rw e (parse_name-name_wire pre tail rr.name h.canonical))
        (rw placed (facts.0, facts.1, facts.2)) (rw placed (rr_at-fields pre1 more rr h))
        (rw placed' (parse_rrs-wire rrs (pre1 ++ piece) rest _ refl hs)) in
    step ∙ ap (λ b. ok (rr ∷ rrs, length b)) (sym done)

pub questions_wire-append :
    (qs : List Question) (a b : Bytes) → questions_wire qs a ++ b ≡ questions_wire qs (a ++ b)
unfolding questions_wire
questions_wire-append [] a b = refl
questions_wire-append (q ∷ qs) a b =
    let more = questions_wire qs a in
    name_wire-append q.name (question_fields q ++ more) b
    ∙ ap (λ t. name_wire q.name (question_fields q ++ t)) (questions_wire-append qs a b)

pub rrs_wire-append : (rrs : List Rr) (a b : Bytes) → rrs_wire rrs a ++ b ≡ rrs_wire rrs (a ++ b)
unfolding rrs_wire
rrs_wire-append [] a b = refl
rrs_wire-append (rr ∷ rrs) a b =
    let more = rrs_wire rrs a in
    name_wire-append rr.name (rr_fields rr ++ (rr.rdata ++ more)) b
    ∙ ap (λ t. name_wire rr.name (rr_fields rr ++ t))
        (append_assoc rr.rdata more b ∙ ap (◌++◌ rr.rdata) (rrs_wire-append rrs a b))

pub rrs_wire_two :
    (front bs : List Rr) (rest : Bytes)
    → rrs_wire (front ++ bs) rest ≡ rrs_wire front (rrs_wire bs rest)
unfolding rrs_wire
rrs_wire_two [] bs rest = refl
rrs_wire_two (rr ∷ front) bs rest =
    ap (λ t. name_wire rr.name (rr_fields rr ++ (rr.rdata ++ t))) (rrs_wire_two front bs rest)

length-questions_wire :
    (qs : List Question) (rest : Bytes)
    → length qs * 5 + length rest ≤ length (questions_wire qs rest)
unfolding questions_wire
length-questions_wire [] rest = omega arith
length-questions_wire (q ∷ qs) rest = omega (
  arith,
  length-questions_wire qs rest,
  length-name_wire q.name (question_fields q ++ questions_wire qs rest),
)

length-rrs_wire :
    (rrs : List Rr) (rest : Bytes) → length rrs * 11 + length rest ≤ length (rrs_wire rrs rest)
unfolding rrs_wire
length-rrs_wire [] rest = omega arith
length-rrs_wire (rr ∷ rrs) rest = omega (
  arith,
  length-rrs_wire rrs rest,
  length-name_wire rr.name (rr_fields rr ++ (rr.rdata ++ rrs_wire rrs rest)),
  length-append rr.rdata (rrs_wire rrs rest),
)

-- A section of records, behind any bytes and before any others.
pub parse_rr_section-wire :
    (rrs : List Rr) (pre rest : Bytes)
    → All IsRr rrs
    → parse_rr_section (pre ++ rrs_wire rrs rest) (length pre) (length rrs)
      ≡ ok (rrs, length (pre ++ rrs_wire rrs []))
unfolding parse_rr_section
parse_rr_section-wire [] pre rest h = unfold rrs_wire in rw append-nil
parse_rr_section-wire (rr ∷ rrs) pre rest h =
    let all = rr ∷ rrs in
    let room : length all * 11 ≤ length (pre ++ rrs_wire all rest) - length pre =
      omega (arith, length-rrs_wire all rest, length-append pre (rrs_wire all rest)) in
    let some_left : (length all == 0) ≡ false = ground arith in
    rw (some_left, le→leb _ _ room) (parse_rrs-wire all pre rest (length pre) refl h)

pub parse_question_section-wire :
    (qs : List Question) (pre rest : Bytes)
    → length pre ≡ 12
    → All IsQuestion qs
    → parse_question_section (pre ++ questions_wire qs rest) (length qs)
      ≡ ok (qs, length (pre ++ questions_wire qs []))
unfolding parse_question_section
parse_question_section-wire qs pre rest twelve h =
    let room : length qs * 5 ≤ length (pre ++ questions_wire qs rest) - 12 =
      omega (arith, length-questions_wire qs rest, length-append pre (questions_wire qs rest)) in
    rw (le→leb _ _ room) (parse_questions-wire qs pre rest 12 (sym twelve) h)

pub header_at-header_bytes :
    (h : Header) (rest : Bytes)
    → IsU16 h.id × IsU16 h.flags
    → IsU16 h.qd_count × IsU16 h.an_count × IsU16 h.ns_count × IsU16 h.ar_count
    → header_at (header_bytes h ++ rest) ≡ h
unfolding header_at header_bytes
header_at-header_bytes h rest (a, b) (c, d, e, f) = ground arith

pub length-header_bytes : (h : Header) → length (header_bytes h) ≡ 12
unfolding header_bytes
length-header_bytes h = refl
