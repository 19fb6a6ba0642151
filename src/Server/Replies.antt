-- ===== src/Server/Replies.antt =====
-- What the FORMERR answer says, and datagrams that get no answer.
use shard_dns.Codec.{
  parse_message, parse_question_section, parse_rr_section, apply_opts, header_at, u16_at,
}
use shard_dns.Prelude.Bits.{every_under, every_under_at, all_words, words_agree}
use shard_dns.Wire.{Rr, Question, type_opt, flag_qr}
use shard_dns.Zones.{Resolver}
use shard_dns.Prelude.Text.{GoRuntime}
use shard_dns.Server.{form_err, is_request, serve_udp, reply_udp, after_parse_udp}
use shard_dns.Wire.Flags.{opcode_flags, rcode_flags}
use shard_dns.Wire.{Message, Header, opcode, rcode}
use shard_dns.Prelude.{
  none, leb, sym, Outcome-cases, Bool-cases, inl, inr, not, ◌++◌, ◌-◌, List, length, ◌≤◌, ◌∷◌, ltb,
  bit_and, ℕ, ◌+◌, ◌*◌, ◌/◌, ◌%◌, ◌<◌, true, false, ◌==◌, ==_iff, [], ◌≡◌, refl, ◌∙◌, ap, arith,
  Bytes, bit_and, bit_or, get_or, ok,
}

-- The third byte of the FORMERR answer, for each third byte of a request.
form_err_table :
    every_under (λ b. bit_or 0x80 (bit_and b 0x79) == 128 + b / 8 % 16 * 8 + b % 2) 256 ≡ true
form_err_table = unfold every_under in refl

form_err_byte : (b : ℕ) → b < 256 → bit_or 0x80 (bit_and b 0x79) ≡ 128 + b / 8 % 16 * 8 + b % 2
form_err_byte b h = (==_iff _ _).0 (
    every_under_at (λ b. bit_or 0x80 (bit_and b 0x79) == 128 + b / 8 % 16 * 8 + b % 2) 256 b h
      form_err_table)

-- The message that a FORMERR answer is.
abbrev bare : Header → Message
bare h = record {
  header = h;
  questions = [];
  answers = [];
  authority = [];
  additional = [];
  edns0 = false;
  edns0_do = false;
  edns0_size = 0;
}

-- A FORMERR answer parses as a response with the identifier, operation code and RD bit of the
-- first twelve bytes of the request, with response code 1 and with no questions and no answers.
pub parse_message-form_err :
    (msg : Bytes)
    → get_or msg 2 0 < 256
    → (m : Message) × (parse_message (form_err msg) ≡ ok m)
      × (m.header.id ≡ u16_at msg 0)
      × (m.header.flags / 32768 ≡ 1)
      × (opcode m ≡ get_or msg 2 0 / 8 % 16)
      × (m.header.flags / 256 % 2 ≡ get_or msg 2 0 % 2)
      × (rcode m ≡ 1)
      × (m.questions ≡ [])
      × (m.answers ≡ [])
unfolding form_err parse_message header_at u16_at parse_question_section parse_rr_section apply_opts
parse_message-form_err msg h =
    let e = form_err_byte (get_or msg 2 0) h in
    let m = bare (header_at (form_err msg)) in
    let f : m.header.flags ≡ (128 + get_or msg 2 0 / 8 % 16 * 8 + get_or msg 2 0 % 2) * 256 + 1 =
      ap (λ n. n * 256 + 1) e in
    let w : m.header.flags < 65536 = omega (arith, f) in
    (
      m,
      refl,
      refl,
      omega (arith, f),
      opcode_flags m w ∙ omega (arith, f),
      omega (arith, f),
      rcode_flags m w ∙ omega (arith, f),
      refl,
      refl,
    )

-- A parsed message has the header of the buffer's first twelve bytes.
apply_opts-header : (m : Message) (rrs out : List Rr) → (apply_opts m rrs out).header ≡ m.header
unfolding apply_opts
apply_opts-header m [] out = refl
apply_opts-header m (rr ∷ rrs) out = elim (Bool-cases (rr.rtype == type_opt)) [
  | inl e ↦ rw e (
      apply_opts-header
        (record m {
          edns0 = true;
          edns0_size = rr.class;
          edns0_do = not (bit_and rr.ttl 0x8000 == 0);
        })
        rrs out)
  | inr e ↦ rw e (apply_opts-header m rrs (out ++ (rr ∷ [])))
]

abbrev parsed : Header → List Question → List Rr → List Rr → List Rr → Message
parsed h qs an ns ar = record {
  header = h;
  questions = qs;
  answers = an;
  authority = ns;
  additional = ar;
  edns0 = false;
  edns0_do = false;
  edns0_size = 0;
}

parse_message-header :
    (buf : Bytes) {m : Message} → parse_message buf ≡ ok m → m.header ≡ header_at buf
unfolding parse_message
parse_message-header buf {m} h = elim (Bool-cases (ltb (length buf) 12)) [
  | inl e ↦ absurd (let f = rw e at h in cc)
  | inr e ↦
      let hd = header_at buf in
      elim (Outcome-cases (parse_question_section buf hd.qd_count)) [
        | inr (x, e1) ↦ absurd (let f = rw (e, e1) at h in cc)
        | inl ((qs, o1), e1) ↦ elim (Outcome-cases (parse_rr_section buf o1 hd.an_count)) [
          | inr (x, e2) ↦ absurd (let f = rw (e, e1, e2) at h in cc)
          | inl ((an, o2), e2) ↦ elim (Outcome-cases (parse_rr_section buf o2 hd.ns_count)) [
            | inr (x, e3) ↦ absurd (let f = rw (e, e1, e2, e3) at h in cc)
            | inl ((ns, o3), e3) ↦ elim (Outcome-cases (parse_rr_section buf o3 hd.ar_count)) [
              | inr (x, e4) ↦ absurd (let f = rw (e, e1, e2, e3, e4) at h in cc)
              | inl ((ar, o4), e4) ↦
                  let f = rw (e, e1, e2, e3, e4) at h in
                  let start = parsed hd qs an ns ar in
                  let g : apply_opts start ar [] ≡ m = cc in
                  ap (λ x. x.header) (sym g) ∙ apply_opts-header start ar []
            ]
          ]
        ]
      ]
]

high_bit_table : every_under (λ b. bit_and (b + 128) 0x80 == 128) 128 ≡ true
high_bit_table = unfold every_under in refl

high_bit : (b : ℕ) → 128 ≤ b → b < 256 → bit_and b 0x80 ≡ 128
high_bit b low high =
    let e : b - 128 + 128 ≡ b = omega arith in
    rw e at (
      (==_iff _ _).0 (
        every_under_at (λ b. bit_and (b + 128) 0x80 == 128) 128 (b - 128) (omega arith)
          high_bit_table))

high_flag : (f : ℕ) → f < 65536 → 32768 ≤ f → bit_and f flag_qr ≡ 32768
high_flag f word high =
    let t : bit_and f 0x8000 ≡ f / 32768 * 32768 =
      words_agree (λ n. bit_and n 0x8000) (λ n. n / 32768 * 32768) f (unfold all_words in refl)
        word in
    t ∙ omega arith

-- A datagram of bytes whose QR bit is set gets no answer, whether it parses or not.
pub serve_udp-response :
    ⦃u : GoRuntime⦄
    → (r : Resolver) (msg : Bytes) (rotate : ℕ) → get_or msg 2 0 < 256
    → get_or msg 3 0 < 256
    → 128 ≤ get_or msg 2 0
    → serve_udp r msg rotate ≡ (none, rotate)
unfolding serve_udp after_parse_udp reply_udp is_request
serve_udp-response r msg rotate h2 h3 qr = elim (Outcome-cases (parse_message msg)) [
  | inl (m, e) ↦
      let f : m.header.flags ≡ get_or msg 2 0 * 256 + get_or msg 3 0 =
        ap (λ h. h.flags) (parse_message-header msg e) ∙ (unfold header_at u16_at in refl) in
      rw (e, high_flag m.header.flags (omega (arith, f)) (omega (arith, f))) refl
  | inr (x, e) ↦ elim (Bool-cases (leb 12 (length msg))) [
    | inl l ↦ rw (e, l, high_bit (get_or msg 2 0) qr h2) refl
    | inr l ↦ rw (e, l) refl
  ]
]
