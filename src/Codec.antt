-- ===== src/Codec.antt =====
-- Messages on the wire: `ParseMessage`, `parseRRSection`, `Pack`, `PackUDP`, `AppendOPT` and
-- `appendRRs` of internal/dns/message.go. The buffer that `Pack` is given is only storage, and is
-- not modelled. An error keeps the place that the source names in its text.
pub mod Layout
pub mod Sections
pub mod RoundTrip
pub mod Udp
use shard_dns.Name.{ParseError, parse_name, append_name}
use shard_dns.Wire.{
  Header, Question, Rr, Message, type_opt, max_edns_udp_size, flag_tc, udp_size, with_flags,
}
use shard_dns.Prelude.{
  ℕ, zero, suc, ◌+◌, ◌*◌, ◌/◌, ◌%◌, ◌-◌, bit_and, bit_or, Bool, true, false, not, List, [], ◌∷◌,
  ◌++◌, ltb, leb, ◌==◌, if◌then◌else◌, Bytes, put_u16, put_u32, length, is_empty, get_or, slice,
  Outcome, ok, err, ◌>>=◌, ◌>>◌, guard, map_err,
}

-- `binary.BigEndian.Uint16(buf[off:off+2])` and `Uint32`, within the buffer
unfoldable pub u16_at : Bytes → ℕ → ℕ
u16_at buf off = get_or buf off 0 * 256 + get_or buf (off + 1) 0

unfoldable pub u32_at : Bytes → ℕ → ℕ
unfolding u16_at
u32_at buf off = u16_at buf off * 65536 + u16_at buf (off + 2)

pub data SectionError : Type 0 where
  record_count truncated_header truncated_rdata : SectionError
  rr_name : ParseError → SectionError

pub data MessageError : Type 0 where
  too_short question_count truncated_question : MessageError
  question_name : ParseError → MessageError
  in_answers in_authority in_additional : SectionError → MessageError

-- The header in the first twelve bytes.
unfoldable pub header_at : Bytes → Header
unfolding u16_at
header_at buf = record {
  id = u16_at buf 0;
  flags = u16_at buf 2;
  qd_count = u16_at buf 4;
  an_count = u16_at buf 6;
  ns_count = u16_at buf 8;
  ar_count = u16_at buf 10;
}

-- The loop over the questions, with the rounds left: the questions and the next offset.
unfoldable pub parse_questions : ℕ → Bytes → ℕ → Outcome MessageError (List Question × ℕ)
unfolding u16_at
parse_questions zero buf off = ok ([], off)
parse_questions (suc n) buf off = map_err question_name (parse_name buf off) >>= λ (name, next).
    guard (leb (next + 4) (length buf)) truncated_question
    >> (parse_questions n buf (next + 4) >>= λ (qs, end).
        ok (
          record { name = name; qtype = u16_at buf next; class = u16_at buf (next + 2) } ∷ qs,
          end,
        ))

-- The record whose name ends at `next`, with `rdlen` bytes of data.
unfoldable pub rr_at : Bytes → Bytes → ℕ → ℕ → Rr
unfolding u16_at u32_at
rr_at buf name next rdlen = record {
  name = name;
  rtype = u16_at buf next;
  class = u16_at buf (next + 2);
  ttl = u32_at buf (next + 4);
  rdata = slice (next + 10) (next + 10 + rdlen) buf;
}

-- The loop over the records of a section.
unfoldable pub parse_rrs : ℕ → Bytes → ℕ → Outcome SectionError (List Rr × ℕ)
unfolding u16_at
parse_rrs zero buf off = ok ([], off)
parse_rrs (suc n) buf off = map_err rr_name (parse_name buf off) >>= λ (name, next).
    guard (leb (next + 10) (length buf)) truncated_header
    >> (let rdlen = u16_at buf (next + 8) in
        guard (leb (next + 10 + rdlen) (length buf)) truncated_rdata
        >> (parse_rrs n buf (next + 10 + rdlen) >>= λ (rrs, end).
            ok (rr_at buf name next rdlen ∷ rrs, end)))

unfoldable pub parse_rr_section : Bytes → ℕ → ℕ → Outcome SectionError (List Rr × ℕ)
unfolding parse_rrs
parse_rr_section buf off count =
    if count == 0
    then ok ([], off)
    else guard (leb (count * 11) (length buf - off)) record_count >> parse_rrs count buf off

-- The loop over the additional records: an OPT record sets the EDNS fields and is dropped. `out`
-- is `filtered`.
unfoldable pub apply_opts : Message → List Rr → List Rr → Message
apply_opts m [] out = record m { additional = out }
apply_opts m (rr ∷ rrs) out =
    let seen =
      apply_opts
        (record m {
          edns0 = true;
          edns0_size = rr.class;
          edns0_do = not (bit_and rr.ttl 0x8000 == 0);
        })
        rrs out in
    let kept = apply_opts m rrs (out ++ (rr ∷ [])) in if rr.rtype == type_opt then seen else kept

-- `m.QDCount*5 > len(buf)-off` and the loop.
unfoldable pub parse_question_section : Bytes → ℕ → Outcome MessageError (List Question × ℕ)
unfolding parse_questions
parse_question_section buf count =
    guard (leb (count * 5) (length buf - 12)) question_count >> parse_questions count buf 12

unfoldable pub parse_message : Bytes → Outcome MessageError Message
parse_message buf =
    if ltb (length buf) 12
    then err too_short
    else let h = header_at buf in
      (parse_question_section buf h.qd_count >>= λ (qs, off).
      map_err in_answers (parse_rr_section buf off h.an_count) >>= λ (an, off').
      map_err in_authority (parse_rr_section buf off' h.ns_count) >>= λ (ns, off'').
      map_err in_additional (parse_rr_section buf off'' h.ar_count) >>= λ (ar, _). ok (
        apply_opts
          (record {
            header = h;
            questions = qs;
            answers = an;
            authority = ns;
            additional = ar;
            edns0 = false;
            edns0_do = false;
            edns0_size = 0;
          })
          ar []))

-- `errors.New("rdata too long")`
pub data LengthError : Type 0 where
  rdata_too_long : LengthError

-- `AppendOPT`: the root name, type OPT, the size as class, the DO bit in the time to live, no data.
unfoldable pub append_opt : Bytes → ℕ → Bool → Bytes
append_opt buf size do_bit =
    (buf ++ (0 ∷ []))
    ++ (put_u16 type_opt
        ++ (put_u16 (if size == 0 then max_edns_udp_size else size)
            ++ (put_u32 (if do_bit then 0x8000 else 0) ++ put_u16 0)))

-- What a record has behind its name.
abbrev pub rr_tail : Rr → Bytes
rr_tail rr =
    put_u16 rr.rtype
    ++ (put_u16 rr.class ++ (put_u32 rr.ttl ++ (put_u16 (length rr.rdata % 65536) ++ rr.rdata)))

-- One round of the loop in `appendRRs`.
unfoldable pub append_rr : Bytes → Rr → Outcome LengthError Bytes
unfolding append_name
append_rr buf rr =
    guard (leb (length rr.rdata) 0xFFFF) rdata_too_long
    >> ok (append_name buf rr.name ++ rr_tail rr)

unfoldable pub append_rrs : Bytes → List Rr → Outcome LengthError Bytes
unfolding append_rr
append_rrs buf [] = ok buf
append_rrs buf (rr ∷ rrs) = append_rr buf rr >>= λ out. append_rrs out rrs

-- The loop over the questions in `Pack`.
unfoldable pub append_questions : Bytes → List Question → Bytes
unfolding append_name
append_questions buf [] = buf
append_questions buf (q ∷ qs) =
    append_questions (append_name buf q.name ++ (put_u16 q.qtype ++ put_u16 q.class)) qs

-- The counts that `Pack` writes into the message's header; `uint16(len(…))` wraps around.
unfoldable pub set_counts : Message → Message
set_counts m = record m {
  header = record (m.header) {
    qd_count = length m.questions % 65536;
    an_count = length m.answers % 65536;
    ns_count = length m.authority % 65536;
    ar_count =
        if m.edns0 then (length m.additional % 65536 + 1) % 65536 else length m.additional % 65536;
  };
}

unfoldable pub header_bytes : Header → Bytes
header_bytes h =
    put_u16 h.id
    ++ (put_u16 h.flags
        ++ (put_u16 h.qd_count
            ++ (put_u16 h.an_count ++ (put_u16 h.ns_count ++ put_u16 h.ar_count))))

-- What `Pack` writes once the counts are set.
unfoldable pub pack_body : Message → Outcome LengthError Bytes
unfolding header_bytes append_questions append_rrs append_opt
pack_body m = append_rrs (append_questions (header_bytes m.header) m.questions) m.answers >>= λ b1.
    append_rrs b1 m.authority >>= λ b2. append_rrs b2 m.additional >>= λ b3.
    ok (if m.edns0 then append_opt b3 m.edns0_size m.edns0_do else b3)

-- `Pack` changes the message's counts, and returns the bytes.
unfoldable pub pack : Message → Message × Outcome LengthError Bytes
unfolding set_counts pack_body
pack m = (set_counts m, pack_body (set_counts m))

-- The header and questions alone, with TC set.
unfoldable pub truncated : Message → Message
truncated m = record {
  header = record (m.header) { flags = bit_or m.header.flags flag_tc };
  questions = m.questions;
  answers = [];
  authority = [];
  additional = [];
  edns0 = m.edns0;
  edns0_do = m.edns0_do;
  edns0_size = m.edns0_size;
}

-- The last two answers of `PackUDP`, where the whole message `m` does not fit.
unfoldable pub pack_shorter : Message → ℕ → Outcome LengthError Bytes
unfolding pack truncated
pack_shorter m limit =
    if is_empty m.additional
    then (pack (truncated m)).1
    else ((pack (record m { additional = [] })).1 >>= λ out.
        if leb (length out) limit then ok out else (pack (truncated m)).1)

unfoldable pub pack_udp : Message → Message × Outcome LengthError Bytes
unfolding pack pack_shorter udp_size
pack_udp m =
    let m' = (pack m).0 in
    (
      m',
      (pack m).1 >>= λ out.
          if leb (length out) (udp_size m) then ok out else pack_shorter m' (udp_size m),
    )
