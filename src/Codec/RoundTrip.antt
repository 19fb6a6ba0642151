-- ===== src/Codec/RoundTrip.antt =====
-- `parse_message` reads back what `pack` wrote.
use shard_dns.Codec.Layout.{
  name_wire, questions_wire, rrs_wire, IsQuestion, IsRr, append_questions-wire, append_rrs-wire,
}
use shard_dns.Codec.Sections.{
  questions_wire-append, rrs_wire-append, rrs_wire_two, parse_rr_section-wire,
  parse_question_section-wire, header_at-header_bytes, length-header_bytes,
}
use shard_dns.Codec.{
  header_at, parse_rr_section, apply_opts, parse_question_section, parse_message, append_opt,
  header_bytes, set_counts, pack_body, pack,
}
use mathlib.Core.Path.{subst, subst₂}
use shard_dns.Prelude.Text.{trim_suffix}
use shard_dns.Wire.{IsU16, Header, Question, Rr, Message, type_opt}
use shard_dns.Prelude.{
  ℕ, ◌+◌, ◌%◌, ◌≤◌, ◌<◌, Bool, true, false, List, [], ◌∷◌, ◌++◌, ◌≡◌, ◌≢◌, refl, arith, ◌∙◌, ap,
  sym, ltb, ◌==◌, append_assoc, append-nil, if◌then◌else◌, Bytes, codes, length, length-append, All,
  All-append, ok,
}

-- The EDNS fields: a sixteen-bit size, and without EDNS nothing.
abbrev pub IsEdns : Bool → Bool → ℕ → Type 0
IsEdns true do_bit size = IsU16 size
IsEdns false do_bit size = (do_bit ≡ false) × (size ≡ 0)

-- The size that stands in the OPT record, which has no zero.
abbrev pub sent_size : Bool → ℕ → ℕ
sent_size true size = if size == 0 then 1232 else size
sent_size false size = size

-- Words in range, names that can be packed in the form in which they are shown, data and counts that
-- fit sixteen bits, the OPT record of the EDNS fields included, and no other OPT record.
pub record IsMessage (m : Message) : Type 0 where
  pub id_word : IsU16 m.header.id
  pub flags_word : IsU16 m.header.flags
  pub questions_ok : All IsQuestion m.questions
  pub answers_ok : All IsRr m.answers
  pub authority_ok : All IsRr m.authority
  pub additional_ok : All IsRr m.additional
  pub no_opt : All (λ rr. rr.rtype ≢ type_opt) m.additional
  pub question_count : length m.questions < 65536
  pub answer_count : length m.answers < 65536
  pub authority_count : length m.authority < 65536
  pub additional_count : length m.additional + (if m.edns0 then 1 else 0) < 65536
  pub edns : IsEdns m.edns0 m.edns0_do m.edns0_size

-- The OPT record that `append_opt` writes.
opt_rr : ℕ → Bool → Rr
opt_rr size do_bit = record {
  name = codes ".";
  rtype = type_opt;
  class = size;
  ttl = if do_bit then 0x8000 else 0;
  rdata = [];
}

-- All the records of the additional section on the wire.
abbrev all_additional : List Rr → Bool → Bool → ℕ → List Rr
all_additional rrs true do_bit size = rrs ++ (opt_rr (sent_size true size) do_bit ∷ [])
all_additional rrs false do_bit size = rrs

opt_rr-IsRr : (size : ℕ) (do_bit : Bool) → IsU16 size → IsRr (opt_rr size do_bit)
unfolding opt_rr trim_suffix
opt_rr-IsRr size true h = record {
  canonical = record { packable = record { fits = omega arith; are_labels = tt }; as_shown = refl };
  rtype_word = omega arith;
  class_word = h;
  ttl_word = omega arith;
  rdata_fits = omega arith;
}
opt_rr-IsRr size false h = record {
  canonical = record { packable = record { fits = omega arith; are_labels = tt }; as_shown = refl };
  rtype_word = omega arith;
  class_word = h;
  ttl_word = omega arith;
  rdata_fits = omega arith;
}

append_opt-wire :
    (buf : Bytes) (size : ℕ) (do_bit : Bool)
    → append_opt buf size do_bit ≡ buf ++ rrs_wire (opt_rr (sent_size true size) do_bit ∷ []) []
unfolding append_opt rrs_wire opt_rr name_wire trim_suffix
append_opt-wire buf size do_bit = append_assoc buf (0 ∷ []) _

-- The buffer after each part of the message.
abbrev after_questions : Header → Message → Bytes
after_questions h m = header_bytes h ++ questions_wire m.questions []

abbrev after_answers : Header → Message → Bytes
after_answers h m = after_questions h m ++ rrs_wire m.answers []

abbrev after_authority : Header → Message → Bytes
after_authority h m = after_answers h m ++ rrs_wire m.authority []

abbrev additional_of : Message → List Rr
additional_of m = all_additional m.additional m.edns0 m.edns0_do m.edns0_size

append_edns :
    (pre : Bytes) (rrs : List Rr) (edns0 do_bit : Bool) (size : ℕ)
    → (if edns0 then append_opt (pre ++ rrs_wire rrs []) size do_bit else pre ++ rrs_wire rrs [])
      ≡ pre ++ rrs_wire (all_additional rrs edns0 do_bit size) []
append_edns pre rrs false do_bit size = refl
append_edns pre rrs true do_bit size =
    let opt = opt_rr (sent_size true size) do_bit ∷ [] in
    append_opt-wire (pre ++ rrs_wire rrs []) size do_bit
    ∙ (append_assoc pre (rrs_wire rrs []) (rrs_wire opt [])
        ∙ ap (◌++◌ pre) (rrs_wire-append rrs [] (rrs_wire opt []) ∙ sym (rrs_wire_two rrs opt [])))

pack_body-wire :
    (m : Message)
    → IsMessage m
    → pack_body (set_counts m)
      ≡ ok (after_authority (set_counts m).header m ++ rrs_wire (additional_of m) [])
unfolding pack_body set_counts
pack_body-wire m v =
    let h = (set_counts m).header in
    rw (append_questions-wire m.questions (header_bytes h) v.questions_ok) (
      rw
        (
          append_rrs-wire m.answers (after_questions h m) v.answers_ok,
          append_rrs-wire m.authority (after_answers h m) v.authority_ok,
          append_rrs-wire m.additional (after_authority h m) v.additional_ok,
        )
        (ap ok (append_edns (after_authority h m) m.additional m.edns0 m.edns0_do m.edns0_size)))

-- A parsed message before its OPT records are taken out.
abbrev plain : Header → List Question → List Rr → List Rr → List Rr → Message
plain h qs an ns ar = record {
  header = h;
  questions = qs;
  answers = an;
  authority = ns;
  additional = ar;
  edns0 = false;
  edns0_do = false;
  edns0_size = 0;
}

parse_message_parts :
    (buf : Bytes) (h : Header) (qs : List Question) (an ns ar : List Rr) (o1 o2 o3 o4 : ℕ)
    → 12 ≤ length buf
    → header_at buf ≡ h
    → parse_question_section buf h.qd_count ≡ ok (qs, o1)
    → parse_rr_section buf o1 h.an_count ≡ ok (an, o2)
    → parse_rr_section buf o2 h.ns_count ≡ ok (ns, o3)
    → parse_rr_section buf o3 h.ar_count ≡ ok (ar, o4)
    → parse_message buf ≡ ok (apply_opts (plain h qs an ns ar) ar [])
unfolding parse_message
parse_message_parts buf h qs an ns ar o1 o2 o3 o4 long head q a n r =
    let short : ltb (length buf) 12 ≡ false = ground arith in
    rw (short, head, parse_message) (rw (q, a, n, r))

apply_opts-keep :
    (rrs more : List Rr) (m : Message) (out : List Rr)
    → All (λ rr. rr.rtype ≢ type_opt) rrs
    → apply_opts m (rrs ++ more) out ≡ apply_opts m more (out ++ rrs)
unfolding apply_opts
apply_opts-keep [] more m out h = rw append-nil
apply_opts-keep (rr ∷ rrs) more m out (h, hs) =
    let kept : (rr.rtype == type_opt) ≡ false = ground arith in
    rw kept (apply_opts-keep rrs more m (out ++ (rr ∷ [])) hs ∙ rw append_assoc)

-- The parser's last loop takes the OPT record out again.
apply_opts-edns :
    (h : Header) (qs : List Question) (an ns ar rrs : List Rr) (edns0 do_bit : Bool) (size : ℕ)
    → All (λ rr. rr.rtype ≢ type_opt) rrs
    → IsEdns edns0 do_bit size
    → apply_opts (plain h qs an ns ar) (all_additional rrs edns0 do_bit size) []
      ≡ record (plain h qs an ns rrs) {
        edns0 = edns0;
        edns0_do = do_bit;
        edns0_size = sent_size edns0 size;
      }
unfolding apply_opts opt_rr
apply_opts-edns h qs an ns ar rrs true true size n k = apply_opts-keep rrs _ _ [] n
apply_opts-edns h qs an ns ar rrs true false size n k = apply_opts-keep rrs _ _ [] n
apply_opts-edns h qs an ns ar rrs false do_bit size n (d, s) =
    rw (d, s)
      (ap (λ l. apply_opts (plain h qs an ns ar) l []) (sym (append-nil rrs))
        ∙ apply_opts-keep rrs [] (plain h qs an ns ar) [] n)

length-all_additional :
    (rrs : List Rr) (edns0 do_bit : Bool) (size : ℕ)
    → length rrs + (if edns0 then 1 else 0) < 65536
    → (if edns0 then (length rrs % 65536 + 1) % 65536 else length rrs % 65536)
      ≡ length (all_additional rrs edns0 do_bit size)
length-all_additional rrs true do_bit size h =
    omega (arith, length-append rrs (opt_rr (sent_size true size) do_bit ∷ []))
length-all_additional rrs false do_bit size h = omega arith

all_additional-IsRr :
    (rrs : List Rr) (edns0 do_bit : Bool) (size : ℕ)
    → All IsRr rrs
    → IsEdns edns0 do_bit size
    → All IsRr (all_additional rrs edns0 do_bit size)
all_additional-IsRr rrs true do_bit size h e =
    All-append IsRr rrs (opt_rr (sent_size true size) do_bit ∷ []) h
      (opt_rr-IsRr (sent_size true size) do_bit (ground arith), tt)
all_additional-IsRr rrs false do_bit size h e = h

ar_count_word :
    (edns0 : Bool) (n : ℕ) → IsU16 (if edns0 then (n % 65536 + 1) % 65536 else n % 65536)
ar_count_word edns0 n = ground arith

-- A part, and what stands behind it.
join_rrs :
    (pre : Bytes) (rrs : List Rr) (rest : Bytes)
    → (pre ++ rrs_wire rrs []) ++ rest ≡ pre ++ rrs_wire rrs rest
join_rrs pre rrs rest =
    append_assoc pre (rrs_wire rrs []) rest ∙ ap (◌++◌ pre) (rrs_wire-append rrs [] rest)

-- `pack` succeeds on every message whose words are in range, whose names can be packed in the form in
-- which they are shown, whose data and counts fit, and which has no OPT record but that of its EDNS
-- fields, all zero without EDNS; and `parse_message` reads back the same message, with the counts
-- that `pack` set in its header, and with an EDNS size of 1232 where it was zero.
pub parse_message-pack :
    (m : Message)
    → IsMessage m
    → (out : Bytes) × ((pack m).1 ≡ ok out)
      × (parse_message out
          ≡ ok (record ((pack m).0) { edns0_size = sent_size m.edns0 m.edns0_size }))
unfolding pack set_counts
parse_message-pack m v =
    let h = (set_counts m).header in
    let ar = additional_of m in
    let d = rrs_wire ar [] in
    let c = rrs_wire m.authority d in
    let b = rrs_wire m.answers c in
    let out = after_authority h m ++ d in
    let at_c : out ≡ after_answers h m ++ c = join_rrs (after_answers h m) m.authority d in
    let at_b : out ≡ after_questions h m ++ b = at_c ∙ join_rrs (after_questions h m) m.answers c in
    let at_a : out ≡ header_bytes h ++ questions_wire m.questions b =
      at_b
      ∙ (append_assoc (header_bytes h) (questions_wire m.questions []) b
          ∙ ap (◌++◌ (header_bytes h)) (questions_wire-append m.questions [] b)) in
    let qc : h.qd_count ≡ length m.questions = omega (arith, v.question_count) in
    let ac : h.an_count ≡ length m.answers = omega (arith, v.answer_count) in
    let nc : h.ns_count ≡ length m.authority = omega (arith, v.authority_count) in
    let rc : h.ar_count ≡ length ar =
      length-all_additional m.additional m.edns0 m.edns0_do m.edns0_size v.additional_count in
    let small = ar_count_word m.edns0 (length m.additional) in
    let len = length-header_bytes h in
    let parsed =
      parse_message_parts out h m.questions m.answers m.authority ar (length (after_questions h m))
        (length (after_answers h m)) (length (after_authority h m)) (length out)
        (subst (λ t. 12 ≤ length t) (sym at_a)
          (omega (arith, length-append (header_bytes h) (questions_wire m.questions b))))
        (subst (λ t. header_at t ≡ h) (sym at_a)
          (header_at-header_bytes h _ (v.id_word, v.flags_word)
            (omega arith, omega arith, omega arith, small)))
        (subst₂ (λ t n. parse_question_section t n ≡ ok (m.questions, length (after_questions h m)))
          (sym at_a) (sym qc)
          (parse_question_section-wire m.questions (header_bytes h) b len v.questions_ok))
        (subst₂
          (λ t n.
            parse_rr_section t (length (after_questions h m)) n
            ≡ ok (m.answers, length (after_answers h m)))
          (sym at_b) (sym ac)
          (parse_rr_section-wire m.answers (after_questions h m) c v.answers_ok))
        (subst₂
          (λ t n.
            parse_rr_section t (length (after_answers h m)) n
            ≡ ok (m.authority, length (after_authority h m)))
          (sym at_c) (sym nc)
          (parse_rr_section-wire m.authority (after_answers h m) d v.authority_ok))
        (subst (λ n. parse_rr_section out (length (after_authority h m)) n ≡ ok (ar, length out))
          (sym rc)
          (parse_rr_section-wire ar (after_authority h m) [] (
            all_additional-IsRr m.additional m.edns0 m.edns0_do m.edns0_size v.additional_ok
              v.edns))) in
    (
      out,
      pack_body-wire m v,
      parsed
          ∙ ap ok (
              apply_opts-edns h m.questions m.answers m.authority ar m.additional m.edns0 m.edns0_do
                m.edns0_size v.no_opt v.edns),
    )
