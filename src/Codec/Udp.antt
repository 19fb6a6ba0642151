-- ===== src/Codec/Udp.antt =====
-- The size of what `pack_udp` answers.
use shard_dns.Codec.{
  append_opt, rr_tail, append_rr, append_rrs, append_questions, set_counts, header_bytes, pack_body,
  pack, truncated, pack_shorter, pack_udp,
}
use shard_dns.Name.Pack.{wire, labels, pack_trimmed-eq-ok, length-wire}
use shard_dns.Name.RoundTrip.{size-labels}
use shard_dns.Name.{pack_trimmed, pack_name, append_name}
use shard_dns.Prelude.Text.{trim_suffix}
use shard_dns.Wire.{Question, Rr, Message, udp_size}
use shard_dns.Prelude.{
  ℕ, ◌+◌, ◌*◌, ◌≤◌, ◌<◌, Bool, List, [], ◌∷◌, ◌++◌, ◌≡◌, refl, arith, ◌∙◌, inl, inr, Bool-cases,
  leb, le→leb, leb→le, if◌then◌else◌, is_empty, Bytes, codes, put_u16, length, length-append, All,
  ok, ◌>>=◌, >>=-eq-ok, Outcome-cases,
}

-- A packed name takes 1 to 255 bytes.
length-append_name :
    (buf name : Bytes)
    → (length buf + 1 ≤ length (append_name buf name))
      × (length (append_name buf name) ≤ length buf + 255)
unfolding append_name pack_name
length-append_name buf name =
    elim (Outcome-cases (pack_trimmed buf (trim_suffix name (codes ".")))) [
      | inl (out, e) ↦
          let bare = trim_suffix name (codes ".") in
          let (packable, placed) = pack_trimmed-eq-ok buf bare e in
          let fits = packable.fits in
          let w = wire (labels bare) [] in
          rw (e, append_name, placed)
            (omega (arith, length-append buf w, length-wire (labels bare) [], size-labels bare))
      | inr (x, e) ↦ rw (e, append_name) (omega (arith, length-append buf (0 ∷ [])))
    ]

length-append_questions :
    (qs : List Question) (buf : Bytes)
    → (length buf + length qs * 5 ≤ length (append_questions buf qs))
      × (length (append_questions buf qs) ≤ length buf + length qs * 259)
unfolding append_questions
length-append_questions [] buf = omega arith
length-append_questions (q ∷ qs) buf =
    let tc = put_u16 q.qtype ++ put_u16 q.class in
    let named = append_name buf q.name in
    omega (
      arith,
      length-append_questions qs (named ++ tc),
      length-append named tc,
      length-append_name buf q.name,
    )

-- The records whose data fits its length field.
abbrev pub HasShortData : List Rr → Type 0
HasShortData = All (λ rr. length rr.rdata ≤ 65535)

append_rr_total :
    (buf : Bytes) (rr : Rr) → length rr.rdata ≤ 65535 → (out : Bytes) × (append_rr buf rr ≡ ok out)
unfolding append_rr
append_rr_total buf rr h =
    (append_name buf rr.name ++ rr_tail rr, rw (le→leb (length rr.rdata) 65535 h))

append_rrs_total :
    (rrs : List Rr) (buf : Bytes) → HasShortData rrs → (out : Bytes) × (append_rrs buf rrs ≡ ok out)
unfolding append_rrs
append_rrs_total [] buf h = (buf, refl)
append_rrs_total (rr ∷ rrs) buf (h, hs) =
    let (mid, e) = append_rr_total buf rr h in
    let (out, f) = append_rrs_total rrs mid hs in (out, rw (e, append_rrs) f)

length-append_rr :
    (buf : Bytes) (rr : Rr) {out : Bytes} → append_rr buf rr ≡ ok out → length buf ≤ length out
unfolding append_rr
length-append_rr buf rr {out} h =
    let whole = append_name buf rr.name ++ rr_tail rr in
    let grows : length buf ≤ length whole = omega (
      arith,
      length-append (append_name buf rr.name) (rr_tail rr),
      length-append_name buf rr.name,
    ) in
    ground arith

length-append_rrs :
    (rrs : List Rr) (buf : Bytes) {out : Bytes}
    → append_rrs buf rrs ≡ ok out
    → length buf ≤ length out
unfolding append_rrs
length-append_rrs [] buf h = ground arith
length-append_rrs (rr ∷ rrs) buf h =
    let (mid, e, f) = >>=-eq-ok (append_rr buf rr) (λ b. append_rrs b rrs) h in
    omega (arith, length-append_rr buf rr e, length-append_rrs rrs mid f)

-- What `pack_body` has written before the records.
abbrev before_rrs : Message → Bytes
before_rrs m = append_questions (header_bytes m.header) m.questions

length-header : (m : Message) → length (header_bytes m.header) ≡ 12
unfolding header_bytes
length-header m = refl

length-append_opt :
    (buf : Bytes) (size : ℕ) (do_bit : Bool) → length (append_opt buf size do_bit) ≡ length buf + 11
unfolding append_opt
length-append_opt buf size do_bit = simp length-append (omega arith)

pub record IsShort (m : Message) : Type 0 where
  pub short_answers : HasShortData m.answers
  pub short_authority : HasShortData m.authority
  pub short_additional : HasShortData m.additional

pack_body_total : (m : Message) → IsShort m → (out : Bytes) × (pack_body m ≡ ok out)
unfolding pack_body
pack_body_total m h =
    let (b1, e1) = append_rrs_total m.answers (before_rrs m) h.short_answers in
    let (b2, e2) = append_rrs_total m.authority b1 h.short_authority in
    let (b3, e3) = append_rrs_total m.additional b2 h.short_additional in
    (if m.edns0 then append_opt b3 m.edns0_size m.edns0_do else b3, rw (e1, e2, e3))

-- Every packed message holds all the questions.
pack_body_min :
    (m : Message) {out : Bytes} → pack_body m ≡ ok out → 12 + length m.questions * 5 ≤ length out
unfolding pack_body
pack_body_min m {out} h =
    let (b1, e1, h1) = >>=-eq-ok (append_rrs (before_rrs m) m.answers) _ h in
    let (b2, e2, h2) = >>=-eq-ok (append_rrs b1 m.authority) _ h1 in
    let (b3, e3, h3) = >>=-eq-ok (append_rrs b2 m.additional) _ h2 in
    let n1 = length-append_rrs m.answers (before_rrs m) e1 in
    let n2 = length-append_rrs m.authority b1 e2 in
    let n3 = length-append_rrs m.additional b2 e3 in
    let n0 = length-append_questions m.questions (header_bytes m.header) in
    let n4 = length-append_opt b3 m.edns0_size m.edns0_do in
    let hd = length-header m in ground arith

-- With one question at most, the truncated message takes at most 282 bytes.
truncated_small :
    (m : Message)
    → length m.questions ≤ 1
    → (out : Bytes) × (pack_body (set_counts (truncated m)) ≡ ok out) × (length out ≤ 512)
unfolding pack_body set_counts truncated append_rrs
truncated_small m one =
    let t = set_counts (truncated m) in
    let b = before_rrs t in
    let n0 = length-append_questions m.questions (header_bytes t.header) in
    let n4 = length-append_opt b m.edns0_size m.edns0_do in
    let hd = length-header t in
    (if m.edns0 then append_opt b m.edns0_size m.edns0_do else b, refl, ground arith)

udp_size_bounds : (m : Message) → (512 ≤ udp_size m) × (udp_size m ≤ 1232)
unfolding udp_size
udp_size_bounds m = ground arith

pack_shorter_fits :
    (m : Message) (limit : ℕ)
    → length m.questions ≤ 1
    → IsShort m
    → 512 ≤ limit
    → (out : Bytes) × (pack_shorter m limit ≡ ok out) × (length out ≤ limit)
unfolding pack_shorter pack set_counts
pack_shorter_fits m limit one short room = elim (Bool-cases (is_empty m.additional)) [
  | inl e ↦ (least.0, rw (e, pack_shorter) (least.1), omega (arith, least.2))
  | inr e ↦ rw (e, pack_shorter) (second whole)
]
  where
    least : (out : Bytes) × (pack_body (set_counts (truncated m)) ≡ ok out) × (length out ≤ 512)
    least = truncated_small m one

    trimmed : Message
    trimmed = set_counts (record m { additional = [] })

    whole : (out : Bytes) × (pack_body trimmed ≡ ok out)
    whole = pack_body_total trimmed (record {
      short_answers = short.short_answers;
      short_authority = short.short_authority;
      short_additional = tt;
    })

    second :
        (out : Bytes) × (pack_body trimmed ≡ ok out)
        → (out : Bytes) × ((pack_body trimmed >>= λ out.
              if leb (length out) limit then ok out else pack_body (set_counts (truncated m)))
            ≡ ok out)
          × (length out ≤ limit)
    second (out, e) = elim (Bool-cases (leb (length out) limit)) [
      | inl f ↦ (out, rw (e, f), leb→le _ _ f)
      | inr f ↦ (least.0, rw (e, f) (least.1), omega (arith, least.2))
    ]

set_counts-IsShort : (m : Message) → IsShort m → IsShort (set_counts m)
unfolding set_counts
set_counts-IsShort m h = record {
  short_answers = h.short_answers;
  short_authority = h.short_authority;
  short_additional = h.short_additional;
}

-- With one question at most, and record data of at most 65535 bytes each, `pack_udp` always
-- returns a message, and it is no longer than the `udp_size` of the message.
pub pack_udp_fits :
    (m : Message)
    → length m.questions ≤ 1
    → IsShort m
    → (out : Bytes) × ((pack_udp m).1 ≡ ok out) × (length out ≤ udp_size m)
unfolding pack_udp pack set_counts
pack_udp_fits m one short = whole_then (pack_body_total (set_counts m) (set_counts-IsShort m short))
  where
    shorter :
        (out : Bytes) × (pack_shorter (set_counts m) (udp_size m) ≡ ok out)
        × (length out ≤ udp_size m)
    shorter =
        pack_shorter_fits (set_counts m) (udp_size m) one (set_counts-IsShort m short)
          (udp_size_bounds m).0

    whole_then :
        (out : Bytes) × (pack_body (set_counts m) ≡ ok out)
        → (out : Bytes) × ((pack_udp m).1 ≡ ok out) × (length out ≤ udp_size m)
    whole_then (out, e) = elim (Bool-cases (leb (length out) (udp_size m))) [
      | inl f ↦ (out, rw (e, f), leb→le _ _ f)
      | inr f ↦ (shorter.0, rw (e, f) (shorter.1), shorter.2)
    ]

pack_shorter_min :
    (m : Message) (limit : ℕ) {out : Bytes}
    → pack_shorter m limit ≡ ok out
    → 12 + length m.questions * 5 ≤ length out
unfolding pack_shorter pack set_counts truncated
pack_shorter_min m limit {out} h =
    let t = set_counts (truncated m) in
    let s = set_counts (record m { additional = [] }) in
    elim (Bool-cases (is_empty m.additional)) [
      | inl e ↦ pack_body_min t (rw (e, pack_shorter) at h)
      | inr e ↦
          let (mid, f, g) = >>=-eq-ok (pack_body s) _ (rw (e, pack_shorter) at h) in
          elim (Bool-cases (leb (length mid) limit)) [
            | inl k ↦ pack_body_min s {out = out} (f ∙ (rw k at g))
            | inr k ↦ pack_body_min t {out = out} (rw k at g)
          ]
    ]

-- Whatever `pack_udp` answers holds all the questions, at five bytes each at least. So with
-- more than (size - 12) / 5 questions the answer is longer than the `udp_size` of the message.
pub pack_udp_overflows :
    (m : Message) {out : Bytes}
    → (pack_udp m).1 ≡ ok out
    → udp_size m < 12 + length m.questions * 5
    → udp_size m < length out
unfolding pack_udp pack set_counts
pack_udp_overflows m {out} h many =
    let (whole, f, g) = >>=-eq-ok (pack_body (set_counts m)) _ h in
    elim (Bool-cases (leb (length whole) (udp_size m))) [
      | inl k ↦ omega (arith, pack_body_min (set_counts m) {out = out} (f ∙ (rw k at g)))
      | inr k ↦ omega (arith, pack_shorter_min (set_counts m) (udp_size m) {out = out} (rw k at g))
    ]
