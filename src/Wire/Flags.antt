-- ===== src/Wire/Flags.antt =====
-- What the operations on the header's flags keep and change, in arithmetic: bit k of a word `f`
-- is `f / 2 ^ k % 2`.
use shard_dns.Wire.{
  IsU16, Message, set_rcode, rcode, opcode, set_aa, clear_aa, response_flags, new_response,
  max_edns_udp_size,
}
use shard_dns.Prelude.Bits.{
  all_words, words_agree, bit_and_nibble, bit_and_no_nibble, bit_or_nibble,
}
use shard_dns.Prelude.{
  ℕ, ◌+◌, ◌-◌, ◌*◌, ◌/◌, ◌%◌, ◌^◌, ◌<◌, bit_and, bit_or, false, ◌≡◌, refl, ◌∙◌, arith, [],
  if◌then◌else◌,
}

-- The flags after `set_rcode`: the low four bits are the code, the rest is kept.
pub set_rcode_flags :
    (m : Message) (code : ℕ)
    → IsU16 m.header.flags
    → code < 16
    → (set_rcode m code).header.flags ≡ m.header.flags / 16 * 16 + code
unfolding set_rcode
set_rcode_flags m code h lt =
    rw (bit_and_no_nibble m.header.flags h, bit_and_nibble code (omega arith))
      (bit_or_nibble (m.header.flags / 16 * 16) (code % 16) (omega arith) (omega arith)
        ∙ omega arith)

pub rcode_flags : (m : Message) → IsU16 m.header.flags → rcode m ≡ m.header.flags % 16
unfolding rcode
rcode_flags m h = bit_and_nibble m.header.flags h

pub opcode_flags : (m : Message) → IsU16 m.header.flags → opcode m ≡ m.header.flags / 2048 % 16
unfolding opcode
opcode_flags m h = bit_and_nibble (m.header.flags / 2048) (omega arith)

-- On a header of sixteen-bit flags, `set_rcode` sets the response code that `rcode` then reads,
-- keeps the operation code, and keeps every bit above the low four.
pub rcode-set_rcode :
    (m : Message) (code : ℕ)
    → IsU16 m.header.flags
    → code < 16
    → (rcode (set_rcode m code) ≡ code)
      × (opcode (set_rcode m code) ≡ opcode m)
      × ((set_rcode m code).header.flags / 16 ≡ m.header.flags / 16)
      × IsU16 (set_rcode m code).header.flags
rcode-set_rcode m code h lt =
    let e = set_rcode_flags m code h lt in
    let w : IsU16 (set_rcode m code).header.flags = omega (arith, e) in
    (
      rcode_flags (set_rcode m code) w ∙ omega (arith, e),
      opcode_flags (set_rcode m code) w ∙ (omega (arith, e, opcode_flags m h)),
      omega (arith, e),
      w,
    )

pub set_aa_flags :
    (m : Message)
    → IsU16 m.header.flags
    → (set_aa m).header.flags ≡ m.header.flags - m.header.flags / 1024 % 2 * 1024 + 1024
unfolding set_aa all_words
set_aa_flags m h =
    words_agree (λ f. bit_or f 0x0400) (λ f. f - f / 1024 % 2 * 1024 + 1024) m.header.flags refl h

pub clear_aa_flags :
    (m : Message)
    → IsU16 m.header.flags
    → (clear_aa m).header.flags ≡ m.header.flags - m.header.flags / 1024 % 2 * 1024
unfolding clear_aa all_words
clear_aa_flags m h =
    words_agree (λ f. bit_and f 0xFBFF) (λ f. f - f / 1024 % 2 * 1024) m.header.flags refl h

pub response_flags_lem :
    (f : ℕ) → IsU16 f → response_flags f ≡ 32768 + f / 2048 % 16 * 2048 + f / 256 % 2 * 256
unfolding response_flags all_words
response_flags_lem f h =
    words_agree (λ f. bit_or (bit_or 0x8000 (bit_and f 0x0100)) (bit_and f 0x7800))
      (λ f. 32768 + f / 2048 % 16 * 2048 + f / 256 % 2 * 256) f refl h

new_response_fields :
    (req : Message)
    → ((new_response req).header.id ≡ req.header.id)
      × ((new_response req).questions ≡ req.questions)
      × ((new_response req).header.flags ≡ response_flags req.header.flags)
      × ((new_response req).answers ≡ [])
      × ((new_response req).authority ≡ [])
      × ((new_response req).additional ≡ [])
      × ((new_response req).edns0 ≡ req.edns0)
      × ((new_response req).edns0_size ≡ (if req.edns0 then max_edns_udp_size else 0))
      × ((new_response req).edns0_do ≡ (if req.edns0 then req.edns0_do else false))
unfolding new_response
new_response_fields req = ground arith

-- A new response keeps the request's identifier, questions, operation code and RD bit; its QR bit
-- is set, its AA and TC bits are clear, its response code is 0, and it has no records. It has EDNS
-- exactly when the request has, with the request's DO bit and the server's own size.
pub new_response_lem :
    (req : Message)
    → IsU16 req.header.flags
    → ((new_response req).header.id ≡ req.header.id)
      × ((new_response req).questions ≡ req.questions)
      × (opcode (new_response req) ≡ opcode req)
      × ((new_response req).header.flags / 2 ^ 8 % 2 ≡ req.header.flags / 2 ^ 8 % 2)
      × ((new_response req).header.flags / 2 ^ 15 ≡ 1)
      × ((new_response req).header.flags / 2 ^ 10 % 2 ≡ 0)
      × ((new_response req).header.flags / 2 ^ 9 % 2 ≡ 0)
      × (rcode (new_response req) ≡ 0)
      × ((new_response req).answers ≡ [])
      × ((new_response req).authority ≡ [])
      × ((new_response req).additional ≡ [])
      × ((new_response req).edns0 ≡ req.edns0)
      × ((new_response req).edns0_size ≡ (if req.edns0 then max_edns_udp_size else 0))
      × ((new_response req).edns0_do ≡ (if req.edns0 then req.edns0_do else false))
new_response_lem req h =
    let (i, q, f, an, ns, ar, e, z, d) = new_response_fields req in
    let r = response_flags_lem req.header.flags h in
    let w : IsU16 (new_response req).header.flags = omega (arith, f, r) in
    (
      i,
      q,
      opcode_flags (new_response req) w ∙ (omega (arith, f, r, opcode_flags req h)),
      omega (arith, f, r),
      omega (arith, f, r),
      omega (arith, f, r),
      omega (arith, f, r),
      rcode_flags (new_response req) w ∙ omega (arith, f, r),
      an,
      ns,
      ar,
      e,
      z,
      d,
    )

pub new_response-word :
    (req : Message) → IsU16 req.header.flags → IsU16 (new_response req).header.flags
new_response-word req h =
    let f = (new_response_fields req).2 in omega (arith, f, response_flags_lem req.header.flags h)
