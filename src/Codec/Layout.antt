-- ===== src/Codec/Layout.antt =====
-- The bytes that the codec writes, as pieces in front of what follows them, and what the codec
-- reads at the start of each piece.
use shard_dns.Codec.{u16_at, u32_at, append_rr, append_rrs, append_questions}
use shard_dns.Name.Pack.{wire, labels, IsPackable, pack_trimmed_ok, length-wire, wire-append}
use shard_dns.Name.RoundTrip.{shown, parse_name-wire}
use shard_dns.Name.{parse_name, pack_name, append_name}
use shard_dns.Prelude.Text.{trim_suffix}
use shard_dns.Wire.{IsU16, IsU32, Question, Rr}
use shard_dns.Prelude.{
  ℕ, ◌+◌, ◌%◌, ◌≤◌, List, [], ◌∷◌, ◌++◌, ◌≡◌, arith, ◌∙◌, ap, sym, le→leb, append_assoc, append-nil,
  Bytes, codes, put_u16, put_u32, length, length-append, get_or-append_right, All, ok,
}

-- A name in the form in which the parser shows it, that can be packed.
pub record IsCanonical (name : Bytes) : Type 0 where
  pub packable : IsPackable (trim_suffix name (codes "."))
  pub as_shown : shown (trim_suffix name (codes ".")) ≡ name

-- The name on the wire, with `rest` behind it.
unfoldable pub name_wire : Bytes → Bytes → Bytes
name_wire name rest = wire (labels (trim_suffix name (codes "."))) rest

pub name_wire-append : (name a b : Bytes) → name_wire name a ++ b ≡ name_wire name (a ++ b)
unfolding name_wire
name_wire-append name = wire-append (labels (trim_suffix name (codes ".")))

pub name_wire-nil : (name rest : Bytes) → name_wire name rest ≡ name_wire name [] ++ rest
name_wire-nil name rest = sym (name_wire-append name [] rest)

pub append_name-wire :
    (buf name : Bytes) → IsCanonical name → append_name buf name ≡ buf ++ name_wire name []
unfolding append_name pack_name name_wire
append_name-wire buf name h = rw (pack_trimmed_ok buf _ h.packable, append_name)

pub parse_name-name_wire :
    (pre rest name : Bytes)
    → IsCanonical name
    → parse_name (pre ++ name_wire name rest) (length pre)
      ≡ ok (name, length (pre ++ name_wire name []))
unfolding name_wire
parse_name-name_wire pre rest name h =
    let bare = trim_suffix name (codes ".") in
    parse_name-wire pre rest bare h.packable
    ∙ rw h.as_shown (
        ap (λ n. ok (name, n))
          (omega (arith, length-append pre (wire (labels bare) []), length-wire (labels bare) [])))

pub length-name_wire : (name rest : Bytes) → 1 + length rest ≤ length (name_wire name rest)
unfolding name_wire
length-name_wire name rest = omega (arith, length-wire (labels (trim_suffix name (codes "."))) rest)

pub u16_at-append :
    (pre ys : Bytes) (i k : ℕ) → i ≡ length pre + k → u16_at (pre ++ ys) i ≡ u16_at ys k
unfolding u16_at
u16_at-append pre ys i k e =
    rw (
      get_or-append_right pre ys i k 0 e,
      get_or-append_right pre ys (i + 1) (k + 1) 0 (omega arith),
    )

pub u32_at-append :
    (pre ys : Bytes) (i k : ℕ) → i ≡ length pre + k → u32_at (pre ++ ys) i ≡ u32_at ys k
unfolding u32_at
u32_at-append pre ys i k e =
    rw (u16_at-append pre ys i k e, u16_at-append pre ys (i + 2) (k + 2) (omega arith))

-- A question's type and class.
unfoldable pub question_fields : Question → Bytes
question_fields q = put_u16 q.qtype ++ put_u16 q.class

unfoldable pub questions_wire : List Question → Bytes → Bytes
unfolding question_fields
questions_wire [] rest = rest
questions_wire (q ∷ qs) rest = name_wire q.name (question_fields q ++ questions_wire qs rest)

-- The ten bytes between a record's name and its data.
unfoldable pub rr_fields : Rr → Bytes
rr_fields rr =
    put_u16 rr.rtype ++ (put_u16 rr.class ++ (put_u32 rr.ttl ++ put_u16 (length rr.rdata % 65536)))

unfoldable pub rrs_wire : List Rr → Bytes → Bytes
unfolding rr_fields
rrs_wire [] rest = rest
rrs_wire (rr ∷ rrs) rest = name_wire rr.name (rr_fields rr ++ (rr.rdata ++ rrs_wire rrs rest))

pub record IsQuestion (q : Question) : Type 0 where
  pub canonical : IsCanonical q.name
  pub qtype_word : IsU16 q.qtype
  pub class_word : IsU16 q.class

pub record IsRr (rr : Rr) : Type 0 where
  pub canonical : IsCanonical rr.name
  pub rtype_word : IsU16 rr.rtype
  pub class_word : IsU16 rr.class
  pub ttl_word : IsU32 rr.ttl
  pub rdata_fits : length rr.rdata ≤ 65535

pub append_questions-wire :
    (qs : List Question) (buf : Bytes)
    → All IsQuestion qs
    → append_questions buf qs ≡ buf ++ questions_wire qs []
unfolding append_questions questions_wire
append_questions-wire [] buf h = sym (append-nil buf)
append_questions-wire (q ∷ qs) buf (h, hs) =
    let tail = question_fields q in
    let w = name_wire q.name [] in
    rw (append_name-wire buf q.name h.canonical) (
      append_questions-wire qs ((buf ++ w) ++ tail) hs
      ∙ (append_assoc (buf ++ w) tail (questions_wire qs [])
          ∙ (append_assoc buf w (tail ++ questions_wire qs [])
              ∙ ap (◌++◌ buf) (name_wire-append q.name [] (tail ++ questions_wire qs [])))))

append_rr-wire :
    (buf : Bytes) (rr : Rr)
    → IsRr rr
    → append_rr buf rr ≡ ok ((buf ++ name_wire rr.name []) ++ (rr_fields rr ++ rr.rdata))
unfolding append_rr rr_fields
append_rr-wire buf rr h =
    rw (le→leb (length rr.rdata) 65535 h.rdata_fits) (rw (append_name-wire buf rr.name h.canonical))

pub append_rrs-wire :
    (rrs : List Rr) (buf : Bytes) → All IsRr rrs → append_rrs buf rrs ≡ ok (buf ++ rrs_wire rrs [])
unfolding append_rrs
append_rrs-wire [] buf h = ap ok (unfold rrs_wire in sym (append-nil buf))
append_rrs-wire (rr ∷ rrs) buf (h, hs) =
    let w = name_wire rr.name [] in
    let tail = rr_fields rr in
    let later = rrs_wire rrs [] in
    rw (append_rr-wire buf rr h, append_rrs)
      (append_rrs-wire rrs ((buf ++ w) ++ (tail ++ rr.rdata)) hs
        ∙ ap ok (
            append_assoc (buf ++ w) (tail ++ rr.rdata) later
            ∙ (append_assoc buf w ((tail ++ rr.rdata) ++ later)
                ∙ ap (◌++◌ buf) (
                    name_wire-append rr.name [] ((tail ++ rr.rdata) ++ later)
                    ∙ unfold rrs_wire in
                      ap (name_wire rr.name) (append_assoc tail rr.rdata later)))))
