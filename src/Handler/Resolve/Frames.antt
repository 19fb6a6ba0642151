-- ===== src/Handler/Resolve/Frames.antt =====
-- What the operations on a response keep: identifier, questions, EDNS fields and most flags.
use shard_dns.Wire.Flags.{set_rcode_flags, set_aa_flags, clear_aa_flags}
use shard_dns.Wire.{IsU16, Rr, Message, set_rcode, set_aa, clear_aa}
use shard_dns.Prelude.{ℕ, ◌/◌, ◌%◌, ◌<◌, List, ◌≡◌, arith}

-- The message `m` has the identifier, the questions, the EDNS fields and the flags of `base`, but
-- perhaps another AA bit, another response code and other records.
pub record Frames (base m : Message) : Type 0 where
  pub same_id : m.header.id ≡ base.header.id
  pub same_questions : m.questions ≡ base.questions
  pub same_edns : m.edns0 ≡ base.edns0
  pub same_do : m.edns0_do ≡ base.edns0_do
  pub same_size : m.edns0_size ≡ base.edns0_size
  pub same_high : m.header.flags / 2048 ≡ base.header.flags / 2048
  pub same_middle : m.header.flags % 1024 / 16 ≡ base.header.flags % 1024 / 16
  pub word : IsU16 m.header.flags

module _ (base : Message) where
  pub Frames-set_rcode :
      (m : Message) (code : ℕ) → Frames base m → code < 16 → Frames base (set_rcode m code)
  Frames-set_rcode m code f lt =
      let e = set_rcode_flags m code f.word lt in
      unfold set_rcode in
      record {
        same_id = f.same_id;
        same_questions = f.same_questions;
        same_edns = f.same_edns;
        same_do = f.same_do;
        same_size = f.same_size;
        same_high = omega (arith, e, f.same_high);
        same_middle = omega (arith, e, f.same_middle);
        word = omega (arith, e, f.word);
      }

  pub Frames-set_aa : (m : Message) → Frames base m → Frames base (set_aa m)
  Frames-set_aa m f =
      let e = set_aa_flags m f.word in
      unfold set_aa in
      record {
        same_id = f.same_id;
        same_questions = f.same_questions;
        same_edns = f.same_edns;
        same_do = f.same_do;
        same_size = f.same_size;
        same_high = omega (arith, e, f.same_high, f.word);
        same_middle = omega (arith, e, f.same_middle, f.word);
        word = omega (arith, e, f.word);
      }

  pub Frames-clear_aa : (m : Message) → Frames base m → Frames base (clear_aa m)
  Frames-clear_aa m f =
      let e = clear_aa_flags m f.word in
      unfold clear_aa in
      record {
        same_id = f.same_id;
        same_questions = f.same_questions;
        same_edns = f.same_edns;
        same_do = f.same_do;
        same_size = f.same_size;
        same_high = omega (arith, e, f.same_high, f.word);
        same_middle = omega (arith, e, f.same_middle, f.word);
        word = omega (arith, e, f.word);
      }

  -- Other records in the sections change nothing of this.
  pub Frames-sections :
      (m : Message) (an ns ar : List Rr)
      → Frames base m
      → Frames base (record m { answers = an; authority = ns; additional = ar })
  Frames-sections m an ns ar f = record {
    same_id = f.same_id;
    same_questions = f.same_questions;
    same_edns = f.same_edns;
    same_do = f.same_do;
    same_size = f.same_size;
    same_high = f.same_high;
    same_middle = f.same_middle;
    word = f.word;
  }
