-- ===== src/Tests/Wire.antt =====
-- Names and messages: runs, and the theorems of Wire, Name and Codec at concrete inputs.
use shard_dns.Codec.Layout.{IsCanonical}
use shard_dns.Codec.RoundTrip.{IsMessage, sent_size, parse_message-pack}
use shard_dns.Codec.Udp.{IsShort, pack_udp_fits, pack_udp_overflows}
use shard_dns.Codec.{parse_message, set_counts, pack_body, pack, pack_udp}
use shard_dns.Name.Bounds.{parse_name-IsAnswer, IsAnswer}
use shard_dns.Name.Pack.{wire}
use shard_dns.Name.RoundTrip.{shown, parse_name-pack_name}
use shard_dns.Name.Validate.{validate_name, pack_name-validate_name}
use shard_dns.Name.{pointer_loop, parse_name, pack_name}
use shard_dns.Prelude.Text.{split, trim_suffix}
use shard_dns.Wire.{Question, Rr, Message, udp_size}
use shard_dns.Prelude.{
  ℕ, zero, suc, ◌≤◌, ◌<◌, true, false, List, [], ◌∷◌, ◌++◌, ◌≡◌, refl, arith, Bytes, codes, length,
  ok, err,
}

abbrev pub www : Bytes
www = codes "www.example"

abbrev address : Rr
address = record { name = www; rtype = 1; class = 1; ttl = 300; rdata = 192 ∷ 0 ∷ 2 ∷ 1 ∷ [] }

-- A query for an address with EDNS and the DO bit.
abbrev pub query : Message
query = record {
  header = record {
    id = 4660;
    flags = 0x0100;
    qd_count = 1;
    an_count = 0;
    ns_count = 0;
    ar_count = 1;
  };
  questions = record { name = www; qtype = 1; class = 1 } ∷ [];
  answers = [];
  authority = [];
  additional = [];
  edns0 = true;
  edns0_do = true;
  edns0_size = 1232;
}

-- The query with an answer.
abbrev reply : Message
reply = record query { answers = address ∷ [] }

pack_www : pack_name [] www ≡ ok (3 ∷ (codes "www" ++ (7 ∷ (codes "example" ++ (0 ∷ [])))))
unfolding pack_name
pack_www = refl

parse_pointer : parse_name (1 ∷ b'a' ∷ 0 ∷ 0xC0 ∷ 0 ∷ []) 3 ≡ ok (codes "a", 5)
unfolding parse_name
parse_pointer = refl

parse_loop : parse_name (0xC0 ∷ 0 ∷ []) 0 ≡ err pointer_loop
unfolding parse_name
parse_loop = refl

www-IsCanonical : IsCanonical www
unfolding trim_suffix split
www-IsCanonical = record {
  packable = record { fits = omega arith; are_labels = omega arith };
  as_shown = refl;
}

reply-IsMessage : IsMessage reply
reply-IsMessage = record {
  id_word = omega arith;
  flags_word = omega arith;
  questions_ok = (
    record { canonical = www-IsCanonical; qtype_word = omega arith; class_word = omega arith },
    tt,
  );
  answers_ok = (
    record {
      canonical = www-IsCanonical;
      rtype_word = omega arith;
      class_word = omega arith;
      ttl_word = omega arith;
      rdata_fits = omega arith;
    },
    tt,
  );
  authority_ok = tt;
  additional_ok = tt;
  no_opt = tt;
  question_count = omega arith;
  answer_count = omega arith;
  authority_count = omega arith;
  additional_count = omega arith;
  edns = omega arith;
}

parse_message-pack_example :
    (out : Bytes) × ((pack reply).1 ≡ ok out)
    × (parse_message out
        ≡ ok (record ((pack reply).0) { edns0_size = sent_size true reply.edns0_size }))
parse_message-pack_example = parse_message-pack reply reply-IsMessage

parse_name-pack_name_example :
    parse_name ((7 ∷ 3 ∷ (codes "www" ++ (7 ∷ (codes "example" ++ (0 ∷ []))))) ++ (9 ∷ [])) 1
    ≡ ok (shown (trim_suffix www (codes ".")), 14)
unfolding pack_name
parse_name-pack_name_example = parse_name-pack_name (7 ∷ []) www (9 ∷ []) refl

parse_name-IsAnswer_example : IsAnswer (0xC0 ∷ 0 ∷ []) (parse_name (0xC0 ∷ 0 ∷ []) 0)
parse_name-IsAnswer_example = parse_name-IsAnswer (0xC0 ∷ 0 ∷ []) 0

www_valid : validate_name www ≡ ok tt
unfolding validate_name
www_valid = refl

pack_name-validate_name_example : pack_name (7 ∷ []) www ≡ ok ((7 ∷ []) ++ wire (split b'.' www) [])
pack_name-validate_name_example = pack_name-validate_name (7 ∷ []) www www_valid

reply-IsShort : IsShort reply
reply-IsShort = record {
  short_answers = (omega arith, tt);
  short_authority = tt;
  short_additional = tt;
}

pack_udp_fits_example :
    (out : Bytes) × ((pack_udp reply).1 ≡ ok out) × (length out ≤ udp_size reply)
pack_udp_fits_example = pack_udp_fits reply (omega arith) reply-IsShort

-- `n` questions for the root.
abbrev root_questions : ℕ → List Question
root_questions zero = []
root_questions (suc n) = record { name = codes "."; qtype = 1; class = 1 } ∷ root_questions n

abbrev crowded : Message
crowded = record query {
  questions = root_questions 101;
  edns0 = false;
  edns0_do = false;
  edns0_size = 0;
}

crowded_bytes : Bytes
unfolding pack_udp pack_body set_counts
crowded_bytes = elim (pack_udp crowded).1 [ ok out ↦ out | err e ↦ [] ]

pack_udp_overflows_example : udp_size crowded < length crowded_bytes
unfolding pack_udp pack_body set_counts crowded_bytes udp_size
pack_udp_overflows_example = pack_udp_overflows crowded refl (omega arith)
