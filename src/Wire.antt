-- ===== src/Wire.antt =====
-- The data model of internal/dns/message.go: codes, header, question, resource record and
-- message, and the operations on the header's flags. Words are natural numbers below 2 ^ 16
-- (2 ^ 32 for a time to live); `IsU16` and `IsU32` state it where a lemma needs it.
pub mod Flags
pub mod TypeNames
use shard_dns.Prelude.{
  ℕ, ◌+◌, ◌*◌, ◌/◌, ◌%◌, ◌^◌, ◌≤◌, ◌<◌, bit_and, bit_or, Bool, true, false, not, List, [], ltb,
  ◌==◌, if◌then◌else◌, Bytes,
}

abbrev pub IsU16 : ℕ → Type 0
IsU16 n = n < 65536

abbrev pub IsU32 : ℕ → Type 0
IsU32 n = n < 4294967296

abbrev pub type_a : ℕ
type_a = 1

abbrev pub type_ns : ℕ
type_ns = 2

abbrev pub type_cname : ℕ
type_cname = 5

abbrev pub type_soa : ℕ
type_soa = 6

abbrev pub type_hinfo : ℕ
type_hinfo = 13

abbrev pub type_ptr : ℕ
type_ptr = 12

abbrev pub type_mx : ℕ
type_mx = 15

abbrev pub type_txt : ℕ
type_txt = 16

abbrev pub type_aaaa : ℕ
type_aaaa = 28

abbrev pub type_srv : ℕ
type_srv = 33

abbrev pub type_naptr : ℕ
type_naptr = 35

abbrev pub type_dname : ℕ
type_dname = 39

abbrev pub type_opt : ℕ
type_opt = 41

abbrev pub type_ds : ℕ
type_ds = 43

abbrev pub type_sshfp : ℕ
type_sshfp = 44

abbrev pub type_dnskey : ℕ
type_dnskey = 48

abbrev pub type_tlsa : ℕ
type_tlsa = 52

abbrev pub type_caa : ℕ
type_caa = 257

abbrev pub type_axfr : ℕ
type_axfr = 252

abbrev pub type_any : ℕ
type_any = 255

abbrev pub class_in : ℕ
class_in = 1

abbrev pub class_any : ℕ
class_any = 255

abbrev pub flag_qr : ℕ
flag_qr = 0x8000

abbrev pub flag_aa : ℕ
flag_aa = 0x0400

abbrev pub flag_tc : ℕ
flag_tc = 0x0200

abbrev pub flag_rd : ℕ
flag_rd = 0x0100

abbrev pub rcode_no_error : ℕ
rcode_no_error = 0

abbrev pub rcode_format_error : ℕ
rcode_format_error = 1

abbrev pub rcode_server_failure : ℕ
rcode_server_failure = 2

abbrev pub rcode_nx_domain : ℕ
rcode_nx_domain = 3

abbrev pub rcode_not_implemented : ℕ
rcode_not_implemented = 4

abbrev pub rcode_refused : ℕ
rcode_refused = 5

abbrev pub max_udp_message_size : ℕ
max_udp_message_size = 512

abbrev pub max_edns_udp_size : ℕ
max_edns_udp_size = 1232

pub record Header : Type 0 where
  pub id : ℕ
  pub flags : ℕ
  pub qd_count : ℕ
  pub an_count : ℕ
  pub ns_count : ℕ
  pub ar_count : ℕ

pub record Question : Type 0 where
  pub name : Bytes
  pub qtype : ℕ
  pub class : ℕ

pub record Rr : Type 0 where
  pub name : Bytes
  pub rtype : ℕ
  pub class : ℕ
  pub ttl : ℕ
  pub rdata : Bytes

pub record Message : Type 0 where
  pub header : Header
  pub questions : List Question
  pub answers : List Rr
  pub authority : List Rr
  pub additional : List Rr
  pub edns0 : Bool
  pub edns0_do : Bool
  pub edns0_size : ℕ

-- The message with other flags.
abbrev pub with_flags : Message → ℕ → Message
with_flags m f = record m { header = record (m.header) { flags = f } }

unfoldable pub set_edns0 : Message → ℕ → Bool → Message
set_edns0 m size do_bit = record m {
  edns0 = true;
  edns0_size = if size == 0 then max_edns_udp_size else size;
  edns0_do = do_bit;
}

unfoldable pub udp_size : Message → ℕ
udp_size m =
    if not m.edns0
    then max_udp_message_size
    else if ltb m.edns0_size max_udp_message_size
    then max_udp_message_size
    else if ltb max_edns_udp_size m.edns0_size
    then max_edns_udp_size
    else m.edns0_size

-- `m.Flags &^ 0x000F` keeps the other twelve bits of the word.
unfoldable pub set_rcode : Message → ℕ → Message
set_rcode m code = with_flags m (bit_or (bit_and m.header.flags 0xFFF0) (bit_and code 0x000F))

unfoldable pub rcode : Message → ℕ
rcode m = bit_and m.header.flags 0x000F

unfoldable pub opcode : Message → ℕ
opcode m = bit_and (m.header.flags / 2 ^ 11) 0x000F

-- `resp.Flags |= FlagAA` and `resp.Flags &^= FlagAA`
unfoldable pub set_aa : Message → Message
set_aa m = with_flags m (bit_or m.header.flags flag_aa)

unfoldable pub clear_aa : Message → Message
clear_aa m = with_flags m (bit_and m.header.flags 0xFBFF)

-- `resp.Flags` of a new response: QR, and the request's RD bit and opcode.
unfoldable pub response_flags : ℕ → ℕ
response_flags f = bit_or (bit_or flag_qr (bit_and f flag_rd)) (bit_and f 0x7800)

unfoldable pub new_response : Message → Message
unfolding set_edns0
new_response req =
    let resp : Message = record {
      header = record {
        id = req.header.id;
        flags = response_flags req.header.flags;
        qd_count = 0;
        an_count = 0;
        ns_count = 0;
        ar_count = 0;
      };
      questions = req.questions;
      answers = [];
      authority = [];
      additional = [];
      edns0 = false;
      edns0_do = false;
      edns0_size = 0;
    } in
    if req.edns0 then set_edns0 resp max_edns_udp_size req.edns0_do else resp
