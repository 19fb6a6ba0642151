-- ===== src/Name.antt =====
-- Domain names on the wire: `ParseName`, `PackName` and `AppendName` of internal/dns/message.go.
-- A name's text is a byte string with dots between its labels.
pub mod Bounds
pub mod Pack
pub mod RoundTrip
pub mod Validate
use shard_dns.Prelude.Text.{trim_suffix}
use shard_dns.Prelude.{
  ℕ, zero, suc, ◌+◌, ◌-◌, ◌*◌, ◌%◌, ◌<◌, bit_and, Bool, true, false, List, [], ◌∷◌, ◌++◌, ltb, leb,
  ◌==◌, if◌then◌else◌, Bytes, codes, length, is_empty, get_or, slice, Outcome, ok, err, ◌>>=◌,
}

abbrev pub max_name_len : ℕ
max_name_len = 255

abbrev pub max_label_len : ℕ
max_label_len = 63

abbrev pub max_pointer_hops : ℕ
max_pointer_hops = 16

-- The errors of `ParseName`. `stuck` is no error of the source: the loop ran out of fuel.
pub data ParseError : Type 0 where
  name_overflows label_too_long label_overflows name_too_long : ParseError
  truncated_pointer pointer_loop reserved_label stuck : ParseError

-- The variables of the loop in `ParseName`; `text` is the string builder.
pub record NameState : Type 0 where
  pub next : ℕ
  pub text : Bytes
  pub followed : Bool
  pub end_off : ℕ
  pub hops : ℕ
  pub name_len : ℕ

-- One round of the loop returns, or goes on with new variables.
pub data NameStep : Type 0 where
  stop : Outcome ParseError (Bytes × ℕ) → NameStep
  go : NameState → NameStep

-- `case 0x00` at a length byte `b` that is 0: the end of the name.
unfoldable pub end_step : NameState → NameStep
end_step s = stop (
    ok
      (if is_empty s.text then codes "." else s.text, if s.followed then s.end_off else s.next + 1))

-- What the builder holds after a label: a dot goes before every label but the first.
unfoldable pub add_label : Bytes → Bytes → Bytes
add_label text label = (if is_empty text then [] else text ++ (b'.' ∷ [])) ++ label

-- `case 0x00` at a length byte `b` above 0: a label.
unfoldable pub label_step : Bytes → NameState → ℕ → NameStep
label_step buf s b =
    if ltb max_label_len b
    then stop (err label_too_long)
    else if ltb (length buf) (s.next + 1 + b)
    then stop (err label_overflows)
    else if ltb max_name_len (s.name_len + (1 + b))
    then stop (err name_too_long)
    else go (record s {
      next = s.next + 1 + b;
      text = add_label s.text (slice (s.next + 1) (s.next + 1 + b) buf);
      name_len = s.name_len + (1 + b);
    })

-- `case 0xC0`: a pointer whose first byte is `b`.
unfoldable pub pointer_step : Bytes → NameState → ℕ → NameStep
pointer_step buf s b =
    if leb (length buf) (s.next + 1)
    then stop (err truncated_pointer)
    else if ltb max_pointer_hops (s.hops + 1)
    then stop (err pointer_loop)
    else go (record s {
      next = bit_and b 0x3F * 256 + get_or buf (s.next + 1) 0;
      end_off = if s.followed then s.end_off else s.next + 2;
      followed = true;
      hops = s.hops + 1;
    })

unfoldable pub name_step : Bytes → NameState → NameStep
unfolding end_step label_step add_label pointer_step
name_step buf s =
    if leb (length buf) s.next
    then stop (err name_overflows)
    else let b = get_or buf s.next 0 in
      let kind = bit_and b 0xC0 in
      if kind == 0
      then (if b == 0 then end_step s else label_step buf s b)
      else if kind == 0xC0
      then pointer_step buf s b
      else stop (err reserved_label)

unfoldable pub parse_name_loop : ℕ → Bytes → NameState → Outcome ParseError (Bytes × ℕ)
parse_name_loop zero buf s = err stuck
parse_name_loop (suc fuel) buf s = elim (name_step buf s) [
  | stop r ↦ r
  | go s' ↦ parse_name_loop fuel buf s'
]

-- The variables before the first round.
abbrev pub start_at : ℕ → NameState
start_at offset = record {
  next = offset;
  text = [];
  followed = false;
  end_off = 0;
  hops = 0;
  name_len = 1;
}

-- A round that goes on adds to `name_len`, which stays at most 255, or to `hops`, which stays
-- at most 16, so these rounds are enough.
abbrev pub name_fuel : ℕ
name_fuel = 272

unfoldable pub parse_name : Bytes → ℕ → Outcome ParseError (Bytes × ℕ)
unfolding parse_name_loop name_step
parse_name buf offset = parse_name_loop name_fuel buf (start_at offset)

-- The errors of `PackName`, each with the buffer that the source returns beside it.
pub data PackError : Type 0 where
  pack_name_too_long empty_label pack_label_too_long : Bytes → PackError

-- A finished label goes to the buffer behind its length.
unfoldable pub append_label : Bytes → Bytes → Outcome PackError Bytes
append_label buf label =
    let n = length label in
    if n == 0
    then err (empty_label buf)
    else if ltb max_label_len n
    then err (pack_label_too_long buf)
    else ok (buf ++ (n ∷ label))

-- The loop over the bytes of the name; `label` is `name[start:i]`.
unfoldable pub pack_loop : Bytes → Bytes → Bytes → Outcome PackError Bytes
unfolding append_label
pack_loop buf label [] = append_label buf label >>= λ out. ok (out ++ (0 ∷ []))
pack_loop buf label (c ∷ name) =
    let done = append_label buf label >>= λ out. pack_loop out [] name in
    let more = pack_loop buf (label ++ (c ∷ [])) name in if c == b'.' then done else more

-- `PackName` on a name with no trailing dot.
unfoldable pub pack_trimmed : Bytes → Bytes → Outcome PackError Bytes
unfolding pack_loop
pack_trimmed buf name =
    if is_empty name
    then ok (buf ++ (0 ∷ []))
    else if ltb max_name_len (length name + 2)
    then err (pack_name_too_long buf)
    else pack_loop buf [] name

unfoldable pub pack_name : Bytes → Bytes → Outcome PackError Bytes
unfolding pack_trimmed trim_suffix
pack_name buf name = pack_trimmed buf (trim_suffix name (codes "."))

-- A name that cannot be packed is written as the root.
unfoldable pub append_name : Bytes → Bytes → Bytes
unfolding pack_name
append_name buf name = elim (pack_name buf name) [ ok out ↦ out | err _ ↦ buf ++ (0 ∷ []) ]
