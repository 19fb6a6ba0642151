-- ===== src/RData.antt =====
-- The parts of internal/dns/rdata.go: the supported types, numbers, quoted strings and TXT data.
-- An error is a value for each message of the source; `stuck` is none of them: a loop ran out of
-- fuel.
pub mod Build
use shard_dns.Name.{PackError, pack_name, parse_name}
use shard_dns.Prelude.Text.{
  GoRuntime, Addr, v4, v6, trim_space, fields, has_prefix, has_blank, cut_blank, split_n_loop, join,
  is_digit, parse_uint_base10, hex_decode,
}
use shard_dns.Wire.{
  type_a, type_aaaa, type_ns, type_cname, type_dname, type_ptr, type_mx, type_txt, type_srv,
  type_caa, type_naptr, type_sshfp, type_tlsa, type_ds, type_dnskey, type_hinfo,
}
use shard_dns.Prelude.{
  ℕ, zero, suc, ◌+◌, ◌-◌, ◌*◌, ◌%◌, Bool, true, false, not, ◌&&◌, ◌||◌, Option, none, some, List,
  [], ◌∷◌, ◌++◌, ltb, leb, ◌==◌, if◌then◌else◌, Bytes, codes, bytes_eq, put_u16, put_u32, length,
  is_empty, take, drop, Outcome, ok, err, ◌>>=◌, ◌>>◌, guard, map_err,
}

unfoldable pub supported_type : ℕ → Bool
supported_type t =
    t == type_a
    || t == type_aaaa
    || t == type_ns
    || t == type_cname
    || t == type_dname
    || t == type_ptr
    || t == type_mx
    || t == type_txt
    || t == type_srv
    || t == type_caa
    || t == type_naptr
    || t == type_sshfp
    || t == type_tlsa
    || t == type_ds
    || t == type_dnskey
    || t == type_hinfo

pub data RDataError : Type 0 where
  invalid_a invalid_aaaa single_name mx_shape srv_shape caa_shape caa_tag caa_value : RDataError
  naptr_replacement naptr_string hinfo_shape hinfo_string sshfp_shape sshfp_digest : RDataError
  tlsa_shape tlsa_data ds_shape ds_digest dnskey_shape dnskey_key unsupported : RDataError
  bad_number expected_quoted opening_quote bad_escape unterminated stuck : RDataError
  bad_name : PackError → RDataError

-- `parseUint(s, bits, …)`, with the limit `2 ^ bits`
unfoldable pub parse_uint : Bytes → ℕ → Outcome RDataError ℕ
unfolding parse_uint_base10
parse_uint s limit = elim (parse_uint_base10 s limit) [ none ↦ err bad_number | some v ↦ ok v ]

-- The loop of `readQuoted` behind the opening quote; `sb` is the string builder.
unfoldable pub read_loop : Bytes → Bytes → Outcome RDataError (Bytes × Bytes)
unfolding is_digit
read_loop sb [] = err unterminated
read_loop sb (c ∷ []) = if c == b'"' then ok (sb, []) else err unterminated
read_loop sb (c ∷ d ∷ []) =
    let plain = read_loop (sb ++ (c ∷ [])) (d ∷ []) in
    let escaped = read_loop (sb ++ (d ∷ [])) [] in
    if c == b'"' then ok (sb, d ∷ []) else if c == b'\\' then escaped else plain
read_loop sb (c ∷ d ∷ e ∷ []) =
    let plain = read_loop (sb ++ (c ∷ [])) (d ∷ e ∷ []) in
    let escaped = read_loop (sb ++ (d ∷ [])) (e ∷ []) in
    if c == b'"' then ok (sb, d ∷ e ∷ []) else if c == b'\\' then escaped else plain
read_loop sb (c ∷ d ∷ e ∷ f ∷ s) =
    let plain = read_loop (sb ++ (c ∷ [])) (d ∷ e ∷ f ∷ s) in
    let escaped = read_loop (sb ++ (d ∷ [])) (e ∷ f ∷ s) in
    let v = (d - 48) * 100 + (e - 48) * 10 + (f - 48) in
    let number = if ltb 255 v then err bad_escape else read_loop (sb ++ (v ∷ [])) s in
    if c == b'"'
    then ok (sb, d ∷ e ∷ f ∷ s)
    else if c == b'\\'
    then (if is_digit d && (is_digit e && is_digit f) then number else escaped)
    else plain

unfoldable pub read_quoted : Bytes → Outcome RDataError (Bytes × Bytes)
unfolding read_loop
read_quoted [] = err opening_quote
read_quoted (c ∷ s) = if c == b'"' then read_loop [] s else err opening_quote

-- `append([]byte{byte(len(s))}, s...)` for each string, while all are short enough
unfoldable pub append_strings : RDataError → Bytes → List Bytes → Outcome RDataError Bytes
append_strings e buf [] = ok buf
append_strings e buf (s ∷ ss) =
    let more = append_strings e (buf ++ (length s ∷ s)) ss in
    if ltb 255 (length s) then err e else more

-- The chunks of at most 255 bytes of one string of a TXT record. A round that goes on takes 255
-- bytes off, so the length is fuel enough.
unfoldable pub chunk_loop : ℕ → Bytes → Bytes
chunk_loop zero p = length p % 256 ∷ p
chunk_loop (suc fuel) p =
    let more = 255 ∷ (take 255 p ++ chunk_loop fuel (drop 255 p)) in
    if ltb 255 (length p) then more else length p ∷ p

-- The loop over the parts in `buildTXT`.
unfoldable pub chunk_parts : Bytes → List Bytes → Bytes
unfolding chunk_loop
chunk_parts buf [] = buf
chunk_parts buf (p ∷ ps) = chunk_parts (buf ++ chunk_loop (length p) p) ps

module _ ⦃u : GoRuntime⦄ where
  -- The loop of `parseQuotedStrings`. A string that is read takes two bytes at least.
  unfoldable pub quoted_loop : ℕ → Bytes → Outcome RDataError (List Bytes)
  unfolding read_quoted trim_space
  quoted_loop fuel [] = ok []
  quoted_loop zero (c ∷ s) = err stuck
  quoted_loop (suc fuel) (c ∷ s) = read_quoted (c ∷ s) >>= λ (t, remaining).
      quoted_loop fuel (trim_space remaining) >>= λ ts. ok (t ∷ ts)

  unfoldable pub parse_quoted_strings : Bytes → Outcome RDataError (List Bytes)
  unfolding quoted_loop trim_space
  parse_quoted_strings text = quoted_loop (length (trim_space text)) (trim_space text)

  -- The loop of `takeQuoted`, with the rounds left.
  unfoldable pub take_loop : ℕ → Bytes → Outcome RDataError (List Bytes × Bytes)
  unfolding read_quoted trim_space has_prefix
  take_loop zero rest = ok ([], rest)
  take_loop (suc n) rest =
      guard (has_prefix rest (codes "\"")) expected_quoted
      >> (read_quoted rest >>= λ (t, remaining).
          take_loop n (trim_space remaining) >>= λ (ts, left). ok (t ∷ ts, left))

  unfoldable pub take_quoted : Bytes → ℕ → Outcome RDataError (List Bytes × Bytes)
  unfolding take_loop trim_space
  take_quoted text n = take_loop n (trim_space text)

  unfoldable pub cut_field : Bytes → Bytes × Bytes
  unfolding cut_blank trim_space
  cut_field s = elim (cut_blank (trim_space s)) [
    | none ↦ (trim_space s, [])
    | some (word, rest) ↦ (word, trim_space rest)
  ]

  -- The strings of a TXT record: the quoted strings of the text, or the text itself.
  unfoldable pub txt_parts : Bytes → Outcome RDataError (List Bytes)
  unfolding parse_quoted_strings has_prefix
  txt_parts text =
      if has_prefix text (codes "\"") then parse_quoted_strings text else ok (text ∷ [])

  unfoldable pub build_txt : Bytes → Outcome RDataError Bytes
  unfolding txt_parts chunk_parts
  build_txt text = txt_parts text >>= λ parts.
      let buf = chunk_parts [] parts in ok (if is_empty buf then 0 ∷ [] else buf)
