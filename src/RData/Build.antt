-- ===== src/RData/Build.antt =====
-- `BuildRData`, `BuildSOA` and `RDataNames` of internal/dns/rdata.go: one function for each case
-- of the switch in `BuildRData`, on the trimmed text.
use shard_dns.Name.{PackError, pack_name, parse_name}
use shard_dns.Prelude.Text.{
  GoRuntime, Addr, v4, v6, trim_space, fields, has_prefix, has_blank, split_n_loop, join,
  hex_decode,
}
use shard_dns.RData.{
  RDataError, invalid_a, invalid_aaaa, single_name, mx_shape, srv_shape, caa_shape, caa_tag,
  caa_value, naptr_replacement, naptr_string, hinfo_shape, hinfo_string, sshfp_shape, sshfp_digest,
  tlsa_shape, tlsa_data, ds_shape, ds_digest, dnskey_shape, dnskey_key, unsupported, bad_name,
  parse_uint, append_strings, parse_quoted_strings, take_quoted, cut_field, build_txt,
}
use shard_dns.Wire.{
  type_a, type_aaaa, type_ns, type_cname, type_dname, type_ptr, type_mx, type_txt, type_srv,
  type_caa, type_naptr, type_sshfp, type_tlsa, type_ds, type_dnskey, type_hinfo,
}
use shard_dns.Prelude.{
  ℕ, ◌%◌, Bool, not, ◌||◌, Option, none, some, List, [], ◌∷◌, ◌++◌, ltb, ◌==◌, if◌then◌else◌, Bytes,
  codes, bytes_eq, put_u16, put_u32, length, is_empty, take, Outcome, ok, err, ◌>>=◌, ◌>>◌, guard,
  map_err,
}

-- `PackName` in a place where its error is passed on.
unfoldable pub pack_target : Bytes → Bytes → Outcome RDataError Bytes
unfolding pack_name
pack_target buf name = map_err bad_name (pack_name buf name)

unfoldable pub byte_of : ℕ → ℕ
byte_of n = n % 256

-- `addr.Is4In6()`: ten zero bytes and two bytes 0xff lead an IPv6 address.
unfoldable pub is_4_in_6 : Bytes → Bool
unfolding bytes_eq
is_4_in_6 b = bytes_eq (take 12 b) (0 ∷ 0 ∷ 0 ∷ 0 ∷ 0 ∷ 0 ∷ 0 ∷ 0 ∷ 0 ∷ 0 ∷ 255 ∷ 255 ∷ [])

-- The four bytes of an IPv4 address.
unfoldable pub a_bytes : Option Addr → Outcome RDataError Bytes
a_bytes (some (v4 a b c d)) = ok (a ∷ b ∷ c ∷ d ∷ [])
a_bytes _ = err invalid_a

-- The sixteen bytes of an IPv6 address that holds no IPv4 address.
unfoldable pub aaaa_bytes : Option Addr → Outcome RDataError Bytes
unfolding is_4_in_6
aaaa_bytes (some (v6 b)) = if is_4_in_6 b then err invalid_aaaa else ok b
aaaa_bytes _ = err invalid_aaaa

-- The decoded data behind the fixed part `buf`; `e` is the error for none, or for empty data.
unfoldable pub append_digest : RDataError → Bytes → Option Bytes → Outcome RDataError Bytes
append_digest e buf none = err e
append_digest e buf (some []) = err e
append_digest e buf (some (c ∷ digest)) = ok (buf ++ (c ∷ digest))

unfoldable pub build_single_name : Bytes → Outcome RDataError Bytes
unfolding pack_target has_blank
build_single_name text =
    if is_empty text || has_blank text then err single_name else pack_target [] text

-- The fields of an MX record; the catch-all is `len(f) != 2`.
unfoldable pub build_mx : List Bytes → Outcome RDataError Bytes
unfolding pack_target parse_uint
build_mx (p ∷ target ∷ []) = parse_uint p 65536 >>= λ pref. pack_target (put_u16 pref) target
build_mx _ = err mx_shape

unfoldable pub build_srv : List Bytes → Outcome RDataError Bytes
unfolding pack_target parse_uint
build_srv (p ∷ w ∷ o ∷ target ∷ []) = parse_uint p 65536 >>= λ priority.
    parse_uint w 65536 >>= λ weight. parse_uint o 65536 >>= λ port.
    pack_target (put_u16 priority ++ (put_u16 weight ++ put_u16 port)) target
build_srv _ = err srv_shape

-- The one string of a quoted CAA value.
unfoldable pub one_string : Outcome RDataError (List Bytes) → Outcome RDataError Bytes
one_string (ok (v ∷ [])) = ok v
one_string _ = err caa_value

unfoldable pub append_caa : ℕ → Bytes → Bytes → Bytes
unfolding byte_of
append_caa flags tag value = byte_of flags ∷ byte_of (length tag) ∷ (tag ++ value)

unfoldable pub build_sshfp : List Bytes → Outcome RDataError Bytes
unfolding parse_uint append_digest hex_decode join byte_of
build_sshfp (a ∷ t ∷ f ∷ rest) = parse_uint a 256 >>= λ alg. parse_uint t 256 >>= λ fp.
    append_digest sshfp_digest (byte_of alg ∷ byte_of fp ∷ []) (hex_decode (join [] (f ∷ rest)))
build_sshfp _ = err sshfp_shape

unfoldable pub build_tlsa : List Bytes → Outcome RDataError Bytes
unfolding parse_uint append_digest hex_decode join byte_of
build_tlsa (a ∷ b ∷ c ∷ d ∷ rest) = parse_uint a 256 >>= λ usage. parse_uint b 256 >>= λ selector.
    parse_uint c 256 >>= λ matching.
    append_digest tlsa_data (byte_of usage ∷ byte_of selector ∷ byte_of matching ∷ [])
      (hex_decode (join [] (d ∷ rest)))
build_tlsa _ = err tlsa_shape

unfoldable pub build_ds : List Bytes → Outcome RDataError Bytes
unfolding parse_uint append_digest hex_decode join byte_of
build_ds (a ∷ b ∷ c ∷ d ∷ rest) = parse_uint a 65536 >>= λ tag. parse_uint b 256 >>= λ alg.
    parse_uint c 256 >>= λ dt.
    append_digest ds_digest (put_u16 tag ++ (byte_of alg ∷ byte_of dt ∷ []))
      (hex_decode (join [] (d ∷ rest)))
build_ds _ = err ds_shape

module _ ⦃u : GoRuntime⦄ where
  -- The value of a CAA record: quoted or not.
  unfoldable pub caa_text : Bytes → Outcome RDataError Bytes
  unfolding has_prefix parse_quoted_strings one_string
  caa_text value =
      if has_prefix value (codes "\"") then one_string (parse_quoted_strings value) else ok value

  -- The parts of `strings.SplitN(text, " ", 3)`.
  unfoldable pub build_caa : List Bytes → Outcome RDataError Bytes
  unfolding parse_uint caa_text trim_space append_caa
  build_caa (f ∷ tag ∷ rest ∷ []) = parse_uint f 256 >>= λ flags.
      guard (not (is_empty tag || ltb 255 (length tag))) caa_tag
      >> (caa_text (trim_space rest) >>= λ value. ok (append_caa flags tag value))
  build_caa _ = err caa_shape

  unfoldable pub build_naptr : Bytes → Outcome RDataError Bytes
  unfolding cut_field parse_uint take_quoted trim_space has_blank append_strings pack_target
  build_naptr text =
      let (order_text, rest) = cut_field text in
      let (pref_text, rest') = cut_field rest in
      parse_uint order_text 65536 >>= λ order. parse_uint pref_text 65536 >>= λ pref.
      take_quoted rest' 3 >>= λ (strs, remaining).
      guard (not (is_empty (trim_space remaining) || has_blank (trim_space remaining)))
        naptr_replacement
      >> (append_strings naptr_string (put_u16 order ++ put_u16 pref) strs >>= λ buf.
          pack_target buf (trim_space remaining))

  -- An error of `takeQuoted` is replaced by the one of this case.
  unfoldable pub build_hinfo : Bytes → Outcome RDataError Bytes
  unfolding take_quoted trim_space append_strings
  build_hinfo text = map_err (λ _. hinfo_shape) (take_quoted text 2) >>= λ (strs, rest).
      guard (is_empty (trim_space rest)) hinfo_shape >> append_strings hinfo_string [] strs

  unfoldable pub build_dnskey : List Bytes → Outcome RDataError Bytes
  unfolding parse_uint append_digest join byte_of
  build_dnskey (a ∷ b ∷ c ∷ d ∷ rest) = parse_uint a 65536 >>= λ flags.
      parse_uint b 256 >>= λ proto. parse_uint c 256 >>= λ alg.
      append_digest dnskey_key (put_u16 flags ++ (byte_of proto ∷ byte_of alg ∷ []))
        (u.base64_decode (join [] (d ∷ rest)))
  build_dnskey _ = err dnskey_shape

  -- The switch of `BuildRData`, on the trimmed text.
  unfoldable pub build_trimmed : ℕ → Bytes → Outcome RDataError Bytes
  build_trimmed t text =
      if t == type_a
      then a_bytes (u.parse_addr text)
      else if t == type_aaaa
      then aaaa_bytes (u.parse_addr text)
      else if t == type_ns || t == type_cname || t == type_dname || t == type_ptr
      then build_single_name text
      else if t == type_mx
      then build_mx (fields text)
      else if t == type_txt
      then build_txt text
      else if t == type_srv
      then build_srv (fields text)
      else if t == type_caa
      then build_caa (split_n_loop b' ' 3 [] text)
      else if t == type_naptr
      then build_naptr text
      else if t == type_hinfo
      then build_hinfo text
      else if t == type_sshfp
      then build_sshfp (fields text)
      else if t == type_tlsa
      then build_tlsa (fields text)
      else if t == type_ds
      then build_ds (fields text)
      else if t == type_dnskey
      then build_dnskey (fields text)
      else err unsupported

  unfoldable pub build_rdata : ℕ → Bytes → Outcome RDataError Bytes
  unfolding build_trimmed trim_space
  build_rdata t text = build_trimmed t (trim_space text)

unfoldable pub build_soa : Bytes → Bytes → ℕ → ℕ → ℕ → ℕ → ℕ → Outcome PackError Bytes
unfolding pack_name
build_soa primary admin serial refresh retry expire minimum = pack_name [] primary >>= λ buf.
    pack_name buf admin >>= λ buf'. ok (
      buf'
      ++ (put_u32 serial
          ++ (put_u32 refresh ++ (put_u32 retry ++ (put_u32 expire ++ put_u32 minimum)))))

-- The name at an offset of a record's data, or nothing.
unfoldable pub name_at : Bytes → ℕ → Bytes
unfolding parse_name
name_at rdata off = elim (parse_name rdata off) [ ok (name, end) ↦ name | err e ↦ [] ]

unfoldable pub rdata_names : ℕ → Bytes → Bytes
unfolding name_at
rdata_names t rdata =
    if t == type_ns || t == type_cname || t == type_dname || t == type_ptr
    then name_at rdata 0
    else if t == type_mx
    then (if ltb 2 (length rdata) then name_at rdata 2 else [])
    else if t == type_srv
    then (if ltb 6 (length rdata) then name_at rdata 6 else [])
    else []
