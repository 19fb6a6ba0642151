-- ===== src/Prelude/Text.antt =====
-- The functions of Go's `strings` and `strconv` that the program calls, on byte strings.
-- `ToLower`, `ToUpper`, `TrimSpace` and `Fields` have a path for ASCII text, which is written
-- out here; what they do on other text depends on Go's Unicode tables, which are a parameter.
use shard_dns.Prelude.Tests.{ltb, leb, ◌==◌, if◌then◌else◌}
use shard_dns.Prelude.Lists.{length, is_empty, take, drop, all}
use shard_dns.Prelude.Octets.{Bytes, bytes_eq}
use Prim.Native.Nat.{ℕ, zero, suc, ◌+◌, ◌-◌, ◌*◌, ◌/◌, ◌%◌}
use mathlib.Core.Bool.{Bool, true, false, ◌&&◌, ◌||◌}
use mathlib.Core.List.{List, [], ◌∷◌, ◌++◌, map, reverse}
use mathlib.Core.Option.{Option, none, some}

-- `netip.Addr`: an IPv4 address by its four bytes, an IPv6 address by its sixteen.
pub data Addr : Type 0 where
  v4 : ℕ → ℕ → ℕ → ℕ → Addr
  v6 : Bytes → Addr

-- What the program uses of the Go library beyond ASCII text: case mapping and white space outside
-- ASCII, `netip.ParseAddr` and `base64.StdEncoding.DecodeString`; `none` is an error.
pub record GoRuntime : Type 0 where
  pub lower : Bytes → Bytes
  pub upper : Bytes → Bytes
  pub trim : Bytes → Bytes
  pub words : Bytes → List Bytes
  pub parse_addr : Bytes → Option Addr
  pub base64_decode : Bytes → Option Bytes

unfoldable pub is_ascii : Bytes → Bool
unfolding all
is_ascii = all (λ c. ltb c 128)

unfoldable pub lower_byte : ℕ → ℕ
lower_byte c = if leb b'A' c && leb c b'Z' then c + 32 else c

unfoldable pub upper_byte : ℕ → ℕ
upper_byte c = if leb b'a' c && leb c b'z' then c - 32 else c

-- `\t \n \v \f \r` and the blank
unfoldable pub is_space : ℕ → Bool
is_space c = (leb 9 c && leb c 13) || c == b' '

unfoldable pub trim_left : Bytes → Bytes
unfolding is_space
trim_left [] = []
trim_left (c ∷ s) = if is_space c then trim_left s else c ∷ s

unfoldable pub trim_ascii : Bytes → Bytes
unfolding trim_left
trim_ascii s = reverse (trim_left (reverse (trim_left s)))

-- What a finished word adds to the words read.
abbrev pub add_word : Bytes → List Bytes → List Bytes
add_word [] out = out
add_word (c ∷ w) out = (c ∷ w) ∷ out

-- The words of the text; `w` is the word being read.
unfoldable pub words_loop : Bytes → Bytes → List Bytes
unfolding is_space
words_loop w [] = add_word w []
words_loop w (c ∷ s) =
    let done = add_word w (words_loop [] s) in
    let more = words_loop (w ++ (c ∷ [])) s in if is_space c then done else more

module _ ⦃u : GoRuntime⦄ where
  -- `strings.ToLower`
  unfoldable pub to_lower : Bytes → Bytes
  unfolding is_ascii lower_byte
  to_lower s = if is_ascii s then map lower_byte s else u.lower s

  -- `strings.ToUpper`
  unfoldable pub to_upper : Bytes → Bytes
  unfolding is_ascii upper_byte
  to_upper s = if is_ascii s then map upper_byte s else u.upper s

  -- `strings.TrimSpace`
  unfoldable pub trim_space : Bytes → Bytes
  unfolding is_ascii trim_ascii
  trim_space s = if is_ascii s then trim_ascii s else u.trim s

  -- `strings.Fields`
  unfoldable pub fields : Bytes → List Bytes
  unfolding is_ascii words_loop
  fields s = if is_ascii s then words_loop [] s else u.words s

-- `strings.HasPrefix`
unfoldable pub has_prefix : Bytes → Bytes → Bool
has_prefix s [] = true
has_prefix [] (p ∷ ps) = false
has_prefix (c ∷ s) (p ∷ ps) = c == p && has_prefix s ps

-- `strings.HasSuffix`
unfoldable pub has_suffix : Bytes → Bytes → Bool
unfolding bytes_eq
has_suffix s t = leb (length t) (length s) && bytes_eq (drop (length s - length t) s) t

-- `strings.TrimSuffix`
unfoldable pub trim_suffix : Bytes → Bytes → Bytes
unfolding has_suffix
trim_suffix s t = if has_suffix s t then take (length s - length t) s else s

-- The text behind the first byte `c`, if there is one (`s[strings.IndexByte(s, c)+1:]`).
unfoldable pub after_byte : ℕ → Bytes → Option Bytes
after_byte c [] = none
after_byte c (x ∷ s) = if x == c then some s else after_byte c s

-- `strings.ContainsAny(s, " \t")`
unfoldable pub has_blank : Bytes → Bool
has_blank [] = false
has_blank (c ∷ s) = (c == b' ' || c == b'\t') || has_blank s

-- The text before the first blank or tab, and the text from it on.
unfoldable pub cut_blank : Bytes → Option (Bytes × Bytes)
cut_blank [] = none
cut_blank (c ∷ s) =
    let rest : Option (Bytes × Bytes) = elim (cut_blank s) [
      | none ↦ none
      | some (a, b) ↦ some (c ∷ a, b)
    ] in
    if c == b' ' || c == b'\t' then some ([], c ∷ s) else rest

-- `strings.Split(s, sep)` for a one-byte separator; `w` is the part being read.
unfoldable pub split_loop : ℕ → Bytes → Bytes → List Bytes
split_loop sep w [] = w ∷ []
split_loop sep w (c ∷ s) =
    let done = w ∷ split_loop sep [] s in
    let more = split_loop sep (w ++ (c ∷ [])) s in if c == sep then done else more

unfoldable pub split : ℕ → Bytes → List Bytes
unfolding split_loop
split sep s = split_loop sep [] s

-- `strings.SplitN(s, sep, n)` for a one-byte separator and `n` above 0.
unfoldable pub split_n_loop : ℕ → ℕ → Bytes → Bytes → List Bytes
split_n_loop sep n w [] = w ∷ []
split_n_loop sep n w (c ∷ s) =
    let done = w ∷ split_n_loop sep (n - 1) [] s in
    let more = split_n_loop sep n (w ++ (c ∷ [])) s in
    if leb n 1 then (w ++ (c ∷ s)) ∷ [] else if c == sep then done else more

-- `strings.Join(parts, sep)`
unfoldable pub join : Bytes → List Bytes → Bytes
join sep [] = []
join sep (p ∷ []) = p
join sep (p ∷ q ∷ ps) = p ++ (sep ++ join sep (q ∷ ps))

-- `strings.Replace(s, old, new, 1)` for two single bytes
unfoldable pub replace_first : ℕ → ℕ → Bytes → Bytes
replace_first old new [] = []
replace_first old new (c ∷ s) = if c == old then new ∷ s else c ∷ replace_first old new s

-- `strconv.Itoa` on a number that is not negative; `fuel` bounds the digits.
unfoldable pub decimal_loop : ℕ → ℕ → Bytes → Bytes
decimal_loop zero n acc = acc
decimal_loop (suc fuel) n acc =
    let acc' = (48 + n % 10) ∷ acc in
    let rest = decimal_loop fuel (n / 10) acc' in if ltb n 10 then acc' else rest

unfoldable pub decimal : ℕ → Bytes
unfolding decimal_loop
decimal n = decimal_loop (suc n) n []

unfoldable pub is_digit : ℕ → Bool
is_digit c = leb b'0' c && leb c b'9'

-- The value of a string of digits.
unfoldable pub digits_value : ℕ → Bytes → Option ℕ
unfolding is_digit
digits_value acc [] = some acc
digits_value acc (c ∷ s) = if is_digit c then digits_value (acc * 10 + (c - 48)) s else none

-- `strconv.ParseUint(s, 10, bits)`, with the limit `2 ^ bits`: `none` is an error.
unfoldable pub parse_uint_base10 : Bytes → ℕ → Option ℕ
unfolding digits_value
parse_uint_base10 s limit =
    if is_empty s
    then none
    else elim (digits_value 0 s) [ none ↦ none | some v ↦ if ltb v limit then some v else none ]

-- The value of a hexadecimal digit.
unfoldable pub hex_digit : ℕ → Option ℕ
hex_digit c =
    if leb b'0' c && leb c b'9'
    then some (c - 48)
    else if leb b'a' c && leb c b'f'
    then some (c - 87)
    else if leb b'A' c && leb c b'F'
    then some (c - 55)
    else none

-- The byte of two hexadecimal digits in front of decoded bytes.
unfoldable pub hex_byte : Option ℕ → Option ℕ → Option Bytes → Option Bytes
hex_byte (some hi) (some lo) (some rest) = some ((hi * 16 + lo) ∷ rest)
hex_byte _ _ _ = none

-- `hex.DecodeString`: `none` is an error.
unfoldable pub hex_decode : Bytes → Option Bytes
unfolding hex_digit hex_byte
hex_decode [] = some []
hex_decode (c ∷ []) = none
hex_decode (c ∷ d ∷ s) = hex_byte (hex_digit c) (hex_digit d) (hex_decode s)
