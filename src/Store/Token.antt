-- ===== src/Store/Token.antt =====
-- The page tokens of internal/store/record.go: what `strconv` prints it reads back.
use shard_dns.Prelude.Text.{decimal, decimal_loop, is_digit, digits_value, parse_uint_base10}
use shard_dns.Store.RecordTable.{token_value, after_id}
use shard_dns.Prelude.{
  ℕ, zero, suc, ◌+◌, ◌-◌, ◌*◌, ◌/◌, ◌%◌, ◌<◌, true, false, ltb, some, [], ◌∷◌, ◌≡◌, refl, sym, ap,
  ◌∙◌, arith, Bytes, is_empty, Bool-cases, inl, inr, ok,
}

digit : (d : ℕ) → d < 10 → (is_digit (48 + d) ≡ true) × ((48 + d) - 48 ≡ d)
unfolding is_digit
digit d h = ground arith

digits_value-cons :
    (a d : ℕ) (s : Bytes) → d < 10 → digits_value a ((48 + d) ∷ s) ≡ digits_value (a * 10 + d) s
unfolding digits_value
digits_value-cons a d s h = let (is_one, back) = digit d h in rw (is_one, back) refl

-- The digits of a number are read as the number.
digits_value-decimal_loop :
    (fuel n : ℕ) (acc : Bytes)
    → n < fuel
    → digits_value 0 (decimal_loop fuel n acc) ≡ digits_value n acc
unfolding decimal_loop
digits_value-decimal_loop zero n acc h = absurd (omega arith)
digits_value-decimal_loop (suc fuel) n acc h =
    let ih = digits_value-decimal_loop fuel (n / 10) ((48 + n % 10) ∷ acc) in
    elim (Bool-cases (ltb n 10)) [
      | inl e ↦
          let small : 0 * 10 + n % 10 ≡ n = ground arith in
          rw e (digits_value-cons 0 (n % 10) acc (omega arith) ∙ ap (λ k. digits_value k acc) small)
      | inr e ↦
          let same : n / 10 * 10 + n % 10 ≡ n = omega arith in
          rw e (
            ih (ground arith)
            ∙ digits_value-cons (n / 10) (n % 10) acc (omega arith)
            ∙ ap (λ k. digits_value k acc) same)
    ]

-- The text of a number begins with a digit.
decimal_loop-digit :
    (fuel n : ℕ) (acc : Bytes)
    → n < fuel
    → (d : ℕ) × (s : Bytes) × (decimal_loop fuel n acc ≡ (48 + d) ∷ s) × (d < 10)
unfolding decimal_loop
decimal_loop-digit zero n acc h = absurd (omega arith)
decimal_loop-digit (suc fuel) n acc h =
    let ih = decimal_loop-digit fuel (n / 10) ((48 + n % 10) ∷ acc) in
    elim (Bool-cases (ltb n 10)) [
      | inl e ↦ (n % 10, acc, rw e refl, omega arith)
      | inr e ↦ let (d, s, f, g) = ih (ground arith) in (d, s, rw e f, g)
    ]

token_value-digit :
    (d : ℕ) (s : Bytes)
    → d < 10
    → token_value ((48 + d) ∷ s) ≡ parse_uint_base10 ((48 + d) ∷ s) 9223372036854775808
unfolding token_value
token_value-digit d s h = ground arith

parse_uint_base10_lem :
    (s : Bytes) (n limit : ℕ)
    → is_empty s ≡ false
    → digits_value 0 s ≡ some n
    → n < limit
    → parse_uint_base10 s limit ≡ some n
unfolding parse_uint_base10
parse_uint_base10_lem s n limit full e h =
    let fits : ltb n limit ≡ true = ground arith in rw (full, parse_uint_base10, e, fits) refl

-- A page token names the identifier that it was made from.
pub after_id-decimal : (n : ℕ) → n < 9223372036854775808 → after_id (decimal n) ≡ ok n
unfolding after_id decimal
after_id-decimal n h =
    let (d, s, e, small) = decimal_loop-digit (suc n) n [] (omega arith) in
    let value : digits_value 0 ((48 + d) ∷ s) ≡ some n =
      ap (digits_value 0) (sym e)
      ∙ digits_value-decimal_loop (suc n) n [] (omega arith)
      ∙ unfold digits_value in refl in
    let token =
      token_value-digit d s small
      ∙ parse_uint_base10_lem ((48 + d) ∷ s) n 9223372036854775808 refl value h in
    rw (e, token) refl

-- The text of a number is not empty.
pub is_empty-decimal : (n : ℕ) → is_empty (decimal n) ≡ false
unfolding decimal
is_empty-decimal n =
    let (d, s, e, small) = decimal_loop-digit (suc n) n [] (omega arith) in rw e refl
