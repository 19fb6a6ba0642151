-- ===== src/Prelude/Bits.antt =====
-- Facts about masks on words: tables checked by evaluation, and laws from the digit recursion.
use Prim.Native.Nat.{
  ℕ, zero, suc, ◌+◌, ◌*◌, ◌/◌, ◌%◌, ◌≤◌, ◌<◌, max, bit_and, bit_or, digits, bit_or-bitwise,
}
use mathlib.Core.Path.{◌≡◌, refl}
use mathlib.Core.Bool.{Bool, true, ◌&&◌}
use native.Mathlib.Omega.{arith}
use shard_dns.Prelude.Tests.{◌==◌, ==_iff}

-- Is the test true of each number under the bound?
unfoldable pub every_under : (ℕ → Bool) → ℕ → Bool
every_under test zero = true
every_under test (suc bound) = every_under test bound && test bound

-- The same over the numbers `hi * 256 + lo`, in two short loops.
unfoldable pub all_words : (ℕ → Bool) → Bool
unfolding every_under
all_words p = every_under (λ hi. every_under (λ lo. p (hi * 256 + lo)) 256) 256

pub every_under_at :
    (test : ℕ → Bool) (bound i : ℕ) → i < bound → every_under test bound ≡ true → test i ≡ true
unfolding every_under
every_under_at test zero i less all = absurd (omega arith)
every_under_at test (suc bound) i less all = ground (arith, every_under_at test bound i)

pub all_words_sound : (p : ℕ → Bool) (x : ℕ) → all_words p ≡ true → x < 65536 → p x ≡ true
unfolding all_words
all_words_sound p x h lt =
    let row =
      every_under_at (λ hi. every_under (λ lo. p (hi * 256 + lo)) 256) 256 (x / 256) (omega arith)
        h in
    let e : x / 256 * 256 + x % 256 ≡ x = omega arith in
    rw e at (every_under_at (λ lo. p (x / 256 * 256 + lo)) 256 (x % 256) (omega arith) row)

-- A table of one equation between words.
pub words_agree : (f g : ℕ → ℕ) (x : ℕ) → all_words (λ n. f n == g n) ≡ true → x < 65536 → f x ≡ g x
words_agree f g x h lt = (==_iff (f x) (g x)).0 (all_words_sound (λ n. f n == g n) x h lt)

-- `f &^ 0x000F`
pub bit_and_no_nibble : (f : ℕ) → f < 65536 → bit_and f 0xFFF0 ≡ f / 16 * 16
unfolding all_words
bit_and_no_nibble f = words_agree (λ n. bit_and n 0xFFF0) (λ n. n / 16 * 16) f refl

-- `f & 0x000F`
pub bit_and_nibble : (f : ℕ) → f < 65536 → bit_and f 0x000F ≡ f % 16
unfolding all_words
bit_and_nibble f = words_agree (λ n. bit_and n 0x000F) (λ n. n % 16) f refl

abbrev or_digits : ℕ → ℕ → ℕ → ℕ
or_digits n a b = digits (λ b. b) max n a b

or_digits_fuel : (n m a b : ℕ) → a ≤ n → a ≤ m → or_digits n a b ≡ or_digits m a b
or_digits_fuel zero zero a b p q = refl
or_digits_fuel zero (suc m) zero b p q = refl
or_digits_fuel zero (suc m) (suc a) b p q = absurd (omega arith)
or_digits_fuel (suc n) zero zero b p q = refl
or_digits_fuel (suc n) zero (suc a) b p q = absurd (omega arith)
or_digits_fuel (suc n) (suc m) zero b p q = refl
or_digits_fuel (suc n) (suc m) (suc a) b p q =
    omega (arith, or_digits_fuel n m (suc a / 2) (b / 2) (omega arith) (omega arith))

zero-bit_or : (b : ℕ) → bit_or 0 b ≡ b
zero-bit_or b = bit_or-bitwise 0 b

pub bit_or_step : (a b : ℕ) → bit_or a b ≡ bit_or (a / 2) (b / 2) * 2 + max (a % 2) (b % 2)
bit_or_step zero b = omega (arith, zero-bit_or b, zero-bit_or (b / 2))
bit_or_step (suc a) b = omega (
  arith,
  bit_or-bitwise (suc a) b,
  bit_or-bitwise (suc a / 2) (b / 2),
  or_digits_fuel a (suc a / 2) (suc a / 2) (b / 2) (omega arith) (omega arith),
)

bit_or-zero_fuel : (n a : ℕ) → a ≤ n → bit_or a 0 ≡ a
bit_or-zero_fuel n zero h = refl
bit_or-zero_fuel zero (suc a) h = absurd (omega arith)
bit_or-zero_fuel (suc n) (suc a) h =
    omega (arith, bit_or_step (suc a) 0, bit_or-zero_fuel n (suc a / 2) (omega arith))

pub bit_or-zero : (a : ℕ) → bit_or a 0 ≡ a
bit_or-zero a = bit_or-zero_fuel a a (omega arith)

-- The low nibble of a word whose low nibble is clear.
pub bit_or_nibble : (a b : ℕ) → a % 16 ≡ 0 → b < 16 → bit_or a b ≡ a + b
bit_or_nibble a b h lt =
    let e : b / 2 / 2 / 2 / 2 ≡ 0 = omega arith in
    let z : bit_or (a / 2 / 2 / 2 / 2) (b / 2 / 2 / 2 / 2) ≡ a / 2 / 2 / 2 / 2 =
      rw e (bit_or-zero _) in
    omega (
      arith,
      z,
      bit_or_step a b,
      bit_or_step (a / 2) (b / 2),
      bit_or_step (a / 2 / 2) (b / 2 / 2),
      bit_or_step (a / 2 / 2 / 2) (b / 2 / 2 / 2),
    )
