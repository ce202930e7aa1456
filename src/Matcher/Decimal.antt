-- ===== src/Matcher/Decimal.antt =====
-- Decimal numbers as the patterns write them.
use koala_v.Prelude.{
  ℕ, zero, suc, ◌+◌, ◌*◌, ◌/◌, ◌%◌, ◌<◌, Text, contains_byte, take, drop, [], ◌∷◌, Bool, true,
  false, ◌&&◌, ◌≡◌, refl, arith,
}
use native.Mathlib.Nat.{mul_assoc}
use koala_v.Matcher.Range.{index_from}
use koala_v.Matcher.Number.{is_digit, parse_digits}

-- The last `k + 1` digits of a number, in front of a text; leading zeros are allowed.
unfoldable pub digits : ℕ → ℕ → Text → Text
digits zero n rest = (b'0' + n % 10) ∷ rest
digits (suc k) n rest = digits k (n / 10) ((b'0' + n % 10) ∷ rest)

-- A number in `k + 1` digits.
abbrev decimal : ℕ → ℕ → Text
decimal k n = digits k n []

-- 10 ^ (k + 1), which bounds the numbers of `k + 1` digits.
abbrev pub tens : ℕ → ℕ
tens zero = 10
tens (suc k) = tens k * 10

pub parse-digits :
    (k n acc : ℕ) (rest : Text)
    → n < tens k
    → parse_digits acc (digits k n rest) ≡ parse_digits (acc * tens k + n) rest
unfolding parse_digits digits
parse-digits zero n acc rest h = ground arith
parse-digits (suc k) n acc rest h =
    ground (arith, parse-digits k (n / 10) acc ((b'0' + n % 10) ∷ rest), mul_assoc acc (tens k) 10)

-- The first of the digits.
pub digits-first :
    (k n : ℕ) (rest : Text)
    → (c : ℕ) × (cs : Text) × (digits k n rest ≡ c ∷ cs) × (is_digit c ≡ true)
unfolding digits
digits-first zero n rest = (b'0' + n % 10, rest, refl, ground arith)
digits-first (suc k) n rest = digits-first k (n / 10) ((b'0' + n % 10) ∷ rest)

pub index-digits :
    (k n i : ℕ) (rest : Text) → index_from i (digits k n rest) ≡ index_from (i + suc k) rest
unfolding digits index_from
index-digits zero n i rest = ground arith
index-digits (suc k) n i rest = ground (arith, index-digits k (n / 10) i ((b'0' + n % 10) ∷ rest))

pub take-digits :
    (k n j : ℕ) (rest : Text) → take (suc k + j) (digits k n rest) ≡ digits k n (take j rest)
unfolding digits
take-digits zero n j rest = ground arith
take-digits (suc k) n j rest =
    ground (arith, take-digits k (n / 10) (suc j) ((b'0' + n % 10) ∷ rest))

pub drop-digits : (k n j : ℕ) (rest : Text) → drop (suc k + j) (digits k n rest) ≡ drop j rest
unfolding digits
drop-digits zero n j rest = ground arith
drop-digits (suc k) n j rest =
    ground (arith, drop-digits k (n / 10) (suc j) ((b'0' + n % 10) ∷ rest))

pub contains_byte-digits :
    (k n c : ℕ) (rest : Text)
    → is_digit c ≡ false
    → contains_byte (digits k n rest) c ≡ contains_byte rest c
unfolding digits contains_byte
contains_byte-digits zero n c rest h = ground arith
contains_byte-digits (suc k) n c rest h =
    ground (arith, contains_byte-digits k (n / 10) c ((b'0' + n % 10) ∷ rest) h)

-- Digits only.
abbrev pub digits_only : Text → Bool
digits_only [] = true
digits_only (c ∷ cs) = is_digit c && digits_only cs

pub digits_only-digits :
    (k n : ℕ) (rest : Text) → digits_only rest ≡ true → digits_only (digits k n rest) ≡ true
unfolding digits
digits_only-digits zero n rest h = ground arith
digits_only-digits (suc k) n rest h =
    digits_only-digits k (n / 10) ((b'0' + n % 10) ∷ rest) (ground arith)
