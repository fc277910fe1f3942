-- ===== src/CliArg/Decimal.antt =====
-- The decimal digits of a number, and what core/cli_arg.cpp reads from them.
use stealth_drone_purdue.Base.{
  ℕ, zero, suc, ◌+◌, ◌-◌, ◌*◌, ◌/◌, ◌%◌, ◌<◌, ◌≡◌, refl, true, List, [], ◌∷◌, ◌++◌, ltb,
  if◌then◌else◌, arith,
}
use stealth_drone_purdue.CliArg.{is_digit, all_digits, value_from}

-- The digits of `n`, `k` more than the last at most.
pub decimal_up_to : (k n : ℕ) → List ℕ
decimal_up_to zero n = (b'0' + n % 10) ∷ []
decimal_up_to (suc k) n =
    let front = decimal_up_to k (n / 10) in
    if ltb n 10 then (b'0' + n) ∷ [] else front ++ (b'0' + n % 10) ∷ []

-- Ten digits are enough for an `int`.
abbrev pub decimal : ℕ → List ℕ
decimal n = decimal_up_to 9 n

abbrev limit : ℕ → ℕ
limit zero = 10
limit (suc k) = 10 * limit k

value_from-append :
    (n : ℕ) (xs ys : List ℕ) → value_from n (xs ++ ys) ≡ value_from (value_from n xs) ys
unfolding value_from
value_from-append n [] ys = refl
value_from-append n (x ∷ xs) ys = value_from-append (n * 10 + (x - b'0')) xs ys

all_digits-append :
    (xs : List ℕ) (d : ℕ)
    → all_digits xs ≡ true
    → d < 10
    → all_digits (xs ++ (b'0' + d) ∷ []) ≡ true
unfolding all_digits is_digit
all_digits-append [] d h small = ground arith
all_digits-append (x ∷ xs) d h small = ground (arith, all_digits-append xs d)

decimal_up_to-digits : (k n : ℕ) → all_digits (decimal_up_to k n) ≡ true
unfolding decimal_up_to all_digits is_digit
decimal_up_to-digits zero n = ground arith
decimal_up_to-digits (suc k) n = ground (
  arith,
  all_digits-append (decimal_up_to k (n / 10)) (n % 10) (decimal_up_to-digits k (n / 10))
      (omega arith),
)

decimal_up_to-value : (k n : ℕ) → n < limit k → value_from 0 (decimal_up_to k n) ≡ n
unfolding decimal_up_to value_from
decimal_up_to-value zero n small = omega arith
decimal_up_to-value (suc k) n small = ground (
  arith,
  decimal_up_to-value k (n / 10) (omega arith),
  value_from-append 0 (decimal_up_to k (n / 10)) ((b'0' + n % 10) ∷ []),
)

pub decimal-digits : (n : ℕ) → all_digits (decimal n) ≡ true
decimal-digits n = decimal_up_to-digits 9 n

pub decimal-value : (n : ℕ) → n < 10000000000 → value_from 0 (decimal n) ≡ n
decimal-value n small = decimal_up_to-value 9 n small
