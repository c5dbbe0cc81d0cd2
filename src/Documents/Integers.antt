-- ===== src/Documents/Integers.antt =====
-- `admitRawInteger` of packages/core/src/features/input-admission/raw-integer.ts. The bytes are numbers,
-- a loop from a cursor to the end counts the bytes that are left, and `defined` throws on `none`.
pub mod Decimal
pub mod Spelling
pub mod Counting
pub mod Runs
pub mod Significant
pub mod Coefficients
pub mod Exponents
pub mod Digits
pub mod Powers
pub mod Admission
pub mod Verdicts
pub mod Bytes
pub mod Tokens
mod Examples
use get_modular.Base.{
  ℕ, zero, suc, ◌+◌, ◌-◌, ◌*◌, min, List, [], ◌∷◌, Option, none, some, Bool, true, false, not, ◌&&◌,
  ◌||◌, ◌==◌, number_key, ltb, if◌then◌else◌, length, get_elem?, Text,
}
use get_modular.Base.Outcome.{Outcome, done, thrown, ◌>>=◌}
use get_modular.Scanner.Bytes.{is_byte}

-- The integers over these natural numbers; `negsuc n` is -(n + 1).
pub data ℤ : Type 0 where
  pos : ℕ → ℤ
  negsuc : ℕ → ℤ

-- `-value`
abbrev pub negated : ℕ → ℤ
negated zero = pos 0
negated (suc n) = negsuc n

pub data Reason : Type 0 where
  invalid_type invalid_format : Reason

pub data ExactInteger : Type 0 where
  admitted : ℤ → ExactInteger
  refused : Reason → ExactInteger

-- "9007199254740991"
abbrev pub maximum_safe_integer_digits : Text
maximum_safe_integer_digits =
    0x39 ∷ 0x30 ∷ 0x30 ∷ 0x37 ∷ 0x31 ∷ 0x39 ∷ 0x39 ∷ 0x32 ∷ 0x35 ∷ 0x34 ∷ 0x37 ∷ 0x34 ∷ 0x30 ∷ 0x39
    ∷ 0x39 ∷ 0x31 ∷ []

pub record Coefficient : Type 0 where
  pub exponent_start : ℕ
  pub fractional_digits : ℕ
  pub significant_start : ℕ
  pub significant_digits : ℕ
  pub trailing_zeros : ℕ

-- The variables of the loop of `scanCoefficient`, less its cursor.
pub record Counts : Type 0 where
  pub fractional : Bool
  pub fractional_digits : ℕ
  pub significant_start : ℕ
  pub significant_digits : ℕ
  pub trailing_zeros : ℕ

abbrev pub no_counts : ℕ → Counts
no_counts stop = record {
  fractional = false;
  fractional_digits = 0;
  significant_start = stop;
  significant_digits = 0;
  trailing_zeros = 0;
}

abbrev pub coefficient : ℕ → Counts → Coefficient
coefficient cursor s = record {
  exponent_start = cursor;
  fractional_digits = s.fractional_digits;
  significant_start = s.significant_start;
  significant_digits = s.significant_digits;
  trailing_zeros = s.trailing_zeros;
}

-- `if (fractional) {fractionalDigits += 1;}`, and where the significant digits start.
abbrev pub find_start : ℕ → ℕ → ℕ → Counts → Counts
find_start stop cursor byte s = record s {
  fractional_digits = if s.fractional then s.fractional_digits + 1 else s.fractional_digits;
  significant_start =
      if s.significant_start == stop && not (byte == 0x30) then cursor else s.significant_start;
}

-- `if (significantStart !== end)`
abbrev pub count_significant : ℕ → ℕ → Counts → Counts
count_significant stop byte s = if s.significant_start == stop then s else record s {
  significant_digits = s.significant_digits + 1;
  trailing_zeros = if byte == 0x30 then s.trailing_zeros + 1 else 0;
}

unfoldable pub count_byte : ℕ → ℕ → ℕ → Counts → Counts
count_byte stop cursor byte s =
    if byte == 0x2e
    then record s { fractional = true }
    else count_significant stop byte (find_start stop cursor byte s)

-- The loop; its third argument is the number of bytes that are left.
unfoldable pub scan_from : List ℕ → ℕ → ℕ → ℕ → Counts → Outcome Coefficient
unfolding count_byte
scan_from bytes stop zero cursor s = done (coefficient cursor s)
scan_from bytes stop (suc left) cursor s = elim (get_elem? bytes cursor) [
  | none ↦ thrown
  | some byte ↦
      let rest = scan_from bytes stop left (cursor + 1) (count_byte stop cursor byte s) in
      if byte == 0x65 || byte == 0x45 then done (coefficient cursor s) else rest
]

unfoldable pub scan_coefficient : List ℕ → ℕ → ℕ → Outcome Coefficient
unfolding scan_from
scan_coefficient bytes start stop = scan_from bytes stop (stop - start) start (no_counts stop)

-- The result of `readExponent`, by its sign and its magnitude.
pub record Exponent : Type 0 where
  pub negative : Bool
  pub magnitude : ℕ

unfoldable pub exponent_from : List ℕ → ℕ → ℕ → ℕ → ℕ → Outcome ℕ
exponent_from bytes limit zero cursor exponent = done exponent
exponent_from bytes limit (suc left) cursor exponent = elim (get_elem? bytes cursor) [
  | none ↦ thrown
  | some byte ↦
      exponent_from bytes limit left (cursor + 1) (min limit (exponent * 10 + (byte - 0x30)))
]

unfoldable pub read_exponent : List ℕ → ℕ → ℕ → ℕ → Outcome Exponent
unfolding exponent_from
read_exponent bytes start stop limit =
    if start == stop
    then done (record { negative = false; magnitude = 0 })
    else let negative = is_byte 0x2d (get_elem? bytes (start + 1)) in
      let cursor =
        if negative || is_byte 0x2b (get_elem? bytes (start + 1)) then start + 2 else start + 1 in
      exponent_from bytes limit (stop - cursor) cursor 0 >>= λ magnitude.
      done (record { negative = negative; magnitude = magnitude })

-- The digit at a position, with the position after it.
abbrev pub digit_at : List ℕ → ℕ → Outcome (ℕ × ℕ)
digit_at bytes position = elim (get_elem? bytes position) [
  | none ↦ thrown
  | some byte ↦ done (byte - 0x30, position + 1)
]

unfoldable pub normalized_digit : List ℕ → ℕ → ℕ → ℕ → Outcome (ℕ × ℕ)
normalized_digit bytes cursor index significant =
    if not (ltb index significant) then done (0, cursor) else elim (get_elem? bytes cursor) [
      | none ↦ thrown
      | some byte ↦ digit_at bytes (if byte == 0x2e then cursor + 1 else cursor)
    ]

-- `maximumSafeIntegerDigits.charCodeAt(index) - 0x30`, for an index below 16.
abbrev pub limit_digit : ℕ → ℕ
limit_digit index = elim (get_elem? maximum_safe_integer_digits index) [
  | none ↦ 0
  | some unit ↦ unit - 0x30
]

unfoldable pub exceeds_from : List ℕ → ℕ → ℕ → ℕ → ℕ → Outcome Bool
unfolding normalized_digit
exceeds_from bytes significant zero cursor index = done false
exceeds_from bytes significant (suc left) cursor index =
    normalized_digit bytes cursor index significant >>= λ (digit, next).
    let rest = exceeds_from bytes significant left next (index + 1) in
    if ltb (limit_digit index) digit
    then done true
    else if ltb digit (limit_digit index)
    then done false
    else rest

unfoldable pub exceeds_safe_integer : List ℕ → ℕ → ℕ → Outcome Bool
unfolding exceeds_from
exceeds_safe_integer bytes start significant = exceeds_from bytes significant 16 start 0

unfoldable pub materialize_from : List ℕ → ℕ → ℕ → ℕ → ℕ → ℕ → Outcome ℕ
unfolding normalized_digit
materialize_from bytes significant zero cursor index value = done value
materialize_from bytes significant (suc left) cursor index value =
    normalized_digit bytes cursor index significant >>= λ (digit, next).
    materialize_from bytes significant left next (index + 1) (value * 10 + digit)

unfoldable pub materialize_integer : List ℕ → ℕ → ℕ → ℕ → Outcome ℕ
unfolding materialize_from
materialize_integer bytes start significant integer_digits =
    materialize_from bytes significant integer_digits start 0 0

-- What is left once the digits are known to be those of an integer, of `shift` zeros and no more than
-- sixteen digits.
unfoldable pub admit_digits : List ℕ → Bool → ℕ → ℕ → ℕ → Outcome ExactInteger
unfolding exceeds_safe_integer materialize_integer
admit_digits bytes negative start significant integer_digits =
    (if integer_digits == 16 then exceeds_safe_integer bytes start significant else done false)
    >>= λ exceeds.
        if exceeds
        then done (refused invalid_format)
        else materialize_integer bytes start significant integer_digits >>= λ value.
            done (admitted (if negative then negated value else pos value))

-- The digits of the coefficient are shifted by the exponent and the trailing zeros, which raise the
-- value, less the fractional digits and a negative exponent, which lower it.
unfoldable pub admit_shifted : List ℕ → Bool → Coefficient → Exponent → Outcome ExactInteger
unfolding admit_digits
admit_shifted bytes negative c exponent =
    let significant = c.significant_digits - c.trailing_zeros in
    let raised = (if exponent.negative then 0 else exponent.magnitude) + c.trailing_zeros in
    let lowered = c.fractional_digits + (if exponent.negative then exponent.magnitude else 0) in
    if ltb raised lowered
    then done (refused invalid_type)
    else let integer_digits = significant + (raised - lowered) in
      if ltb 16 integer_digits
      then done (refused invalid_format)
      else admit_digits bytes negative c.significant_start significant integer_digits

unfoldable pub admit_raw_integer : List ℕ → ℕ → ℕ → Outcome ExactInteger
unfolding scan_coefficient read_exponent admit_shifted
admit_raw_integer bytes start stop =
    let negative = is_byte 0x2d (get_elem? bytes start) in
    scan_coefficient bytes (if negative then start + 1 else start) stop >>= λ c.
    if c.significant_start == stop
    then done (if negative then refused invalid_format else admitted (pos 0))
    else read_exponent bytes c.exponent_start stop (stop - start + 17) >>= λ exponent.
        admit_shifted bytes negative c exponent
