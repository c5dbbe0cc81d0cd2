-- ===== src/Documents/Integers/Spelling.antt =====
-- The JSON numbers that bytes spell, and what a verdict on one says
-- (packages/core/src/features/input-admission/raw-integer.ts).
use get_modular.Base.{
  ℕ, ◌+◌, ◌-◌, ◌*◌, ◌^◌, ◌≤◌, ◌<◌, ◌≡◌, ◌≢◌, ◌⊎◌, List, [], ◌∷◌, ◌++◌, some, Bool, true, false,
  if◌then◌else◌, length, get_elem?,
}
use get_modular.Documents.Integers.{
  ℤ, pos, negated, ExactInteger, admitted, refused, invalid_type, invalid_format,
}
use get_modular.Documents.Integers.Decimal.{worth}

-- A number by its sign, its digits before and behind the point, and its exponent.
pub record Number : Type 0 where
  pub negative : Bool
  pub whole : List ℕ
  pub fraction : List ℕ
  pub lowers : Bool
  pub exponent : List ℕ

module _ (bytes : List ℕ) where
  -- The digits stand from the first position up to the second.
  pub data DigitsAt : ℕ → List ℕ → ℕ → Type 0 where
    no_digits : {p : ℕ} → DigitsAt p [] p
    digit :
        {p stop d : ℕ} {ds : List ℕ}
        → get_elem? bytes p ≡ some (0x30 + d)
        → d ≤ 9
        → DigitsAt (p + 1) ds stop
        → DigitsAt p (d ∷ ds) stop

  pub data SignAt : ℕ → Bool → ℕ → Type 0 where
    minus : {p : ℕ} → get_elem? bytes p ≡ some 0x2d → SignAt p true (p + 1)
    unsigned : {p : ℕ} → get_elem? bytes p ≢ some 0x2d → SignAt p false p

  pub data FractionAt : ℕ → List ℕ → ℕ → Type 0 where
    whole_only : {p : ℕ} → FractionAt p [] p
    point :
        {p stop d : ℕ} {ds : List ℕ}
        → get_elem? bytes p ≡ some 0x2e
        → DigitsAt (p + 1) (d ∷ ds) stop
        → FractionAt p (d ∷ ds) stop

  pub data ExponentSignAt : ℕ → Bool → ℕ → Type 0 where
    lowering : {p : ℕ} → get_elem? bytes p ≡ some 0x2d → ExponentSignAt p true (p + 1)
    raising : {p : ℕ} → get_elem? bytes p ≡ some 0x2b → ExponentSignAt p false (p + 1)
    bare :
        {p : ℕ}
        → get_elem? bytes p ≢ some 0x2d
        → get_elem? bytes p ≢ some 0x2b
        → ExponentSignAt p false p

  pub data ExponentAt : ℕ → Bool → List ℕ → ℕ → Type 0 where
    no_exponent : {p : ℕ} → ExponentAt p false [] p
    exponent :
        {p q stop d : ℕ} {ds : List ℕ} {lowers : Bool}
        → (get_elem? bytes p ≡ some 0x65) ⊎ (get_elem? bytes p ≡ some 0x45)
        → ExponentSignAt (p + 1) lowers q
        → DigitsAt q (d ∷ ds) stop
        → ExponentAt p lowers (d ∷ ds) stop

  -- The bytes from `start` to `stop` spell the number.
  pub record Spells (start stop : ℕ) (n : Number) : Type 0 where
    pub whole_start : ℕ
    pub whole_stop : ℕ
    pub fraction_stop : ℕ
    pub sign : SignAt start n.negative whole_start
    pub some_digit : n.whole ≢ []
    pub no_leading_zero : (d : ℕ) (ds : List ℕ) → n.whole ≢ 0 ∷ d ∷ ds
    pub whole_digits : DigitsAt whole_start n.whole whole_stop
    pub fraction_digits : FractionAt whole_stop n.fraction fraction_stop
    pub exponent_part : ExponentAt fraction_stop n.lowers n.exponent stop

abbrev pub raised_by : Number → ℕ
raised_by n = if n.lowers then 0 else worth 0 n.exponent

abbrev pub lowered_by : Number → ℕ
lowered_by n = length n.fraction + (if n.lowers then worth 0 n.exponent else 0)

-- The number is exactly m, up to its sign: no rounding, and both sides are multiplied out.
abbrev pub IsMagnitude : Number → ℕ → Type 0
IsMagnitude n m = worth 0 (n.whole ++ n.fraction) * 10 ^ raised_by n ≡ m * 10 ^ lowered_by n

-- `Number.MAX_SAFE_INTEGER`
abbrev pub max_safe_integer : ℕ
max_safe_integer = 2 ^ 53 - 1

abbrev pub signed : Bool → ℕ → ℤ
signed negative m = if negative then negated m else pos m

-- What a verdict says of a number.
pub data IsVerdict (n : Number) : ExactInteger → Type 0 where
  integer :
      (m : ℕ)
      → IsMagnitude n m
      → m ≤ max_safe_integer
      → (n.negative ≡ true → m ≢ 0)
      → IsVerdict n (admitted (signed n.negative m))
  not_integer : ((m : ℕ) → IsMagnitude n m → ⊥) → IsVerdict n (refused invalid_type)
  negative_zero : n.negative ≡ true → IsMagnitude n 0 → IsVerdict n (refused invalid_format)
  too_large :
      (m : ℕ) → IsMagnitude n m → max_safe_integer < m → IsVerdict n (refused invalid_format)
