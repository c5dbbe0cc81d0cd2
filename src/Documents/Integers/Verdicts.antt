-- ===== src/Documents/Integers/Verdicts.antt =====
-- Every JSON number gets its verdict (packages/core/src/features/input-admission/raw-integer.ts).
use get_modular.Base.{
  ℕ, ◌+◌, ◌-◌, ◌*◌, ◌^◌, ◌≤◌, ◌≡◌, ◌≢◌, ◌↔◌, inl, inr, refl, List, [], ◌∷◌, ◌++◌, Bool, true, false,
  min, length, get_elem?, arith, ap, ◌∙◌, sym, subst, number_key, ◌==◌, Bool-cases, if◌then◌else◌,
  ltb, ltb→lt, eqb_iff, length-append,
}
use native.Mathlib.Nat.{pow-le-pow_right, mul-le-mul_right, pow-succ'}
use get_modular.Base.Outcome.{Outcome, done, ◌>>=◌, Returns, returns, Returns-done}
use get_modular.Scanner.Bytes.{is_byte}
use get_modular.Documents.Integers.{
  ExactInteger, admitted, refused, invalid_format, pos, Coefficient, Counts, coefficient,
  admit_shifted, admit_raw_integer, scan_coefficient, read_exponent,
}
use get_modular.Documents.Integers.Decimal.{worth, AllDigits, worth_bound, pow_add}
use get_modular.Documents.Integers.Spelling.{
  Number, Spells, DigitsAt, no_digits, digit, SignAt, minus, unsigned, FractionAt, whole_only,
  point, ExponentAt, IsMagnitude, IsVerdict, integer, negative_zero, raised_by, lowered_by, signed,
}
use get_modular.Documents.Integers.Counting.{DigitsAt-length}
use get_modular.Documents.Integers.Runs.{Found, AllDigits-append}
use get_modular.Documents.Integers.Coefficients.{
  Counted, nothing, found, Scanned, scan_coefficient-Scanned, ExponentAt-length,
}
use get_modular.Documents.Integers.Exponents.{read_exponent-worth, is_byte_other}
use get_modular.Documents.Integers.Admission.{
  exponent-Capped, by_shift, by_shift-IsVerdict, not_less,
}

module _ (bytes : List ℕ) where
  DigitsAt-AllDigits : {p stop : ℕ} {ds : List ℕ} → DigitsAt bytes p ds stop → AllDigits ds
  DigitsAt-AllDigits no_digits = tt
  DigitsAt-AllDigits (digit e small rest) = (small, DigitsAt-AllDigits rest)

  FractionAt-AllDigits : {p stop : ℕ} {ds : List ℕ} → FractionAt bytes p ds stop → AllDigits ds
  FractionAt-AllDigits whole_only = tt
  FractionAt-AllDigits (point dot rest) = DigitsAt-AllDigits rest

  FractionAt-length : {p stop : ℕ} {ds : List ℕ} → FractionAt bytes p ds stop → p + length ds ≤ stop
  FractionAt-length whole_only = omega arith
  FractionAt-length (point dot rest) = omega (arith, DigitsAt-length bytes rest)

  SignAt-is_byte :
      {p q : ℕ} {negative : Bool}
      → SignAt bytes p negative q
      → (is_byte 0x2d (get_elem? bytes p) ≡ negative) × (q ≡ (if negative then p + 1 else p))
  SignAt-is_byte (minus e) = (rw e refl, refl)
  SignAt-is_byte {p} (unsigned e) = (is_byte_other 0x2d (get_elem? bytes p) e, refl)

  SignAt-le : {p q : ℕ} {negative : Bool} → SignAt bytes p negative q → p ≤ q
  SignAt-le (minus e) = omega arith
  SignAt-le (unsigned e) = omega arith

  positive_core :
      {start significant trailing end n : ℕ}
      → (f : Found bytes start significant trailing end n) → 1 ≤ worth 0 f.core
  positive_core f = omega (arith, f.last_digit)

  -- The trailing zeros are fewer than the digits.
  trailing_few :
      {start significant trailing end : ℕ} (ds : List ℕ)
      → AllDigits ds
      → Found bytes start significant trailing end (worth 0 ds)
      → trailing ≤ length ds
  trailing_few {trailing} ds all f = elim (Bool-cases (ltb (length ds) trailing)) [
    | inr few ↦ not_less (length ds) trailing few
    | inl many ↦ absurd (
        omega (
          arith,
          f.value,
          worth_bound ds all,
          pow-le-pow_right {n = 10} (omega arith) (ltb→lt (length ds) trailing many),
          mul-le-mul_right (10 ^ trailing) (positive_core f),
          pow-succ' 10 (length ds),
        ))
  ]

  shifted-IsMagnitude :
      {start significant trailing end : ℕ} (n : Number)
      → (f : Found bytes start significant trailing end (worth 0 (n.whole ++ n.fraction))) → (m : ℕ)
      → IsMagnitude n m ↔ (worth 0 f.core * 10 ^ (raised_by n + trailing) ≡ m * 10 ^ lowered_by n)
  shifted-IsMagnitude {trailing} n f m =
      let equal : worth 0 (n.whole ++ n.fraction) * 10 ^ raised_by n
          ≡ worth 0 f.core * 10 ^ (raised_by n + trailing) =
        omega (
          arith,
          ap (λ (t : ℕ). t * 10 ^ raised_by n) f.value,
          ap (λ (t : ℕ). worth 0 f.core * t) (pow_add (raised_by n) trailing),
        ) in
      (λ h. sym equal ∙ h, λ h. equal ∙ h)

  significant_verdict :
      (start stop fraction_stop : ℕ) (n : Number) (c : Counts)
      → Found bytes c.significant_start c.significant_digits c.trailing_zeros fraction_stop
          (worth 0 (n.whole ++ n.fraction))
      → c.fractional_digits ≡ length n.fraction
      → c.trailing_zeros ≤ stop - start
      → length n.fraction ≤ stop - start
      → Returns (IsVerdict n) (
          admit_shifted bytes n.negative (coefficient fraction_stop c) (record {
            negative = n.lowers;
            magnitude = min (stop - start + 17) (worth 0 n.exponent);
          }))
  unfolding admit_shifted
  significant_verdict start stop fraction_stop n c f fractional few few' =
      let limit = stop - start + 17 in
      let ex = worth 0 n.exponent in
      let fraction : length n.fraction + (if n.lowers then ex else 0)
          ≡ c.fractional_digits + (if n.lowers then ex else 0) =
        ap (λ (t : ℕ). t + (if n.lowers then ex else 0)) (sym fractional) in
      let size : length f.core ≡ c.significant_digits - c.trailing_zeros = omega (arith, f.count) in
      let shifts : (m : ℕ)
          → IsMagnitude n m ↔ (
              worth 0 f.core * 10 ^ (raised_by n + c.trailing_zeros)
              ≡ m * 10 ^ (c.fractional_digits + (if n.lowers then ex else 0))) =
        λ m.
          subst
            (λ (t : ℕ).
              IsMagnitude n m
              ↔ (worth 0 f.core * 10 ^ (raised_by n + c.trailing_zeros) ≡ m * 10 ^ t))
            fraction (shifted-IsMagnitude n f m) in
      subst
        (λ (t : ℕ). Returns (IsVerdict n) (
          by_shift n bytes c.significant_start fraction_stop c.significant_digits c.trailing_zeros
            (raised_by n + c.trailing_zeros) (c.fractional_digits + (if n.lowers then ex else 0)) f
            shifts t ((if n.lowers then 0 else min limit ex) + c.trailing_zeros)
            (c.fractional_digits + (if n.lowers then min limit ex else 0))))
        size
        (by_shift-IsVerdict n bytes c.significant_start fraction_stop c.significant_digits
          c.trailing_zeros _ _ f shifts _ _
          (exponent-Capped n.lowers ex limit c.trailing_zeros c.fractional_digits
            (omega (arith, few)) (omega (arith, few', fractional))))

  scanned :
      {start whole_stop fraction_stop stop : ℕ} {fraction ex : List ℕ} {lowers : Bool}
      (whole : List ℕ)
      → whole ≢ []
      → DigitsAt bytes start whole whole_stop
      → FractionAt bytes whole_stop fraction fraction_stop
      → ExponentAt bytes fraction_stop lowers ex stop
      → (c : Counts) × Scanned bytes stop start whole_stop fraction_stop whole fraction c
  scanned [] some_digit whole fraction e = absurd (some_digit refl)
  scanned (d ∷ ds) some_digit whole fraction e = scan_coefficient-Scanned bytes _ whole fraction e

  -- `admitRawInteger` after its scan of the coefficient.
  abbrev after_scan : ℕ → ℕ → Bool → Coefficient → Outcome ExactInteger
  after_scan start stop negative c =
      if c.significant_start == stop
      then done (if negative then refused invalid_format else admitted (pos 0))
      else read_exponent bytes c.exponent_start stop (stop - start + 17) >>= λ exponent.
          admit_shifted bytes negative c exponent

  zero-IsMagnitude : (n : Number) → worth 0 (n.whole ++ n.fraction) ≡ 0 → IsMagnitude n 0
  zero-IsMagnitude n e = omega (arith, ap (λ (t : ℕ). t * 10 ^ raised_by n) e)

  zero_verdict :
      (n : Number) (negative : Bool)
      → n.negative ≡ negative
      → worth 0 (n.whole ++ n.fraction) ≡ 0
      → IsVerdict n (if negative then refused invalid_format else admitted (pos 0))
  zero_verdict n true h e = negative_zero h (zero-IsMagnitude n e)
  zero_verdict n false h e =
      subst (λ (b : Bool). IsVerdict n (admitted (signed b 0))) h
        (integer 0 (zero-IsMagnitude n e) (omega arith) (λ negative. absurd (cc (h, negative))))

  after_scan-IsVerdict :
      (start stop fraction_stop : ℕ) (n : Number) (c : Counts)
      → ExponentAt bytes fraction_stop n.lowers n.exponent stop
      → Counted bytes stop c fraction_stop (worth 0 (n.whole ++ n.fraction))
      → AllDigits (n.whole ++ n.fraction)
      → c.fractional_digits ≡ length n.fraction
      → length (n.whole ++ n.fraction) ≤ stop - start
      → length n.fraction ≤ stop - start
      → Returns (IsVerdict n) (after_scan start stop n.negative (coefficient fraction_stop c))
  after_scan-IsVerdict start stop fraction_stop n c e (nothing h a b z) all fractional few few' =
      let none : (c.significant_start == stop) ≡ true = (eqb_iff c.significant_start stop).1 h in
      rw none (returns (zero_verdict n n.negative refl z))
  after_scan-IsVerdict start stop fraction_stop n c e (found early f) all fractional few few' =
      let some_found : (c.significant_start == stop) ≡ false = ground (arith, early) in
      let digits = n.whole ++ n.fraction in
      rw (some_found, read_exponent-worth bytes (stop - start + 17) e)
        (significant_verdict start stop fraction_stop n c f fractional
          (omega (arith, few, trailing_few digits all f)) few')

  -- For the bytes of any JSON number, admitRawInteger returns a verdict, and the verdict is right: the
  -- number is admitted, with its exact value, if this is a safe integer and no negative zero, its type is
  -- invalid if the exact value is not an integer, and otherwise its format is invalid.
  pub admit_raw_integer_lem :
      (start stop : ℕ) (n : Number)
      → Spells bytes start stop n
      → (v : ExactInteger) × (admit_raw_integer bytes start stop ≡ done v) × IsVerdict n v
  unfolding admit_raw_integer
  admit_raw_integer_lem start stop n s =
      let (negative, whole_start) = SignAt-is_byte s.sign in
      let fits : length n.whole + length n.fraction ≤ stop - start = omega (
        arith,
        SignAt-le s.sign,
        DigitsAt-length bytes s.whole_digits,
        FractionAt-length s.fraction_digits,
        ExponentAt-length bytes stop s.exponent_part,
      ) in
      let (c, found_counts) =
        scanned n.whole s.some_digit s.whole_digits s.fraction_digits s.exponent_part in
      let go : admit_raw_integer bytes start stop
          ≡ after_scan start stop n.negative (coefficient s.fraction_stop c) =
        ap
          (λ (t : Bool).
            scan_coefficient bytes (if t then start + 1 else start) stop
            >>= after_scan start stop t)
          negative
        ∙ ap (λ (p : ℕ). scan_coefficient bytes p stop >>= after_scan start stop n.negative)
            (sym whole_start)
        ∙ ap (λ (m : Outcome Coefficient). m >>= after_scan start stop n.negative)
            found_counts.returned in
      let (v, e, verdict) = Returns-done (
        after_scan-IsVerdict start stop s.fraction_stop n c s.exponent_part found_counts.counted
          (AllDigits-append n.whole n.fraction (DigitsAt-AllDigits s.whole_digits)
            (FractionAt-AllDigits s.fraction_digits))
          found_counts.fractional (omega (arith, length-append n.whole n.fraction, fits))
          (omega (arith, fits))) in
      (v, go ∙ e, verdict)
