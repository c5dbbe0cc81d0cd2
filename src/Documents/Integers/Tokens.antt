-- ===== src/Documents/Integers/Tokens.antt =====
-- What the number tokens of the scanner spell
-- (packages/core/src/features/raw-scanner/owned-iterative/scanner.ts: `scanNumber`).
use get_modular.Base.{
  ℕ, suc, ◌+◌, ◌≤◌, ◌≡◌, ◌≢◌, inl, inr, refl, List, [], ◌∷◌, some, Bool, true, false, ◌||◌, length,
  get_elem?, drop, arith, ap, ◌∙◌, sym, subst, number_key, Bool-cases,
}
use get_modular.Base.Outcome.{done}
use get_modular.Scanner.Bytes.{is_byte, is_digit, is_boundary}
use get_modular.Scanner.Strings.{number}
use get_modular.Scanner.Numbers.{
  Part, ends_at, bad_at, digits_from, skip_digits, some_digits, sign_part, leading_digit,
  integer_part, fraction_part, exponent_sign, exponent_part, boundary_part, number_part,
  token_of_part, scan_number,
}
use get_modular.Documents.Integers.{ExactInteger, admit_raw_integer}
use get_modular.Documents.Integers.Verdicts.{admit_raw_integer_lem}
use get_modular.Documents.Integers.Spelling.{
  IsVerdict, Number, Spells, DigitsAt, no_digits, digit, SignAt, minus, unsigned, FractionAt,
  whole_only, point, ExponentSignAt, lowering, raising, bare, ExponentAt, no_exponent, exponent,
}
use get_modular.Documents.Integers.Bytes.{
  bind_ends, ends_injective, get_elem?-drop, if_ends, invalid_no_number, is_byte-some,
  is_digit-some, leading_digit-some, letter_some, not_byte,
}

module _ (bytes : List ℕ) where
  digits_from-DigitsAt :
      (xs : List ℕ) (p : ℕ)
      → ((i : ℕ) → get_elem? xs i ≡ get_elem? bytes (p + i))
      → (ds : List ℕ) × DigitsAt bytes p ds (digits_from xs p)
  unfolding digits_from
  digits_from-DigitsAt [] p view = ([], no_digits)
  digits_from-DigitsAt (b ∷ xs) p view = elim (Bool-cases (is_digit (some b))) [
    | inr other ↦ rw (other, digits_from) ([], no_digits)
    | inl first ↦
        let (d, e, small) = is_digit-some (some b) first in
        let here : get_elem? bytes p ≡ some (0x30 + d) =
          ap (get_elem? bytes) (omega arith) ∙ sym (view 0) ∙ e in
        let (ds, rest) =
          digits_from-DigitsAt xs (p + 1)
            (λ i. view (suc i) ∙ ap (get_elem? bytes) (omega arith)) in
        rw (first, digits_from) (d ∷ ds, digit here small rest)
  ]

  skip_digits-DigitsAt : (p : ℕ) → (ds : List ℕ) × DigitsAt bytes p ds (skip_digits bytes p)
  unfolding skip_digits
  skip_digits-DigitsAt p = digits_from-DigitsAt (drop p bytes) p (get_elem?-drop p bytes)

  -- A digit, and the digits that are skipped after it.
  digit_then :
      (p d : ℕ) {e : ℕ}
      → get_elem? bytes p ≡ some (0x30 + d)
      → d ≤ 9
      → ends_at (skip_digits bytes (p + 1)) ≡ ends_at e
      → (ds : List ℕ) × DigitsAt bytes p (d ∷ ds) e
  digit_then p d {e} b small h =
      let (ds, rest) = skip_digits-DigitsAt (p + 1) in
      (
        ds,
        digit b small (subst (λ (q : ℕ). DigitsAt bytes (p + 1) ds q) (ends_injective _ _ h) rest),
      )

  one_digit :
      (p d : ℕ) {e : ℕ}
      → get_elem? bytes p ≡ some (0x30 + d)
      → d ≤ 9
      → ends_at (p + 1) ≡ ends_at e
      → DigitsAt bytes p (d ∷ []) e
  one_digit p d b small h =
      digit b small
        (subst (λ (q : ℕ). DigitsAt bytes (p + 1) [] q) (ends_injective _ _ h) no_digits)

  some_digits-DigitsAt :
      (p : ℕ) {e : ℕ}
      → some_digits bytes p ≡ ends_at e
      → (d : ℕ) × ((ds : List ℕ) × DigitsAt bytes p (d ∷ ds) e)
  unfolding some_digits
  some_digits-DigitsAt p h = elim (if_ends (is_digit (get_elem? bytes p)) _ _ h) [
    | inr (other, h) ↦ absurd (cc (h))
    | inl (first, h) ↦
        let (d, b, small) = is_digit-some (get_elem? bytes p) first in (d, digit_then p d b small h)
  ]

  leading_digit-positive : (d : ℕ) → leading_digit (some (0x30 + d)) ≡ true → d ≢ 0
  leading_digit-positive d h e = absurd (ground (arith, h, e))

  integer_part-DigitsAt :
      (p : ℕ) {e : ℕ}
      → integer_part bytes p ≡ ends_at e
      → (d : ℕ) × ((ds : List ℕ) × DigitsAt bytes p (d ∷ ds) e × ((d ≡ 0) → ds ≡ []))
  unfolding integer_part
  integer_part-DigitsAt p h = elim (if_ends (is_byte 0x30 (get_elem? bytes p)) _ _ h) [
    | inl (zero_first, h) ↦ elim (if_ends (is_digit (get_elem? bytes (p + 1))) _ _ h) [
      | inl (_, h) ↦ absurd (cc (h))
      | inr (_, h) ↦ (
        0,
        (
          [],
          one_digit p 0 (is_byte-some 0x30 (get_elem? bytes p) zero_first) (omega arith) h,
          λ _. refl,
        ),
      )
    ]
    | inr (_, h) ↦ elim (if_ends (leading_digit (get_elem? bytes p)) _ _ h) [
      | inr (_, h) ↦ absurd (cc (h))
      | inl (first, h) ↦
          let (d, b, small) = leading_digit-some (get_elem? bytes p) first in
          let (ds, digits) = digit_then p d b small h in
          let positive = leading_digit-positive d (subst (λ o. leading_digit o ≡ true) b first) in
          (d, (ds, digits, λ none_left. absurd (positive none_left)))
    ]
  ]

  fraction_part-FractionAt :
      (p : ℕ) {e : ℕ} → fraction_part bytes p ≡ ends_at e → (ds : List ℕ) × FractionAt bytes p ds e
  unfolding fraction_part
  fraction_part-FractionAt p h = elim (if_ends (is_byte 0x2e (get_elem? bytes p)) _ _ h) [
    | inl (dot, h) ↦
        let (d, (ds, rest)) = some_digits-DigitsAt (p + 1) h in
        (d ∷ ds, point (is_byte-some 0x2e (get_elem? bytes p) dot) rest)
    | inr (_, h) ↦
        ([], subst (λ (q : ℕ). FractionAt bytes p [] q) (ends_injective _ _ h) whole_only)
  ]

  exponent_sign-ExponentSignAt :
      (p : ℕ) → (lowers : Bool) × ExponentSignAt bytes p lowers (exponent_sign bytes p)
  unfolding exponent_sign
  exponent_sign-ExponentSignAt p = elim (Bool-cases (is_byte 0x2b (get_elem? bytes p))) [
    | inl plus ↦
        let b = is_byte-some 0x2b (get_elem? bytes p) plus in
        rw (b, exponent_sign) (false, raising b)
    | inr no_plus ↦ elim (Bool-cases (is_byte 0x2d (get_elem? bytes p))) [
      | inl dash ↦
          let b = is_byte-some 0x2d (get_elem? bytes p) dash in
          rw (b, exponent_sign) (true, lowering b)
      | inr no_dash ↦
          rw (no_plus, no_dash, exponent_sign)
            (
              false,
              bare (not_byte 0x2d (get_elem? bytes p) no_dash)
                  (not_byte 0x2b (get_elem? bytes p) no_plus),
            )
    ]
  ]

  exponent_part-ExponentAt :
      (p : ℕ) {e : ℕ}
      → exponent_part bytes p ≡ ends_at e
      → (lowers : Bool) × ((ds : List ℕ) × ExponentAt bytes p lowers ds e)
  unfolding exponent_part
  exponent_part-ExponentAt p h =
      elim (if_ends (is_byte 0x65 (get_elem? bytes p) || is_byte 0x45 (get_elem? bytes p)) _ _ h) [
        | inl (letter, h) ↦
            let (lowers, sign) = exponent_sign-ExponentSignAt (p + 1) in
            let (d, (ds, rest)) = some_digits-DigitsAt (exponent_sign bytes (p + 1)) h in
            (lowers, (d ∷ ds, exponent (letter_some (get_elem? bytes p) letter) sign rest))
        | inr (_, h) ↦ (
          false,
          ([], subst (λ (q : ℕ). ExponentAt bytes p false [] q) (ends_injective _ _ h) no_exponent),
        )
      ]

  sign_part-SignAt : (p : ℕ) → (negative : Bool) × SignAt bytes p negative (sign_part bytes p)
  unfolding sign_part
  sign_part-SignAt p = elim (Bool-cases (is_byte 0x2d (get_elem? bytes p))) [
    | inl dash ↦
        let b = is_byte-some 0x2d (get_elem? bytes p) dash in rw (b, sign_part) (true, minus b)
    | inr no_dash ↦
        rw (no_dash, sign_part) (false, unsigned (not_byte 0x2d (get_elem? bytes p) no_dash))
  ]

  boundary : (p : ℕ) {e : ℕ} → boundary_part bytes p ≡ ends_at e → p ≡ e
  unfolding boundary_part
  boundary p h = elim (if_ends (is_boundary (get_elem? bytes p)) _ _ h) [
    | inl (_, h) ↦ ends_injective _ _ h
    | inr (_, h) ↦ absurd (cc (h))
  ]

  zero_alone :
      (d : ℕ) (ds : List ℕ) (x : ℕ) (xs : List ℕ) → ((d ≡ 0) → ds ≡ []) → d ∷ ds ≢ 0 ∷ x ∷ xs
  zero_alone d ds x xs alone e = let rest = alone (cc (e)) in absurd (cc (e, rest))

  number_part-Spells :
      (start : ℕ) {e : ℕ}
      → number_part bytes start ≡ ends_at e
      → (n : Number) × Spells bytes start e n
  unfolding number_part
  number_part-Spells start h =
      let (whole_stop, whole, h) = bind_ends (integer_part bytes (sign_part bytes start)) _ h in
      let (fraction_stop, fraction, h) = bind_ends (fraction_part bytes whole_stop) _ h in
      let (exponent_stop, ex, h) = bind_ends (exponent_part bytes fraction_stop) _ h in
      let (negative, sign) = sign_part-SignAt start in
      let (d, (ds, whole_digits, alone)) = integer_part-DigitsAt (sign_part bytes start) whole in
      let (fs, fraction_digits) = fraction_part-FractionAt whole_stop fraction in
      let (lowers, (es, exponent_part)) = exponent_part-ExponentAt fraction_stop ex in
      (
        record {
          negative = negative;
          whole = d ∷ ds;
          fraction = fs;
          lowers = lowers;
          exponent = es;
        },
        record {
          whole_start = sign_part bytes start;
          whole_stop = whole_stop;
          fraction_stop = fraction_stop;
          sign = sign;
          some_digit = λ (e : d ∷ ds ≡ []). cc (e);
          no_leading_zero = λ x xs (e : d ∷ ds ≡ 0 ∷ x ∷ xs). zero_alone d ds x xs alone e;
          whole_digits = whole_digits;
          fraction_digits = fraction_digits;
          exponent_part =
              subst (λ (q : ℕ). ExponentAt bytes fraction_stop lowers es q)
                (boundary exponent_stop h) exponent_part;
        },
      )

  pub token_of_part-Spells :
      (start : ℕ) (part : Part)
      → number_part bytes start ≡ part
      → (token_of_part start (length bytes) part).kind ≡ number
      → (n : Number) × Spells bytes start (token_of_part start (length bytes) part).stop n
  token_of_part-Spells start (ends_at e) h is_number = number_part-Spells start h
  token_of_part-Spells start (bad_at e) h is_number =
      absurd (invalid_no_number start e (length bytes) is_number)

  -- A number token spells a JSON number, which has no leading zero, and admitRawInteger returns the right verdict on it: the number
  -- is admitted, with its exact value, if this is a safe integer and no negative zero, its type is
  -- invalid if the exact value is not an integer, and otherwise its format is invalid.
  pub admit_raw_integer-scan_number :
      (start : ℕ)
      → (scan_number bytes start).kind ≡ number
      → (n : Number) × Spells bytes start (scan_number bytes start).stop n
        × ((v : ExactInteger) × (admit_raw_integer bytes start (scan_number bytes start).stop
              ≡ done v)
            × IsVerdict n v)
  unfolding scan_number
  admit_raw_integer-scan_number start is_number =
      let (n, s) = token_of_part-Spells start (number_part bytes start) refl is_number in
      (n, s, admit_raw_integer_lem bytes start _ n s)
