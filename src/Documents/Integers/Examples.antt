-- ===== src/Documents/Integers/Examples.antt =====
-- Concrete numbers.
use get_modular.Base.{ℕ, ◌≡◌, refl, List, [], ◌∷◌}
use get_modular.Base.Outcome.{done}
use get_modular.Scanner.Bytes.{is_digit, is_boundary, is_whitespace}
use get_modular.Scanner.Numbers.{
  scan_number, number_part, sign_part, integer_part, fraction_part, exponent_part, exponent_sign,
  some_digits, skip_digits, digits_from, boundary_part,
}
use get_modular.Documents.Integers.{
  ExactInteger, admitted, refused, negsuc, invalid_type, invalid_format, admit_raw_integer,
  scan_coefficient, scan_from, count_byte, read_exponent, exponent_from, admit_shifted,
  admit_digits, exceeds_safe_integer, exceeds_from, materialize_integer, materialize_from,
  normalized_digit,
}
use get_modular.Documents.Integers.Spelling.{Number, Spells, IsVerdict}
use get_modular.Documents.Integers.Tokens.{admit_raw_integer-scan_number}

-- -1.20e1
abbrev minus_twelve : List ℕ
minus_twelve = 0x2d ∷ 0x31 ∷ 0x2e ∷ 0x32 ∷ 0x30 ∷ 0x65 ∷ 0x31 ∷ []

minus_twelve_lem : admit_raw_integer minus_twelve 0 7 ≡ done (admitted (negsuc 11))
unfolding admit_raw_integer scan_coefficient scan_from count_byte read_exponent exponent_from
    admit_shifted admit_digits materialize_integer materialize_from normalized_digit
minus_twelve_lem = refl

-- 15e-1
abbrev one_and_a_half : List ℕ
one_and_a_half = 0x31 ∷ 0x35 ∷ 0x65 ∷ 0x2d ∷ 0x31 ∷ []

one_and_a_half_lem : admit_raw_integer one_and_a_half 0 5 ≡ done (refused invalid_type)
unfolding admit_raw_integer scan_coefficient scan_from count_byte read_exponent exponent_from
    admit_shifted
one_and_a_half_lem = refl

-- 9007199254740992, one above the greatest safe integer.
abbrev unsafe : List ℕ
unsafe =
    0x39 ∷ 0x30 ∷ 0x30 ∷ 0x37 ∷ 0x31 ∷ 0x39 ∷ 0x39 ∷ 0x32 ∷ 0x35 ∷ 0x34 ∷ 0x37 ∷ 0x34 ∷ 0x30 ∷ 0x39
    ∷ 0x39 ∷ 0x32 ∷ []

unsafe_lem : admit_raw_integer unsafe 0 16 ≡ done (refused invalid_format)
unfolding admit_raw_integer scan_coefficient scan_from count_byte read_exponent exponent_from
    admit_shifted admit_digits exceeds_safe_integer exceeds_from normalized_digit
unsafe_lem = refl

admit_raw_integer-scan_number_example :
    (n : Number) × Spells minus_twelve 0 (scan_number minus_twelve 0).stop n
    × ((v : ExactInteger) × (admit_raw_integer minus_twelve 0 (scan_number minus_twelve 0).stop
          ≡ done v)
        × IsVerdict n v)
unfolding scan_number number_part sign_part integer_part fraction_part exponent_part exponent_sign
    some_digits skip_digits digits_from boundary_part is_digit is_boundary is_whitespace
admit_raw_integer-scan_number_example = admit_raw_integer-scan_number minus_twelve 0 refl
