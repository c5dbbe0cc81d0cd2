-- ===== src/Scanner/Numbers.antt =====
-- Number tokens and keywords: `scanNumber` and `scanKeyword` of
-- packages/core/src/features/raw-scanner/owned-iterative/scanner.ts.
use get_modular.Base.{
  ℕ, ◌+◌, ◌-◌, List, [], ◌∷◌, Option, none, some, Bool, false, not, ◌&&◌, ◌||◌, number_key,
  if◌then◌else◌, get_elem?, drop, length,
}
use get_modular.Scanner.Bytes.{is_byte, within, is_digit, is_boundary}
use get_modular.Scanner.Strings.{
  RawToken, number, true_literal, false_literal, null_literal, TokenKind, invalid_token,
}

-- Where a run of digits ends; the list is the bytes from `position` on.
unfoldable pub digits_from : List ℕ → ℕ → ℕ
unfolding is_digit
digits_from [] position = position
digits_from (b ∷ rest) position =
    let further = digits_from rest (position + 1) in if is_digit (some b) then further else position

-- `while (isDigit(bytes[position])) { position += 1; }`
unfoldable pub skip_digits : List ℕ → ℕ → ℕ
unfolding digits_from
skip_digits bytes position = digits_from (drop position bytes) position

-- A part of a number ends at a position, or the number is invalid at one.
pub data Part : Type 0 where
  ends_at : ℕ → Part
  bad_at : ℕ → Part

infixl 5 ◌>>=◌
abbrev pub ◌>>=◌ : Part → (ℕ → Part) → Part
ends_at position >>= f = f position
bad_at position >>= f = bad_at position

-- `if (!isDigit(bytes[position])) {return invalidToken(…);} do { position += 1; } while (…)`
unfoldable pub some_digits : List ℕ → ℕ → Part
unfolding is_digit skip_digits
some_digits bytes position =
    if is_digit (get_elem? bytes position)
    then ends_at (skip_digits bytes (position + 1))
    else bad_at position

unfoldable pub sign_part : List ℕ → ℕ → ℕ
sign_part bytes position =
    if is_byte 0x2d (get_elem? bytes position) then position + 1 else position

abbrev pub leading_digit : Option ℕ → Bool
leading_digit none = false
leading_digit (some b) = within 0x31 0x39 b

unfoldable pub integer_part : List ℕ → ℕ → Part
unfolding is_digit skip_digits
integer_part bytes position =
    if is_byte 0x30 (get_elem? bytes position)
    then (if is_digit (get_elem? bytes (position + 1))
        then bad_at (position + 1)
        else ends_at (position + 1))
    else if leading_digit (get_elem? bytes position)
    then ends_at (skip_digits bytes (position + 1))
    else bad_at position

unfoldable pub fraction_part : List ℕ → ℕ → Part
unfolding some_digits
fraction_part bytes position =
    if is_byte 0x2e (get_elem? bytes position)
    then some_digits bytes (position + 1)
    else ends_at position

unfoldable pub exponent_sign : List ℕ → ℕ → ℕ
exponent_sign bytes position =
    if is_byte 0x2b (get_elem? bytes position) || is_byte 0x2d (get_elem? bytes position)
    then position + 1
    else position

unfoldable pub exponent_part : List ℕ → ℕ → Part
unfolding some_digits exponent_sign
exponent_part bytes position =
    if is_byte 0x65 (get_elem? bytes position) || is_byte 0x45 (get_elem? bytes position)
    then some_digits bytes (exponent_sign bytes (position + 1))
    else ends_at position

unfoldable pub boundary_part : List ℕ → ℕ → Part
unfolding is_boundary
boundary_part bytes position =
    if is_boundary (get_elem? bytes position) then ends_at position else bad_at position

unfoldable pub number_part : List ℕ → ℕ → Part
unfolding sign_part integer_part fraction_part exponent_part boundary_part
number_part bytes start = do
  after_integer ← integer_part bytes (sign_part bytes start)
  after_fraction ← fraction_part bytes after_integer
  after_exponent ← exponent_part bytes after_fraction
  boundary_part bytes after_exponent

abbrev pub token_of_part : ℕ → ℕ → Part → RawToken
token_of_part start limit (ends_at position) = record {
  kind = number;
  start = start;
  stop = position;
}
token_of_part start limit (bad_at position) = invalid_token start position limit

unfoldable pub scan_number : List ℕ → ℕ → RawToken
unfolding number_part invalid_token
scan_number bytes start = token_of_part start (length bytes) (number_part bytes start)

pub data Keyword : Type 0 where
  true_word false_word null_word : Keyword

abbrev pub keyword_length : Keyword → ℕ
keyword_length false_word = 5
keyword_length _ = 4

abbrev pub keyword_kind : Keyword → TokenKind
keyword_kind true_word = true_literal
keyword_kind false_word = false_literal
keyword_kind null_word = null_literal

-- The bytes after the first are those of the keyword.
abbrev pub keyword_matches : List ℕ → ℕ → Keyword → Bool
keyword_matches bytes start true_word =
    is_byte 0x72 (get_elem? bytes (start + 1))
    && is_byte 0x75 (get_elem? bytes (start + 2))
    && is_byte 0x65 (get_elem? bytes (start + 3))
keyword_matches bytes start false_word =
    is_byte 0x61 (get_elem? bytes (start + 1))
    && is_byte 0x6c (get_elem? bytes (start + 2))
    && is_byte 0x73 (get_elem? bytes (start + 3))
    && is_byte 0x65 (get_elem? bytes (start + 4))
keyword_matches bytes start null_word =
    is_byte 0x75 (get_elem? bytes (start + 1))
    && is_byte 0x6c (get_elem? bytes (start + 2))
    && is_byte 0x6c (get_elem? bytes (start + 3))

unfoldable pub scan_keyword : List ℕ → ℕ → Keyword → RawToken
unfolding is_boundary invalid_token
scan_keyword bytes start word =
    let stop = start + keyword_length word in
    if not (keyword_matches bytes start word)
    then invalid_token start (stop - 1) (length bytes)
    else if not (is_boundary (get_elem? bytes stop))
    then invalid_token start stop (length bytes)
    else record { kind = keyword_kind word; start = start; stop = stop }
