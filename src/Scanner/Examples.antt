-- ===== src/Scanner/Examples.antt =====
-- Concrete runs of the raw scanner.
use get_modular.Base.{
  ℕ, ◌+◌, ◌≤◌, ◌<◌, ◌≡◌, ◌↔◌, refl, List, [], ◌∷◌, some, true, false, arith, number_key,
}
use get_modular.Scanner.Bytes.{scalar_bytes, hex_digit, is_continuation, is_digit}
use get_modular.Scanner.Scalars.{read_scalar, continuation, read_two_byte_scalar}
use get_modular.Scanner.Strings.{
  RawToken, string, number, true_literal, invalid, scan_string, string_loop, scan_string_unit,
  scan_escape, read_hex_unit, hex_loop, next_state, append_string_unit, account_string_unit,
  account_unit, close_string, code_units, invalid_token,
}
use get_modular.Scanner.Numbers.{scan_number, scan_keyword}
use get_modular.Scanner.Cursor.{
  Cursor, open_cursor, next, token_at, punctuation_token, value_token, other_token, decode_string,
  text,
}
use get_modular.Scanner.Utf8.{read_scalar_iff, IsScalar, Reads, encode}
use get_modular.Scanner.Text.{utf8_size, is_well_formed}
use get_modular.Scanner.Spans.{Yields, token_at-Yields}
use get_modular.Scanner.Tokens.{decode_string-token_at}
use get_modular.Scanner.Progress.{next-Advances, Advances, read_tokens, read_tokens_lem, InOrder}

-- {"é\ud83d" : -1.5e3}
abbrev sample : List ℕ
sample =
    0x7b ∷ 0x22 ∷ 0xc3 ∷ 0xa9 ∷ 0x5c ∷ 0x75 ∷ 0x64 ∷ 0x38 ∷ 0x33 ∷ 0x64 ∷ 0x22 ∷ 0x20 ∷ 0x3a ∷ 0x2d
    ∷ 0x31 ∷ 0x2e ∷ 0x35 ∷ 0x65 ∷ 0x33 ∷ 0x7d ∷ []

-- The key is é and a lone high surrogate: two bytes and three.
abbrev key : RawToken
key = record { kind = string 5 false; start = 1; stop = 11 }

key_scanned : token_at sample 1 ≡ some key
unfolding token_at punctuation_token value_token scan_string string_loop scan_string_unit
    scan_escape read_hex_unit hex_loop hex_digit next_state append_string_unit account_string_unit
    account_unit close_string code_units read_scalar continuation is_continuation
    read_two_byte_scalar scalar_bytes
key_scanned = refl

key_decoded : decode_string sample 1 11 ≡ some (text (0xe9 ∷ 0xd83d ∷ []))
unfolding decode_string scan_string string_loop scan_string_unit scan_escape read_hex_unit hex_loop
    hex_digit next_state append_string_unit account_string_unit account_unit close_string code_units
    read_scalar continuation is_continuation read_two_byte_scalar scalar_bytes
key_decoded = refl

value_scanned : token_at sample 13 ≡ some (record { kind = number; start = 13; stop = 19 })
unfolding token_at punctuation_token value_token other_token scan_number is_digit
value_scanned = refl

-- A leading zero is no number, a byte order mark one invalid token.
bad_number : token_at (0x30 ∷ 0x31 ∷ []) 0 ≡ some (record { kind = invalid; start = 0; stop = 2 })
unfolding token_at punctuation_token value_token other_token scan_number is_digit invalid_token
bad_number = refl

byte_order_mark :
    token_at (0xef ∷ 0xbb ∷ 0xbf ∷ 0x31 ∷ []) 0
    ≡ some (record { kind = invalid; start = 0; stop = 3 })
unfolding token_at punctuation_token value_token other_token is_digit invalid_token
byte_order_mark = refl

keyword_scanned :
    token_at (0x74 ∷ 0x72 ∷ 0x75 ∷ 0x65 ∷ []) 0
    ≡ some (record { kind = true_literal; start = 0; stop = 4 })
unfolding token_at punctuation_token value_token scan_keyword
keyword_scanned = refl

read_scalar_iff_example :
    (read_scalar sample 2 20 ≡ some 0xe9)
    ↔ (IsScalar 0xe9 × (2 + scalar_bytes 0xe9 ≤ 20) × Reads sample 2 (encode 0xe9))
read_scalar_iff_example = read_scalar_iff sample 2 20 0xe9

token_at-Yields_example : Yields sample 13 (token_at sample 13)
token_at-Yields_example = token_at-Yields sample 13 (omega arith)

decode_string-token_at_example :
    (t : List ℕ) × (decode_string sample 1 11 ≡ some (text t))
    × (utf8_size t ≡ 5)
    × (is_well_formed t ≡ false)
decode_string-token_at_example = decode_string-token_at sample 1 key 5 false key_scanned refl

next-Advances_example :
    (d : Cursor) × (token : RawToken) × (next sample (record { position = 11; finished = false })
      ≡ some (d, token))
    × Advances sample (record { position = 11; finished = false }) d token
next-Advances_example =
    next-Advances sample (record { position = 11; finished = false }) (omega arith) refl

read_tokens_lem_example :
    (d : Cursor) × (tokens : List RawToken) × (read_tokens 21 sample open_cursor ≡ some (d, tokens))
    × InOrder 0 sample tokens
    × (20 < 21 → d.finished ≡ true)
read_tokens_lem_example = read_tokens_lem 21 sample
