-- ===== src/Scanner/Cursor.antt =====
-- `tokenAt` and `openOwnedRawTokenCursor` of
-- packages/core/src/features/raw-scanner/owned-iterative/scanner.ts.
use get_modular.Base.{
  ℕ, ◌+◌, List, [], ◌∷◌, ◌++◌, Option, none, some, Bool, true, false, not, ◌&&◌, ◌||◌, ◌==◌,
  number_key, ltb, if◌then◌else◌, get_elem?, drop, length,
}
use get_modular.Scanner.Bytes.{is_byte, is_whitespace, is_digit}
use get_modular.Scanner.Strings.{
  RawToken, TokenKind, object_start, object_end, array_start, array_end, colon, comma, string,
  invalid, end_of_input, invalid_token, scan_string, Scan,
}
use get_modular.Scanner.Numbers.{scan_number, scan_keyword, true_word, false_word, null_word}

abbrev pub single : TokenKind → ℕ → Option RawToken
single kind start = some (record { kind = kind; start = start; stop = start + 1 })

abbrev pub token_of_scan : Option Scan → Option RawToken
token_of_scan none = none
token_of_scan (some (token, chunks)) = some token

-- The `default` branch: a number, or an invalid byte; a byte order mark is one invalid token.
unfoldable pub other_token : List ℕ → ℕ → ℕ → RawToken
other_token bytes start byte =
    if byte == 0x2d || is_digit (some byte)
    then scan_number bytes start
    else invalid_token start
        (start
          + (if byte == 0xef
                && is_byte 0xbb (get_elem? bytes (start + 1))
                && is_byte 0xbf (get_elem? bytes (start + 2))
              then 2
              else 0))
        (length bytes)

-- The cases of the `switch` from the quotation mark on.
unfoldable pub value_token : List ℕ → ℕ → ℕ → Option RawToken
value_token bytes start byte =
    if byte == 0x22
    then token_of_scan (scan_string bytes start (length bytes) none)
    else if byte == 0x74
    then some (scan_keyword bytes start true_word)
    else if byte == 0x66
    then some (scan_keyword bytes start false_word)
    else if byte == 0x6e
    then some (scan_keyword bytes start null_word)
    else some (other_token bytes start byte)

-- The cases of the `switch` before it.
unfoldable pub punctuation_token : List ℕ → ℕ → ℕ → Option RawToken
punctuation_token bytes start byte =
    if byte == 0x7b
    then single object_start start
    else if byte == 0x7d
    then single object_end start
    else if byte == 0x5b
    then single array_start start
    else if byte == 0x5d
    then single array_end start
    else if byte == 0x3a
    then single colon start
    else if byte == 0x2c
    then single comma start
    else value_token bytes start byte

unfoldable pub token_at : List ℕ → ℕ → Option RawToken
token_at bytes start = elim (get_elem? bytes start) [
  | none ↦ some (invalid_token start start (length bytes))
  | some byte ↦ punctuation_token bytes start byte
]

-- The variables that the cursor's closures share.
pub record Cursor : Type 0 where
  pub position : ℕ
  pub finished : Bool

unfoldable pub open_cursor : Cursor
open_cursor = record { position = 0; finished = false }

-- Where white space ends; the list is the bytes from `position` on.
unfoldable pub blanks_from : List ℕ → ℕ → ℕ
unfolding is_whitespace
blanks_from [] position = position
blanks_from (b ∷ rest) position =
    let further = blanks_from rest (position + 1) in
    if is_whitespace (some b) then further else position

-- `while (position < length && isWhitespace(ownedBytes[position])) {position += 1;}`
unfoldable pub skip_whitespace : List ℕ → ℕ → ℕ
unfolding blanks_from
skip_whitespace bytes position = blanks_from (drop position bytes) position

abbrev pub end_token : List ℕ → RawToken
end_token bytes = record { kind = end_of_input; start = length bytes; stop = length bytes }

abbrev pub is_invalid : TokenKind → Bool
is_invalid invalid = true
is_invalid _ = false

abbrev pub after_token : List ℕ → RawToken → Cursor × RawToken
after_token bytes token =
    if is_invalid token.kind
    then (record { position = length bytes; finished = true }, token)
    else (record { position = token.stop; finished = false }, token)

abbrev pub deliver : List ℕ → Option RawToken → Option (Cursor × RawToken)
deliver bytes none = none
deliver bytes (some token) = some (after_token bytes token)

unfoldable pub next : List ℕ → Cursor → Option (Cursor × RawToken)
next bytes cursor =
    if cursor.finished
    then some (cursor, end_token bytes)
    else let start = skip_whitespace bytes cursor.position in
      if start == length bytes
      then some (record { position = start; finished = true }, end_token bytes)
      else deliver bytes (token_at bytes start)

-- `decodeString`: the text, or the `TypeError` that it throws.
pub data Decoded : Type 0 where
  text : List ℕ → Decoded
  invalid_span no_longer_matches : Decoded

abbrev pub join : List (List ℕ) → List ℕ
join [] = []
join (c ∷ cs) = c ++ join cs

abbrev pub is_string : TokenKind → Bool
is_string (string n w) = true
is_string _ = false

abbrev pub text_of_chunks : Option (List (List ℕ)) → Decoded
text_of_chunks none = text []
text_of_chunks (some chunks) = text (join chunks)

abbrev pub decoded_of_scan : ℕ → Option Scan → Option Decoded
decoded_of_scan stop none = none
decoded_of_scan stop (some (checked, chunks)) =
    if not (is_string checked.kind) || not (checked.stop == stop)
    then some no_longer_matches
    else some (text_of_chunks chunks)

-- The positions are natural numbers here, so the tests on integers and on `start < 0` pass.
unfoldable pub decode_string : List ℕ → ℕ → ℕ → Option Decoded
decode_string bytes start stop =
    if ltb (length bytes) stop || ltb stop (start + 2)
    then some invalid_span
    else decoded_of_scan stop (scan_string bytes start stop (some []))
