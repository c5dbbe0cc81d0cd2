-- ===== src/Scanner/Strings.antt =====
-- String tokens: `readHexUnit`, `scanStringUnit`, `appendStringUnit`, `accountStringUnit` and
-- `scanString` of packages/core/src/features/raw-scanner/owned-iterative/scanner.ts. A JavaScript
-- string is the list of its UTF-16 code units.
use get_modular.Base.{
  ℕ, zero, suc, ◌+◌, ◌-◌, ◌*◌, ◌/◌, ◌%◌, List, [], ◌∷◌, ◌++◌, Option, none, some, Bool, true, false,
  not, ◌&&◌, ◌||◌, ◌==◌, number_key, ltb, leb, if◌then◌else◌, get_elem?, length,
}
use get_modular.Scanner.Bytes.{is_byte, within, hex_digit, escaped_unit, scalar_bytes}
use get_modular.Scanner.Scalars.{read_scalar}

-- `RawToken["kind"]`, with the data that a string token carries.
pub data TokenKind : Type 0 where
  object_start object_end array_start array_end colon comma : TokenKind
  true_literal false_literal null_literal number invalid end_of_input : TokenKind
  string : ℕ → Bool → TokenKind

pub record RawToken : Type 0 where
  pub kind : TokenKind
  pub start : ℕ
  pub stop : ℕ

unfoldable pub invalid_token : ℕ → ℕ → ℕ → RawToken
invalid_token start at limit = record {
  kind = invalid;
  start = start;
  stop = if ltb at limit then at + 1 else limit;
}

-- The rounds `left` of the loop of `readHexUnit`, from `index` on.
unfoldable pub hex_loop : ℕ → List ℕ → ℕ → ℕ → Option ℕ
hex_loop zero bytes index value = some value
hex_loop (suc left) bytes index value = elim (get_elem? bytes index) [
  | none ↦ none
  | some b ↦ elim (hex_digit b) [
    | none ↦ none
    | some digit ↦ hex_loop left bytes (index + 1) (value * 16 + digit)
  ]
]

unfoldable pub read_hex_unit : List ℕ → ℕ → ℕ → Option ℕ
read_hex_unit bytes start limit = if ltb limit (start + 4) then none else hex_loop 4 bytes start 0

pub data ScannedUnit : Type 0 where
  scanned : ℕ → ℕ → ScannedUnit
  invalid_at : ℕ → ScannedUnit

-- `unit < 0 ? { ok: false, invalidAt } : { ok: true, unit, next }`
abbrev pub scanned_or : ℕ → (ℕ → ℕ) → Option ℕ → ScannedUnit
scanned_or at next none = invalid_at at
scanned_or at next (some unit) = scanned unit (next unit)

unfoldable pub scan_escape : List ℕ → ℕ → ℕ → ScannedUnit
scan_escape bytes position limit =
    if leb limit (position + 1) then invalid_at limit else elim (get_elem? bytes (position + 1)) [
      | none ↦ invalid_at limit
      | some escape ↦
          if escape == 0x75
          then scanned_or (position + 5) (λ _. position + 6)
              (read_hex_unit bytes (position + 2) limit)
          else scanned_or (position + 1) (λ _. position + 2) (escaped_unit escape)
    ]

unfoldable pub scan_string_unit : List ℕ → ℕ → ℕ → ScannedUnit
scan_string_unit bytes position limit = elim (get_elem? bytes position) [
  | none ↦ invalid_at position
  | some b ↦
      if b == 0x5c
      then scan_escape bytes position limit
      else if ltb b 0x20
      then invalid_at position
      else scanned_or position (λ unit. position + scalar_bytes unit)
          (read_scalar bytes position limit)
]

-- `chunks` is null while a token is scanned, and collects the decoded text in `decodeString`.
pub record StringState : Type 0 where
  pub position : ℕ
  pub decoded_utf8_bytes : ℕ
  pub well_formed_utf16 : Bool
  pub pending_high_surrogate : Bool
  pub chunk : List ℕ
  pub chunks : Option (List (List ℕ))

-- The code units of one unit: itself, or the surrogate pair of a supplementary scalar.
unfoldable pub code_units : ℕ → List ℕ
code_units unit =
    if leb unit 0xffff
    then unit ∷ []
    else (0xd800 + (unit - 0x10000) / 1024) ∷ (0xdc00 + (unit - 0x10000) % 1024) ∷ []

abbrev pub flush_chunk : List (List ℕ) → StringState → StringState
flush_chunk chunks state =
    if leb 4096 (length state.chunk)
    then record state { chunks = some (chunks ++ state.chunk ∷ []); chunk = [] }
    else state

unfoldable pub append_string_unit : StringState → ℕ → StringState
append_string_unit state unit = elim state.chunks [
  | none ↦ state
  | some chunks ↦ flush_chunk chunks (record state { chunk = state.chunk ++ code_units unit })
]

-- `account` after the check of a pending high surrogate.
unfoldable pub account_unit : StringState → ℕ → StringState
unfolding scalar_bytes
account_unit state unit =
    if within 0xd800 0xdbff unit
    then record state { pending_high_surrogate = true }
    else record state {
      decoded_utf8_bytes = state.decoded_utf8_bytes + scalar_bytes unit;
      well_formed_utf16 = state.well_formed_utf16 && not (within 0xdc00 0xdfff unit);
    }

unfoldable pub account_string_unit : StringState → ℕ → StringState
unfolding account_unit
account_string_unit state unit =
    if state.pending_high_surrogate
    then (if within 0xdc00 0xdfff unit
        then record state {
          pending_high_surrogate = false;
          decoded_utf8_bytes = state.decoded_utf8_bytes + 4;
        }
        else account_unit
            (record state {
              pending_high_surrogate = false;
              decoded_utf8_bytes = state.decoded_utf8_bytes + 3;
              well_formed_utf16 = false;
            })
            unit)
    else account_unit state unit

-- The closing quotation mark: a high surrogate that is still pending is alone.
unfoldable pub close_string : StringState → StringState
close_string state =
    if state.pending_high_surrogate
    then record state {
      decoded_utf8_bytes = state.decoded_utf8_bytes + 3;
      well_formed_utf16 = false;
    }
    else state

-- `if (chunks !== null && state.chunk.length > 0) {chunks[chunks.length] = state.chunk;}`
abbrev pub last_chunk : StringState → Option (List (List ℕ))
last_chunk state = elim state.chunks [
  | none ↦ none
  | some chunks ↦
      if ltb 0 (length state.chunk) then some (chunks ++ state.chunk ∷ []) else some chunks
]

abbrev pub string_token : ℕ → StringState → RawToken
string_token start state = record {
  kind = string state.decoded_utf8_bytes state.well_formed_utf16;
  start = start;
  stop = state.position + 1;
}

-- What `scanString` returns, with the chunks that it leaves behind.
abbrev pub Scan : Type 0
Scan = RawToken × Option (List (List ℕ))

-- The state after one unit.
unfoldable pub next_state : StringState → ℕ → ℕ → StringState
next_state state unit next =
    account_string_unit (append_string_unit (record state { position = next }) unit) unit

-- The `while` loop on fuel; `none` is a loop that ran out of it.
unfoldable pub string_loop : ℕ → List ℕ → ℕ → ℕ → StringState → Option Scan
string_loop zero bytes start limit state = none
string_loop (suc fuel) bytes start limit state = elim (ltb state.position limit) [
  | false ↦ some (invalid_token start limit limit, state.chunks)
  | true ↦ elim (is_byte 0x22 (get_elem? bytes state.position)) [
    | true ↦ some (string_token start (close_string state), last_chunk state)
    | false ↦ elim (scan_string_unit bytes state.position limit) [
      | invalid_at at ↦ some (invalid_token start at limit, state.chunks)
      | scanned unit next ↦ string_loop fuel bytes start limit (next_state state unit next)
    ]
  ]
]

abbrev pub initial_state : ℕ → Option (List (List ℕ)) → StringState
initial_state start chunks = record {
  position = start + 1;
  decoded_utf8_bytes = 0;
  well_formed_utf16 = true;
  pending_high_surrogate = false;
  chunk = [];
  chunks = chunks;
}

-- One round of the loop reads at least one byte, so `limit + 1` rounds are enough.
unfoldable pub scan_string : List ℕ → ℕ → ℕ → Option (List (List ℕ)) → Option Scan
scan_string bytes start limit chunks =
    if leb limit start || not (is_byte 0x22 (get_elem? bytes start))
    then some (invalid_token start start limit, chunks)
    else string_loop (limit + 1) bytes start limit (initial_state start chunks)
