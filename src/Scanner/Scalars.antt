-- ===== src/Scanner/Scalars.antt =====
-- UTF-8 decoding of one scalar: `readScalar` of
-- packages/core/src/features/raw-scanner/owned-iterative/scanner.ts. On the ranges that the tests
-- admit, `x & (2^k - 1)` is `x % 2^k`, `x << k` is `x * 2^k`, and `|` joins disjoint bits, so it is `+`.
use get_modular.Base.{
  ℕ, ◌+◌, ◌*◌, ◌%◌, List, Option, none, some, ◌&&◌, ◌||◌, ◌==◌, number_key, ltb, leb, if◌then◌else◌,
  get_elem?,
}
use get_modular.Scanner.Bytes.{is_continuation}

unfoldable pub read_two_byte_scalar : ℕ → ℕ → Option ℕ
read_two_byte_scalar first second =
    if ltb first 0xc2 || ltb 0xdf first then none else some (first % 32 * 64 + second % 64)

unfoldable pub read_three_byte_scalar : ℕ → ℕ → ℕ → Option ℕ
read_three_byte_scalar first second third =
    if ltb first 0xe0
      || ltb 0xef first
      || (first == 0xe0 && ltb second 0xa0)
      || (first == 0xed && leb 0xa0 second)
    then none
    else some (first % 16 * 4096 + second % 64 * 64 + third % 64)

unfoldable pub read_four_byte_scalar : ℕ → ℕ → ℕ → ℕ → Option ℕ
read_four_byte_scalar first second third fourth =
    if ltb first 0xf0
      || ltb 0xf4 first
      || (first == 0xf0 && ltb second 0x90)
      || (first == 0xf4 && ltb 0x8f second)
    then none
    else some (first % 8 * 262144 + second % 64 * 4096 + third % 64 * 64 + fourth % 64)

-- `position < limit ? bytes[position] ?? -1 : -1`
abbrev pub byte_within : List ℕ → ℕ → ℕ → Option ℕ
byte_within bytes position limit = if ltb position limit then get_elem? bytes position else none

-- The byte, if it is a continuation byte.
unfoldable pub continuation : Option ℕ → Option ℕ
unfolding is_continuation
continuation none = none
continuation (some b) = if is_continuation b then some b else none

unfoldable pub read_scalar : List ℕ → ℕ → ℕ → Option ℕ
read_scalar bytes position limit = elim (byte_within bytes position limit) [
  | none ↦ none
  | some first ↦
      if leb first 0x7f
      then some first
      else elim (continuation (byte_within bytes (position + 1) limit)) [
        | none ↦ none
        | some second ↦ elim (read_two_byte_scalar first second) [
          | some two ↦ some two
          | none ↦ elim (continuation (byte_within bytes (position + 2) limit)) [
            | none ↦ none
            | some third ↦ elim (read_three_byte_scalar first second third) [
              | some three ↦ some three
              | none ↦ elim (continuation (byte_within bytes (position + 3) limit)) [
                | none ↦ none
                | some fourth ↦ read_four_byte_scalar first second third fourth
              ]
            ]
          ]
        ]
      ]
]
