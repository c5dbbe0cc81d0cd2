-- ===== src/Scanner/Bytes.antt =====
-- The byte classes of packages/core/src/features/raw-scanner/owned-iterative/scanner.ts. The bytes of
-- a `Uint8Array` are a list of numbers; `bytes[i]` outside the array is `undefined`, here `none`. A
-- result of -1, which the source uses for "no value", is `none` too.
use get_modular.Base.{
  ℕ, ◌+◌, ◌-◌, Option, none, some, Bool, true, false, ◌&&◌, ◌||◌, ◌==◌, number_key, leb,
  if◌then◌else◌,
}

abbrev pub is_byte : ℕ → Option ℕ → Bool
is_byte c none = false
is_byte c (some b) = b == c

-- lo <= byte && byte <= hi
abbrev pub within : ℕ → ℕ → ℕ → Bool
within lo hi b = leb lo b && leb b hi

unfoldable pub is_whitespace : Option ℕ → Bool
is_whitespace b = is_byte 0x20 b || is_byte 0x09 b || is_byte 0x0a b || is_byte 0x0d b

unfoldable pub is_digit : Option ℕ → Bool
is_digit none = false
is_digit (some b) = within 0x30 0x39 b

unfoldable pub is_boundary : Option ℕ → Bool
unfolding is_whitespace
is_boundary none = true
is_boundary (some b) =
    is_whitespace (some b)
    || b == 0x7b
    || b == 0x7d
    || b == 0x5b
    || b == 0x5d
    || b == 0x3a
    || b == 0x2c
    || b == 0x22

unfoldable pub scalar_bytes : ℕ → ℕ
scalar_bytes value =
    if leb value 0x7f then 1 else if leb value 0x7ff then 2 else if leb value 0xffff then 3 else 4

unfoldable pub is_continuation : ℕ → Bool
is_continuation b = within 0x80 0xbf b

unfoldable pub hex_digit : ℕ → Option ℕ
hex_digit b =
    if within 0x30 0x39 b
    then some (b - 0x30)
    else if within 0x41 0x46 b
    then some (b - 0x41 + 10)
    else if within 0x61 0x66 b
    then some (b - 0x61 + 10)
    else none

unfoldable pub escaped_unit : ℕ → Option ℕ
escaped_unit b =
    if b == 0x22
    then some 0x22
    else if b == 0x5c
    then some 0x5c
    else if b == 0x2f
    then some 0x2f
    else if b == 0x62
    then some 0x08
    else if b == 0x66
    then some 0x0c
    else if b == 0x6e
    then some 0x0a
    else if b == 0x72
    then some 0x0d
    else if b == 0x74
    then some 0x09
    else none
