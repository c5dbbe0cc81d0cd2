-- ===== src/Canonical/Writing.antt =====
-- `wellFormed` and `quote` of packages/core/src/features/canonicalization/owned-jcs/factory.ts, with what
-- they use of the language: `JSON.stringify` of a string, and the text encoder.
use get_modular.Base.{
  ℕ, ◌+◌, ◌-◌, ◌*◌, ◌/◌, ◌%◌, List, [], ◌∷◌, ◌++◌, Bool, true, false, not, ◌&&◌, ◌||◌, ◌==◌,
  number_key, ltb, if◌then◌else◌, Text,
}
use get_modular.Base.Outcome.{Outcome, done, thrown}
use get_modular.Scanner.Text.{high, low}
use get_modular.Scanner.Utf8.{encode}

-- The loop, on the units that are left.
unfoldable pub well_formed : Text → Bool
well_formed [] = true
well_formed (unit ∷ []) = if high unit then false else not (low unit)
well_formed (unit ∷ next ∷ rest) =
    let pair = well_formed rest in
    let single = well_formed (next ∷ rest) in
    if high unit
    then (if not (low next) then false else pair)
    else if low unit
    then false
    else single

abbrev pub hex : ℕ → ℕ
hex digit = if ltb digit 10 then 48 + digit else 87 + digit

-- How a string literal writes a unit. (A lone surrogate is refused before.)
unfoldable pub escaped : ℕ → Text
escaped unit =
    if unit == 0x22
    then 0x5c ∷ 0x22 ∷ []
    else if unit == 0x5c
    then 0x5c ∷ 0x5c ∷ []
    else if unit == 8
    then 0x5c ∷ 0x62 ∷ []
    else if unit == 9
    then 0x5c ∷ 0x74 ∷ []
    else if unit == 10
    then 0x5c ∷ 0x6e ∷ []
    else if unit == 12
    then 0x5c ∷ 0x66 ∷ []
    else if unit == 13
    then 0x5c ∷ 0x72 ∷ []
    else if ltb unit 0x20
    then 0x5c ∷ 0x75 ∷ 0x30 ∷ 0x30 ∷ hex (unit / 16) ∷ hex (unit % 16) ∷ []
    else unit ∷ []

abbrev pub escape_all : Text → Text
escape_all [] = []
escape_all (unit ∷ rest) = escaped unit ++ escape_all rest

-- `JSON.stringify(value)`
unfoldable pub stringify : Text → Text
unfolding escaped
stringify value = 0x22 ∷ (escape_all value ++ 0x22 ∷ [])

unfoldable pub quote : Text → Outcome Text
unfolding well_formed stringify
quote value = if not (well_formed value) then thrown else done (stringify value)

-- `new TextEncoder().encode(text)`; a lone surrogate becomes the replacement character.
unfoldable pub utf8 : Text → List ℕ
utf8 [] = []
utf8 (unit ∷ []) = encode (if high unit || low unit then 0xfffd else unit)
utf8 (unit ∷ next ∷ rest) =
    let pair = utf8 rest in
    let single = utf8 (next ∷ rest) in
    if high unit && low next
    then encode (0x10000 + (unit - 0xd800) * 1024 + (next - 0xdc00)) ++ pair
    else encode (if high unit || low unit then 0xfffd else unit) ++ single
