-- ===== src/Canonical/Units.antt =====
-- How the scanner reads the units of a canonical string literal
-- (packages/core/src/features/raw-scanner/owned-iterative/scanner.ts: `scanStringUnit`).
use get_modular.Base.{
  ℕ, ◌+◌, ◌/◌, ◌%◌, ◌≤◌, ◌<◌, ◌≡◌, ◌≢◌, inl, inr, refl, List, [], ◌∷◌, ◌++◌, some, true, false,
  ◌&&◌, ◌==◌, number_key, arith, ltb, leb, if◌then◌else◌, Text, length, get_elem?, Bool-cases, sym,
  ap, ◌∙◌,
}
use get_modular.Scanner.Bytes.{is_byte, scalar_bytes, hex_digit, escaped_unit}
use get_modular.Scanner.Strings.{scan_string_unit, scan_escape, read_hex_unit, hex_loop, scanned}
use get_modular.Scanner.Utf8.{encode, IsScalar, Reads, read_scalar_iff}
use get_modular.Scanner.Text.{high, low}
use get_modular.Canonical.Writing.{escaped, utf8, hex}
use get_modular.Canonical.Literals.{
  Plain, Plain-IsScalar, Stands, Stands-at, pair_scalar, utf8-cons, utf8-one,
}

-- How the scanner reads one unit: not as the end of the string, but as the unit, up to its last byte.
abbrev pub UnitAt : List ℕ → ℕ → ℕ → List ℕ → ℕ → Type 0
UnitAt bytes p limit written unit =
    (is_byte 0x22 (get_elem? bytes p) ≡ false)
    × (scan_string_unit bytes p limit ≡ scanned unit (p + length written))

at_position :
    (bytes : List ℕ) (q p x : ℕ) → get_elem? bytes q ≡ some x → q ≡ p → get_elem? bytes p ≡ some x
at_position bytes q p x h e = ap (get_elem? bytes) (sym e) ∙ h

Stands-Reads : (bytes : List ℕ) (p : ℕ) (xs : List ℕ) → Stands bytes p xs → Reads bytes p xs
Stands-Reads bytes p [] h = tt
Stands-Reads bytes p (x ∷ []) h = h.0
Stands-Reads bytes p (x ∷ y ∷ []) (hx, (hy, _)) = (hx, hy)
Stands-Reads bytes p (x ∷ y ∷ z ∷ []) (hx, (hy, (hz, _))) =
    (hx, hy, at_position bytes (p + 1 + 1) (p + 2) z hz (omega arith))
Stands-Reads bytes p (x ∷ y ∷ z ∷ w ∷ _) (hx, (hy, (hz, (hw, _)))) = (
  hx,
  hy,
  at_position bytes (p + 1 + 1) (p + 2) z hz (omega arith),
  at_position bytes (p + 1 + 1 + 1) (p + 3) w hw (omega arith),
)

-- The first byte of a scalar.
encode_head : ℕ → ℕ
encode_head u =
    if leb u 0x7f
    then u
    else if leb u 0x7ff
    then 0xc0 + u / 64
    else if leb u 0xffff
    then 0xe0 + u / 4096
    else 0xf0 + u / 262144

module _ (bytes : List ℕ) (p limit : ℕ) where
  Stands-head : (u : ℕ) → Stands bytes p (encode u) → get_elem? bytes p ≡ some (encode_head u)
  unfolding encode encode_head
  Stands-head u h = ground arith

  head_plain :
      (u : ℕ)
      → 0x20 ≤ u
      → u ≢ 0x22
      → u ≢ 0x5c
      → (0x20 ≤ encode_head u) × (encode_head u ≢ 0x22) × (encode_head u ≢ 0x5c)
  unfolding encode_head
  head_plain u lo q b = ground arith

  length-encode : (u : ℕ) → length (encode u) ≡ scalar_bytes u
  unfolding encode scalar_bytes
  length-encode u = ground arith

  -- A scalar that needs no escape.
  scalar-UnitAt :
      (u : ℕ)
      → IsScalar u
      → 0x20 ≤ u
      → u ≢ 0x22
      → u ≢ 0x5c
      → Stands bytes p (encode u)
      → p + length (encode u) ≤ limit
      → UnitAt bytes p limit (encode u) u
  unfolding scan_string_unit
  scalar-UnitAt u s lo q b h fits =
      let read =
        (read_scalar_iff bytes p limit u).1
          (s, omega (arith, length-encode u), Stands-Reads bytes p (encode u) h) in
      let first = Stands-head u h in
      let head = head_plain u lo q b in (rw first (ground arith), ground (arith, length-encode u))

abbrev AllAscii : List ℕ → Type 0
AllAscii [] = Unit {0}
AllAscii (a ∷ rest) = (a ≤ 0x7f) × AllAscii rest

utf8-ascii : (xs : Text) → AllAscii xs → utf8 xs ≡ xs
unfolding utf8 encode
utf8-ascii [] h = refl
utf8-ascii (a ∷ xs) (small, h) =
    utf8-cons a xs (ground arith) ∙ rw (utf8-ascii xs h) (ascii_head a xs small)
  where
    ascii_head : (b : ℕ) (ys : List ℕ) → b ≤ 0x7f → encode b ++ ys ≡ b ∷ ys
    ascii_head b ys h = ground arith

-- The three ways to write a unit.
data Spelling (a : ℕ) : Type 0 where
  short :
      (c : ℕ)
      → escaped a ≡ 0x5c ∷ c ∷ []
      → c ≤ 0x7f
      → c ≢ 0x75
      → escaped_unit c ≡ some a
      → Spelling a
  control :
      a < 0x20
      → escaped a ≡ 0x5c ∷ 0x75 ∷ 0x30 ∷ 0x30 ∷ hex (a / 16) ∷ hex (a % 16) ∷ []
      → Spelling a
  itself : escaped a ≡ a ∷ [] → 0x20 ≤ a → a ≢ 0x22 → a ≢ 0x5c → Spelling a

-- Whether the unit is one of those that have a short escape.
Spelling-cases : (a : ℕ) → Spelling a
unfolding escaped escaped_unit
Spelling-cases a = elim (Bool-cases (ltb a 0x20)) [
  | inl low_unit ↦ elim (Bool-cases (a == 8)) [
    | inl e ↦ short 0x62 (ground arith) (omega arith) (omega arith) (ground arith)
    | inr n8 ↦ elim (Bool-cases (a == 9)) [
      | inl e ↦ short 0x74 (ground arith) (omega arith) (omega arith) (ground arith)
      | inr n9 ↦ elim (Bool-cases (a == 10)) [
        | inl e ↦ short 0x6e (ground arith) (omega arith) (omega arith) (ground arith)
        | inr n10 ↦ elim (Bool-cases (a == 12)) [
          | inl e ↦ short 0x66 (ground arith) (omega arith) (omega arith) (ground arith)
          | inr n12 ↦ elim (Bool-cases (a == 13)) [
            | inl e ↦ short 0x72 (ground arith) (omega arith) (omega arith) (ground arith)
            | inr n13 ↦ control (ground arith) (ground arith)
          ]
        ]
      ]
    ]
  ]
  | inr printable ↦ elim (Bool-cases (a == 0x22)) [
    | inl e ↦ short 0x22 (ground arith) (omega arith) (omega arith) (ground arith)
    | inr nq ↦ elim (Bool-cases (a == 0x5c)) [
      | inl e ↦ short 0x5c (ground arith) (omega arith) (omega arith) (ground arith)
      | inr nb ↦ itself (ground arith) (ground arith) (ground arith) (ground arith)
    ]
  ]
]

hex_digit-hex : (d : ℕ) → d < 16 → hex_digit (hex d) ≡ some d
unfolding hex_digit
hex_digit-hex d h = ground arith

module _ (bytes : List ℕ) (p limit : ℕ) where
  short-UnitAt :
      (a c : ℕ)
      → c ≢ 0x75
      → escaped_unit c ≡ some a
      → Stands bytes p (0x5c ∷ c ∷ [])
      → p + 2 ≤ limit
      → UnitAt bytes p limit (0x5c ∷ c ∷ []) a
  unfolding scan_string_unit scan_escape
  short-UnitAt a c n e (h0, (h1, _)) fits = (rw h0 refl, ground arith)

  hex_unit :
      (a : ℕ)
      → a < 0x20
      → Stands bytes (p + 2) (0x30 ∷ 0x30 ∷ hex (a / 16) ∷ hex (a % 16) ∷ [])
      → p + 6 ≤ limit
      → read_hex_unit bytes (p + 2) limit ≡ some a
  unfolding read_hex_unit hex_loop hex_digit
  hex_unit a lt (h2, (h3, (h4, (h5, _)))) fits =
      ground (arith, hex_digit-hex (a / 16), hex_digit-hex (a % 16))

  control_scan :
      (a : ℕ)
      → get_elem? bytes p ≡ some 0x5c
      → get_elem? bytes (p + 1) ≡ some 0x75
      → read_hex_unit bytes (p + 2) limit ≡ some a
      → p + 6 ≤ limit
      → scan_string_unit bytes p limit ≡ scanned a (p + 6)
  unfolding scan_string_unit scan_escape
  control_scan a h0 h1 e fits = ground arith

  control-UnitAt :
      (a : ℕ)
      → a < 0x20
      → Stands bytes p (0x5c ∷ 0x75 ∷ 0x30 ∷ 0x30 ∷ hex (a / 16) ∷ hex (a % 16) ∷ [])
      → p + 6 ≤ limit
      → UnitAt bytes p limit (0x5c ∷ 0x75 ∷ 0x30 ∷ 0x30 ∷ hex (a / 16) ∷ hex (a % 16) ∷ []) a
  control-UnitAt a lt (h0, (h1, h2)) fits = (
    rw h0 refl,
    control_scan a h0 h1
        (hex_unit a lt
          (Stands-at bytes (p + 1 + 1) (p + 2) (0x30 ∷ 0x30 ∷ hex (a / 16) ∷ hex (a % 16) ∷ []) h2
            (omega arith))
          fits)
        fits,
  )

  written-UnitAt :
      (a : ℕ) (written : List ℕ)
      → utf8 (escaped a) ≡ written
      → (Stands bytes p written → p + length written ≤ limit → UnitAt bytes p limit written a)
      → Stands bytes p (utf8 (escaped a))
      → p + length (utf8 (escaped a)) ≤ limit
      → UnitAt bytes p limit (utf8 (escaped a)) a
  written-UnitAt a written e read = rw e read

  -- A plain unit, as the literal writes it.
  pub escaped-UnitAt :
      (a : ℕ)
      → Plain a
      → a ≤ 0xffff
      → Stands bytes p (utf8 (escaped a))
      → p + length (utf8 (escaped a)) ≤ limit
      → UnitAt bytes p limit (utf8 (escaped a)) a
  escaped-UnitAt a plain u h fits = elim (Spelling-cases a) [
    | short c e ascii n d ↦
        written-UnitAt a (0x5c ∷ c ∷ [])
          (ap utf8 e ∙ utf8-ascii (0x5c ∷ c ∷ []) (omega arith, (ascii, tt)))
          (λ h fits. short-UnitAt a c n d h fits) h fits
    | control lt e ↦
        written-UnitAt a (0x5c ∷ 0x75 ∷ 0x30 ∷ 0x30 ∷ hex (a / 16) ∷ hex (a % 16) ∷ [])
          (ap utf8 e
            ∙ utf8-ascii (0x5c ∷ 0x75 ∷ 0x30 ∷ 0x30 ∷ hex (a / 16) ∷ hex (a % 16) ∷ [])
                (ground arith))
          (λ h fits. control-UnitAt a lt h fits) h fits
    | itself e lo q b ↦
        written-UnitAt a (encode a) (ap utf8 e ∙ utf8-one a plain)
          (λ h fits. scalar-UnitAt bytes p limit a (Plain-IsScalar a plain u) lo q b h fits) h fits
  ]

  -- A pair of surrogates.
  pub pair-UnitAt :
      (a b : ℕ)
      → (high a && low b) ≡ true
      → Stands bytes p (encode (pair_scalar a b))
      → p + length (encode (pair_scalar a b)) ≤ limit
      → UnitAt bytes p limit (encode (pair_scalar a b)) (pair_scalar a b)
  pair-UnitAt a b h there fits =
      scalar-UnitAt bytes p limit (pair_scalar a b) (ground arith) (ground arith) (ground arith)
        (ground arith) there fits
