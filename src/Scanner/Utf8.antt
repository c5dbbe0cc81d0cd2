-- ===== src/Scanner/Utf8.antt =====
-- `readScalar` and the UTF-8 encodings of Unicode scalars
-- (packages/core/src/features/raw-scanner/owned-iterative/scanner.ts).
use get_modular.Base.{
  ℕ, ◌+◌, ◌/◌, ◌%◌, ◌≤◌, ◌<◌, ◌≡◌, ◌⊎◌, ◌↔◌, List, [], ◌∷◌, Option, some, arith, number_key,
  if◌then◌else◌, leb, get_elem?, inl, inr, Option-cases,
}
use get_modular.Scanner.Bytes.{scalar_bytes}
use get_modular.Scanner.Scalars.{
  byte_within, read_scalar, continuation, read_two_byte_scalar, read_three_byte_scalar,
  read_four_byte_scalar,
}

-- A code point that is no surrogate.
abbrev pub IsScalar : ℕ → Type 0
IsScalar u = (u < 0xd800) ⊎ (0xdfff < u) × (u ≤ 0x10ffff)

-- The encoding of RFC 3629.
unfoldable pub encode : ℕ → List ℕ
encode u =
    if leb u 0x7f
    then u ∷ []
    else if leb u 0x7ff
    then (0xc0 + u / 64) ∷ (0x80 + u % 64) ∷ []
    else if leb u 0xffff
    then (0xe0 + u / 4096) ∷ (0x80 + u / 64 % 64) ∷ (0x80 + u % 64) ∷ []
    else (0xf0 + u / 262144) ∷ (0x80 + u / 4096 % 64) ∷ (0x80 + u / 64 % 64) ∷ (0x80 + u % 64) ∷ []

-- The listed bytes stand at the position.
abbrev pub Reads : List ℕ → ℕ → List ℕ → Type 0
Reads bytes p [] = Unit {0}
Reads bytes p (x ∷ []) = get_elem? bytes p ≡ some x
Reads bytes p (x ∷ y ∷ []) = (get_elem? bytes p ≡ some x) × (get_elem? bytes (p + 1) ≡ some y)
Reads bytes p (x ∷ y ∷ z ∷ []) =
    (get_elem? bytes p ≡ some x)
    × (get_elem? bytes (p + 1) ≡ some y)
    × (get_elem? bytes (p + 2) ≡ some z)
Reads bytes p (x ∷ y ∷ z ∷ w ∷ _) =
    (get_elem? bytes p ≡ some x)
    × (get_elem? bytes (p + 1) ≡ some y)
    × (get_elem? bytes (p + 2) ≡ some z)
    × (get_elem? bytes (p + 3) ≡ some w)

read_scalar_complete :
    (bytes : List ℕ) (p limit u : ℕ)
    → IsScalar u
    → p + scalar_bytes u ≤ limit
    → Reads bytes p (encode u)
    → read_scalar bytes p limit ≡ some u
unfolding read_scalar continuation read_two_byte_scalar read_three_byte_scalar read_four_byte_scalar
    scalar_bytes encode
read_scalar_complete bytes p limit u s fits reads = ground arith

continuation_range :
    (o : Option ℕ) (b : ℕ) → continuation o ≡ some b → (o ≡ some b) × (0x80 ≤ b) × (b ≤ 0xbf)
unfolding continuation
continuation_range o b h = ground arith

two_byte_sound :
    (a b u : ℕ)
    → 0x80 ≤ b
    → b ≤ 0xbf
    → read_two_byte_scalar a b ≡ some u
    → IsScalar u × (scalar_bytes u ≡ 2) × (encode u ≡ a ∷ b ∷ [])
unfolding read_two_byte_scalar scalar_bytes encode
two_byte_sound a b u lo hi h = ground arith

three_byte_sound :
    (a b c u : ℕ)
    → 0x80 ≤ b
    → b ≤ 0xbf
    → 0x80 ≤ c
    → c ≤ 0xbf
    → read_three_byte_scalar a b c ≡ some u
    → IsScalar u × (scalar_bytes u ≡ 3) × (encode u ≡ a ∷ b ∷ c ∷ [])
unfolding read_three_byte_scalar scalar_bytes encode
three_byte_sound a b c u lo hi lo' hi' h = ground arith

four_byte_sound :
    (a b c d u : ℕ)
    → 0x80 ≤ b
    → b ≤ 0xbf
    → 0x80 ≤ c
    → c ≤ 0xbf
    → 0x80 ≤ d
    → d ≤ 0xbf
    → read_four_byte_scalar a b c d ≡ some u
    → IsScalar u × (scalar_bytes u ≡ 4) × (encode u ≡ a ∷ b ∷ c ∷ d ∷ [])
unfolding read_four_byte_scalar scalar_bytes encode
four_byte_sound a b c d u lo hi lo' hi' lo2 hi2 h = ground arith

one_byte_sound : (a : ℕ) → a ≤ 0x7f → IsScalar a × (scalar_bytes a ≡ 1) × (encode a ≡ a ∷ [])
unfolding scalar_bytes encode
one_byte_sound a h = ground arith

byte_within_sound :
    (bytes : List ℕ) (q limit b : ℕ)
    → byte_within bytes q limit ≡ some b
    → (q < limit) × (get_elem? bytes q ≡ some b)
byte_within_sound bytes q limit b h = ground arith

-- The byte of a continuation that was read.
continuation_sound :
    (bytes : List ℕ) (q limit b : ℕ)
    → continuation (byte_within bytes q limit) ≡ some b
    → (q < limit) × (get_elem? bytes q ≡ some b) × (0x80 ≤ b) × (b ≤ 0xbf)
continuation_sound bytes q limit b h =
    let (e, lo, hi) = continuation_range (byte_within bytes q limit) b h in
    let (lt, got) = byte_within_sound bytes q limit b e in (lt, got, lo, hi)

module _ (bytes : List ℕ) (p limit u : ℕ) where
  abbrev Read : Type 0
  Read = IsScalar u × (p + scalar_bytes u ≤ limit) × Reads bytes p (encode u)

  one_read : (a : ℕ) → get_elem? bytes p ≡ some a → p < limit → a ≤ 0x7f → a ≡ u → Read
  one_read a ga lt small e =
      let (s, n, f) = one_byte_sound u (omega arith) in (s, omega arith, rw (f, ← e) ga)

  module _ (a b : ℕ) (ga : get_elem? bytes p ≡ some a) (gb : get_elem? bytes (p + 1) ≡ some b) where
    two_read : p + 1 < limit → 0x80 ≤ b → b ≤ 0xbf → read_two_byte_scalar a b ≡ some u → Read
    two_read lt lo hi h =
        let (s, n, e) = two_byte_sound a b u lo hi h in (s, omega arith, rw e (ga, gb))

    module _ (c : ℕ) (gc : get_elem? bytes (p + 2) ≡ some c) where
      three_read :
          p + 2 < limit
          → 0x80 ≤ b
          → b ≤ 0xbf
          → 0x80 ≤ c
          → c ≤ 0xbf
          → read_three_byte_scalar a b c ≡ some u
          → Read
      three_read lt lo hi lo' hi' h =
          let (s, n, e) = three_byte_sound a b c u lo hi lo' hi' h in
          (s, omega arith, rw e (ga, gb, gc))

      four_read :
          (d : ℕ)
          → get_elem? bytes (p + 3) ≡ some d
          → p + 3 < limit
          → 0x80 ≤ b
          → b ≤ 0xbf
          → 0x80 ≤ c
          → c ≤ 0xbf
          → 0x80 ≤ d
          → d ≤ 0xbf
          → read_four_byte_scalar a b c d ≡ some u
          → Read
      four_read d gd lt lo hi lo' hi' lo2 hi2 h =
          let (s, n, e) = four_byte_sound a b c d u lo hi lo' hi' lo2 hi2 h in
          (s, omega arith, rw e (ga, gb, gc, gd))

  read_scalar_sound : read_scalar bytes p limit ≡ some u → Read
  unfolding read_scalar
  read_scalar_sound h = elim (Option-cases (byte_within bytes p limit)) [
    | inl e ↦ absurd (ground arith)
    | inr (a, e) ↦
        let (la, ga) = byte_within_sound bytes p limit a e in
        elim (Option-cases (continuation (byte_within bytes (p + 1) limit))) [
          | inl f ↦ ground (arith, one_read a)
          | inr (b, f) ↦
              let (lb, gb, lo, hi) = continuation_sound bytes (p + 1) limit b f in
              elim (Option-cases (continuation (byte_within bytes (p + 2) limit))) [
                | inl g ↦ ground (arith, one_read a, two_read a b ga gb)
                | inr (c, g) ↦
                    let (lc, gc, lo', hi') = continuation_sound bytes (p + 2) limit c g in
                    elim (Option-cases (continuation (byte_within bytes (p + 3) limit))) [
                      | inl q ↦
                          ground (arith, one_read a, two_read a b ga gb, three_read a b ga gb c gc)
                      | inr (d, q) ↦
                          let (ld, gd, lo2, hi2) = continuation_sound bytes (p + 3) limit d q in
                          ground (
                            arith,
                            one_read a,
                            two_read a b ga gb,
                            three_read a b ga gb c gc,
                            four_read a b ga gb c gc d gd,
                          )
                    ]
              ]
        ]
  ]

-- `readScalar` yields `u` at a position exactly when `u` is a Unicode scalar whose UTF-8 encoding
-- stands there and fits below the limit: no overlong form, no surrogate, nothing above U+10FFFF.
pub read_scalar_iff :
    (bytes : List ℕ) (p limit u : ℕ)
    → (read_scalar bytes p limit ≡ some u)
      ↔ (IsScalar u × (p + scalar_bytes u ≤ limit) × Reads bytes p (encode u))
read_scalar_iff bytes p limit u = (
  read_scalar_sound bytes p limit u,
  λ (s, fits, reads). read_scalar_complete bytes p limit u s fits reads,
)
