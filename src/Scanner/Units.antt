-- ===== src/Scanner/Units.antt =====
-- What one unit of a string reads: progress, range, and independence of the limit
-- (packages/core/src/features/raw-scanner/owned-iterative/scanner.ts: `scanStringUnit`).
use get_modular.Base.{
  ℕ, suc, ◌+◌, ◌*◌, ◌≤◌, ◌<◌, ◌≡◌, List, some, arith, number_key, get_elem?, inl, inr, Option-cases,
}
use get_modular.Scanner.Bytes.{hex_digit, escaped_unit, scalar_bytes}
use get_modular.Scanner.Scalars.{read_scalar}
use get_modular.Scanner.Strings.{
  hex_loop, read_hex_unit, scan_escape, scan_string_unit, scanned, invalid_at,
}
use get_modular.Scanner.Utf8.{read_scalar_iff}

hex_digit_bound : (b d : ℕ) → hex_digit b ≡ some d → d < 16
unfolding hex_digit
hex_digit_bound b d h = ground arith

-- Another round of the loop appends one digit.
hex_round :
    (n : ℕ) (bytes : List ℕ) (i v u : ℕ)
    → hex_loop (suc n) bytes i v ≡ some u
    → (d : ℕ) × (d < 16) × (hex_loop n bytes (i + 1) (v * 16 + d) ≡ some u)
unfolding hex_loop
hex_round n bytes i v u h = elim (Option-cases (get_elem? bytes i)) [
  | inl e ↦ absurd (ground arith)
  | inr (b, e) ↦ elim (Option-cases (hex_digit b)) [
    | inl f ↦ absurd (ground arith)
    | inr (d, f) ↦ (d, hex_digit_bound b d f, ground arith)
  ]
]

hex_loop_bound : (bytes : List ℕ) (i u : ℕ) → hex_loop 4 bytes i 0 ≡ some u → u ≤ 0xffff
unfolding hex_loop
hex_loop_bound bytes i u h =
    let (a, la, ha) = hex_round 3 bytes i 0 u h in
    let (b, lb, hb) = hex_round 2 bytes (i + 1) (0 * 16 + a) u ha in
    let (c, lc, hc) = hex_round 1 bytes (i + 1 + 1) ((0 * 16 + a) * 16 + b) u hb in
    let (d, ld, hd) = hex_round 0 bytes (i + 1 + 1 + 1) (((0 * 16 + a) * 16 + b) * 16 + c) u hc in
    ground arith

escaped_unit_bound : (b u : ℕ) → escaped_unit b ≡ some u → u ≤ 0xffff
unfolding escaped_unit
escaped_unit_bound b u h = ground arith

scalar_bytes_pos : (u : ℕ) → (1 ≤ scalar_bytes u) × (scalar_bytes u ≤ 4)
unfolding scalar_bytes
scalar_bytes_pos u = ground arith

read_scalar_bounds :
    (bytes : List ℕ) (p limit u : ℕ)
    → read_scalar bytes p limit ≡ some u
    → (u ≤ 0x10ffff) × (p + scalar_bytes u ≤ limit)
read_scalar_bounds bytes p limit u h = ground (arith, (read_scalar_iff bytes p limit u).0 h)

read_hex_unit_bounds :
    (bytes : List ℕ) (p limit u : ℕ)
    → read_hex_unit bytes p limit ≡ some u
    → (p + 4 ≤ limit) × (u ≤ 0xffff) × (hex_loop 4 bytes p 0 ≡ some u)
unfolding read_hex_unit
read_hex_unit_bounds bytes p limit u h =
    let read : hex_loop 4 bytes p 0 ≡ some u = ground arith in
    (ground arith, hex_loop_bound bytes p u read, read)

scan_escape_bounds :
    (bytes : List ℕ) (p limit u next : ℕ)
    → scan_escape bytes p limit ≡ scanned u next
    → (p < next) × (next ≤ limit) × (u ≤ 0xffff)
unfolding scan_escape
scan_escape_bounds bytes p limit u next h = elim (Option-cases (get_elem? bytes (p + 1))) [
  | inl e ↦ absurd (ground arith)
  | inr (b, e) ↦ ground (arith, read_hex_unit_bounds bytes (p + 2) limit u, escaped_unit_bound b u)
]

-- A unit that was read lies within the limit, takes at least one byte, and is a code unit or a scalar.
pub scan_string_unit_bounds :
    (bytes : List ℕ) (p limit u next : ℕ)
    → scan_string_unit bytes p limit ≡ scanned u next
    → (p < next) × (next ≤ limit) × (u ≤ 0x10ffff)
unfolding scan_string_unit
scan_string_unit_bounds bytes p limit u next h = ground (
  arith,
  scan_escape_bounds bytes p limit u next,
  read_scalar_bounds bytes p limit u,
  scalar_bytes_pos u,
)

read_scalar_limit :
    (bytes : List ℕ) (p limit u stop : ℕ)
    → read_scalar bytes p limit ≡ some u
    → p + scalar_bytes u ≤ stop
    → read_scalar bytes p stop ≡ some u
read_scalar_limit bytes p limit u stop h fits =
    let (s, _, reads) = (read_scalar_iff bytes p limit u).0 h in
    (read_scalar_iff bytes p stop u).1 (s, fits, reads)

scan_escape_limit :
    (bytes : List ℕ) (p limit u next stop : ℕ)
    → scan_escape bytes p limit ≡ scanned u next
    → next ≤ stop
    → scan_escape bytes p stop ≡ scanned u next
unfolding scan_escape read_hex_unit
scan_escape_limit bytes p limit u next stop h fits = ground arith

-- A lower limit that the unit keeps below changes nothing.
pub scan_string_unit_limit :
    (bytes : List ℕ) (p limit u next stop : ℕ)
    → scan_string_unit bytes p limit ≡ scanned u next
    → next ≤ stop
    → scan_string_unit bytes p stop ≡ scanned u next
unfolding scan_string_unit
scan_string_unit_limit bytes p limit u next stop h fits =
    ground
      (arith, scan_escape_limit bytes p limit u next stop, read_scalar_limit bytes p limit u stop)

-- A unit that is broken is so at its position or later.
pub scan_string_unit_at :
    (bytes : List ℕ) (p limit at : ℕ)
    → p < limit
    → scan_string_unit bytes p limit ≡ invalid_at at
    → p ≤ at
unfolding scan_string_unit scan_escape
scan_string_unit_at bytes p limit at lt h = ground arith
