-- ===== src/Documents/Integers/Counting.antt =====
-- What `scanCoefficient` counts (packages/core/src/features/input-admission/raw-integer.ts).
use get_modular.Base.{
  ℕ, zero, suc, ◌+◌, ◌≤◌, ◌≡◌, refl, List, [], ◌∷◌, some, false, length, get_elem?, arith, ap, ◌∙◌,
  number_key, ◌==◌, ◌||◌,
}
use get_modular.Documents.Integers.{Counts, count_byte, scan_from}
use get_modular.Documents.Integers.Spelling.{DigitsAt, no_digits, digit}

-- A digit is not the letter of an exponent.
letterless : (d : ℕ) → d ≤ 9 → ((0x30 + d) == 0x65 || (0x30 + d) == 0x45) ≡ false
letterless d small = ground arith

module _ (bytes : List ℕ) where
  pub DigitsAt-length : {p stop : ℕ} {ds : List ℕ} → DigitsAt bytes p ds stop → stop ≡ p + length ds
  DigitsAt-length no_digits = omega arith
  DigitsAt-length (digit e small ds) = omega (arith, DigitsAt-length ds)

  module _ (stop : ℕ) where
    abbrev pub count_digits : ℕ → List ℕ → Counts → Counts
    count_digits cursor [] s = s
    count_digits cursor (d ∷ ds) s =
        count_digits (cursor + 1) ds (count_byte stop cursor (0x30 + d) s)

    scan_from-digit :
        (p n d : ℕ) (s : Counts)
        → get_elem? bytes p ≡ some (0x30 + d)
        → d ≤ 9
        → scan_from bytes stop (suc n) p s
          ≡ scan_from bytes stop n (p + 1) (count_byte stop p (0x30 + d) s)
    unfolding scan_from
    scan_from-digit p n d s e small = rw (e, letterless d small, scan_from) refl

    pub scan_from-digits :
        {p end : ℕ} {ds : List ℕ} (n left : ℕ) (s : Counts)
        → DigitsAt bytes p ds end
        → n ≡ length ds + left
        → scan_from bytes stop n p s ≡ scan_from bytes stop left end (count_digits p ds s)
    scan_from-digits {p} n left s no_digits h =
        ap (λ (k : ℕ). scan_from bytes stop k p s) (omega (arith, h))
    scan_from-digits zero left s (digit e small rest) h = absurd (omega (arith, h))
    scan_from-digits {p} {ds = d ∷ ds} (suc n) left s (digit e small rest) h =
        scan_from-digit p n d s e small
        ∙ scan_from-digits n left (count_byte stop p (0x30 + d) s) rest (omega (arith, h))
