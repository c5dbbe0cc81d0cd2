-- ===== src/Documents/Integers/Coefficients.antt =====
-- What `scanCoefficient` finds in a number (packages/core/src/features/input-admission/raw-integer.ts).
use get_modular.Base.{
  ℕ, zero, suc, ◌+◌, ◌-◌, ◌*◌, ◌≤◌, ◌<◌, ◌≡◌, inl, inr, refl, List, [], ◌∷◌, ◌++◌, some, Bool, true,
  length, get_elem?, arith, ap, ◌∙◌, sym, subst, number_key, if◌then◌else◌,
}
use mathlib.Core.List.{append-nil}
use get_modular.Base.Outcome.{done}
use get_modular.Documents.Integers.{
  Counts, coefficient, count_byte, scan_from, scan_coefficient, no_counts,
}
use get_modular.Documents.Integers.Decimal.{worth, worth-append}
use get_modular.Documents.Integers.Spelling.{
  DigitsAt, no_digits, digit, FractionAt, whole_only, point, ExponentAt, no_exponent, exponent,
  ExponentSignAt, lowering, raising, bare,
}
use get_modular.Documents.Integers.Counting.{count_digits, DigitsAt-length, scan_from-digits}
use get_modular.Documents.Integers.Runs.{
  NextAt, here, behind, Found, Found-one, Found-zero, Found-digit,
}
use get_modular.Documents.Integers.Significant.{
  Found-cast, HasCounts, count_first, count_leading_zero, count_nonzero, count_zero,
}

module _ (bytes : List ℕ) (stop : ℕ) where
  -- The digits up to `end` have the number n.
  pub data Counted (s : Counts) (end n : ℕ) : Type 0 where
    nothing :
        s.significant_start ≡ stop
        → s.significant_digits ≡ 0
        → s.trailing_zeros ≡ 0
        → n ≡ 0
        → Counted s end n
    found :
        s.significant_start < stop
        → Found bytes s.significant_start s.significant_digits s.trailing_zeros end n
        → Counted s end n

  found_counts :
      {start significant trailing end n : ℕ} {s : Counts}
      → HasCounts start significant trailing s
      → start < stop
      → Found bytes start significant trailing end n
      → Counted s end n
  found_counts {end} {n} {s} h early f =
      found (subst (λ (t : ℕ). t < stop) (sym h.start_is) early)
        (Found-cast (sym h.start_is) (sym h.digits_are) (sym h.zeros_are) refl refl f)

  counted_digit :
      {end n q : ℕ} {s : Counts} (d : ℕ)
      → Counted s end n
      → NextAt bytes end q
      → get_elem? bytes q ≡ some (0x30 + d)
      → d ≤ 9
      → q < stop
      → Counted (count_byte stop q (0x30 + d) s) (q + 1) (n * 10 + d)
  counted_digit {q} {s} zero (nothing start digits zs e) at b small early =
      let h = count_leading_zero stop q s early start in
      nothing h.start_is (h.digits_are ∙ digits) (h.zeros_are ∙ zs) (omega (arith, e))
  counted_digit {q} {s} (suc d) (nothing start digits zs e) at b small early =
      found_counts (count_first stop q s early (suc d) small (cc) start) early (
        Found-cast refl (omega (arith, digits)) refl refl (omega (arith, e))
          (Found-one bytes q (suc d) b small (cc)))
  counted_digit {q} {s} zero (found started f) at b small early =
      found_counts (count_zero stop q s early (omega arith)) started
        (Found-cast refl refl refl refl (omega arith) (Found-zero bytes f at b))
  counted_digit {q} {s} (suc d) (found started f) at b small early =
      found_counts (count_nonzero stop q s early (suc d) small (cc) (omega arith)) started
        (Found-digit bytes (suc d) f at b small (cc))

  counted_digits :
      {p end to n : ℕ} {d : ℕ} {ds : List ℕ} {s : Counts}
      → Counted s end n
      → NextAt bytes end p
      → DigitsAt bytes p (d ∷ ds) to
      → to ≤ stop
      → Counted (count_digits bytes stop p (d ∷ ds) s) to (worth n (d ∷ ds))
  counted_digits {d} c at (digit e small no_digits) low =
      counted_digit d c at e small (omega (arith, low))
  counted_digits {d} c at (digit e small (digit e' small' rest)) low =
      counted_digits (counted_digit d c at e small (omega (arith, low, DigitsAt-length bytes rest)))
        here (digit e' small' rest) low

  count_byte-fraction :
      (p d : ℕ) (s : Counts)
      → ((count_byte stop p (0x30 + d) s).fractional ≡ s.fractional)
        × ((count_byte stop p (0x30 + d) s).fractional_digits
            ≡ (if s.fractional then s.fractional_digits + 1 else s.fractional_digits))
  unfolding count_byte
  count_byte-fraction p d s = ground arith

  count_digits-fraction :
      (p : ℕ) (ds : List ℕ) (s : Counts)
      → ((count_digits bytes stop p ds s).fractional ≡ s.fractional)
        × ((count_digits bytes stop p ds s).fractional_digits
            ≡ (if s.fractional then s.fractional_digits + length ds else s.fractional_digits))
  count_digits-fraction p [] s = (refl, ground arith)
  count_digits-fraction p (d ∷ ds) s = ground (
    arith,
    count_byte-fraction p d s,
    count_digits-fraction (p + 1) ds (count_byte stop p (0x30 + d) s),
  )

  -- The scan ends at the exponent, or at the end of the number.
  scan_from-exponent :
      {p : ℕ} {lowers : Bool} {ds : List ℕ} (n : ℕ) (s : Counts)
      → ExponentAt bytes p lowers ds stop
      → n ≡ stop - p
      → scan_from bytes stop n p s ≡ done (coefficient p s)
  unfolding scan_from
  scan_from-exponent zero s e h = refl
  scan_from-exponent (suc n) s no_exponent h = absurd (omega (arith, h))
  scan_from-exponent (suc n) s (exponent (inl letter) sign rest) h = rw (letter, scan_from) refl
  scan_from-exponent (suc n) s (exponent (inr letter) sign rest) h = rw (letter, scan_from) refl

  ExponentSignAt-length : {p q : ℕ} {lowers : Bool} → ExponentSignAt bytes p lowers q → p ≤ q
  ExponentSignAt-length (lowering e) = omega arith
  ExponentSignAt-length (raising e) = omega arith
  ExponentSignAt-length (bare e e') = omega arith

  pub ExponentAt-length :
      {p q : ℕ} {lowers : Bool} {ds : List ℕ} → ExponentAt bytes p lowers ds q → p + length ds ≤ q
  ExponentAt-length no_exponent = omega arith
  ExponentAt-length (exponent letter sign rest) =
      omega (arith, ExponentSignAt-length sign, DigitsAt-length bytes rest)

  scan_from-point :
      (p n : ℕ) (s : Counts)
      → get_elem? bytes p ≡ some 0x2e
      → scan_from bytes stop (suc n) p s
        ≡ scan_from bytes stop n (p + 1) (record s { fractional = true })
  unfolding scan_from count_byte
  scan_from-point p n s dot = rw (dot, scan_from) refl

  counted_point :
      {end n : ℕ} {s : Counts} → Counted s end n → Counted (record s { fractional = true }) end n
  counted_point (nothing a b c e) = nothing a b c e
  counted_point (found a f) = found a f

  -- What the scan finds in a number after its sign.
  pub record Scanned (start whole_stop stop_of_digits : ℕ) (whole fraction : List ℕ) (c : Counts)
      : Type 0 where
    pub returned : scan_coefficient bytes start stop ≡ done (coefficient stop_of_digits c)
    pub fractional : c.fractional_digits ≡ length fraction
    pub counted : Counted c stop_of_digits (worth 0 (whole ++ fraction))

  pub scan_coefficient-Scanned :
      {p whole_stop fraction_stop d : ℕ} {ds fraction ex : List ℕ} {lowers : Bool}
      → DigitsAt bytes p (d ∷ ds) whole_stop
      → FractionAt bytes whole_stop fraction fraction_stop
      → ExponentAt bytes fraction_stop lowers ex stop
      → (c : Counts) × Scanned p whole_stop fraction_stop (d ∷ ds) fraction c
  unfolding scan_coefficient
  scan_coefficient-Scanned {p} {whole_stop} {d} {ds} whole whole_only e =
      let c = count_digits bytes stop p (d ∷ ds) (no_counts stop) in
      let low : whole_stop ≤ stop = omega (arith, ExponentAt-length e) in
      (
        c,
        record {
          returned =
              scan_from-digits bytes stop (stop - p) (stop - whole_stop) (no_counts stop) whole
                (omega (arith, low, DigitsAt-length bytes whole))
              ∙ scan_from-exponent (stop - whole_stop) c e refl;
          fractional = (count_digits-fraction p (d ∷ ds) (no_counts stop)).1;
          counted =
              subst (λ (xs : List ℕ). Counted c whole_stop (worth 0 xs)) (sym (append-nil (d ∷ ds)))
                (counted_digits (nothing refl refl refl refl) here whole low);
        },
      )
  scan_coefficient-Scanned {p} {whole_stop} {fraction_stop} {d} {ds} {fraction = d' ∷ ds'} whole
        (point dot after) e =
      let c = count_digits bytes stop p (d ∷ ds) (no_counts stop) in
      let behind_point : Counts = record c { fractional = true } in
      let all = count_digits bytes stop (whole_stop + 1) (d' ∷ ds') behind_point in
      let low : fraction_stop ≤ stop = omega (arith, ExponentAt-length e) in
      let last : fraction_stop ≡ whole_stop + 1 + length (d' ∷ ds') = DigitsAt-length bytes after in
      let counted =
        counted_digits (nothing refl refl refl refl) here whole (omega (arith, low, last)) in
      (
        all,
        record {
          returned =
              scan_from-digits bytes stop (stop - p) (stop - whole_stop) (no_counts stop) whole
                (omega (arith, low, last, DigitsAt-length bytes whole))
              ∙ ap (λ (n : ℕ). scan_from bytes stop n whole_stop c)
                  {y = suc (stop - whole_stop - 1)} (omega (arith, low, last))
              ∙ scan_from-point whole_stop (stop - whole_stop - 1) c dot
              ∙ scan_from-digits bytes stop (stop - whole_stop - 1) (stop - fraction_stop)
                  behind_point after (omega (arith, low, last))
              ∙ scan_from-exponent (stop - fraction_stop) all e refl;
          fractional =
              (count_digits-fraction (whole_stop + 1) (d' ∷ ds') behind_point).1
              ∙ omega (arith, (count_digits-fraction p (d ∷ ds) (no_counts stop)).1);
          counted =
              subst (λ (n : ℕ). Counted all fraction_stop n)
                (sym (worth-append 0 (d ∷ ds) (d' ∷ ds')))
                (counted_digits (counted_point counted) (behind dot) after low);
        },
      )
