-- ===== src/Documents/Integers/Exponents.antt =====
-- What `readExponent` reads (packages/core/src/features/input-admission/raw-integer.ts).
use get_modular.Base.{
  ℕ, zero, suc, ◌+◌, ◌-◌, ◌*◌, ◌<◌, ◌≡◌, ◌≢◌, refl, List, ◌∷◌, Option, none, some, Bool, true,
  false, ◌||◌, min, length, get_elem?, arith, ap, ◌∙◌, sym, number_key, ◌==◌, if◌then◌else◌,
}
use get_modular.Base.Outcome.{Outcome, done, ◌>>=◌}
use get_modular.Scanner.Bytes.{is_byte}
use get_modular.Documents.Integers.{exponent_from, read_exponent}
use get_modular.Documents.Integers.Decimal.{worth}
use get_modular.Documents.Integers.Spelling.{
  DigitsAt, no_digits, digit, lowering, raising, bare, ExponentAt, no_exponent, exponent,
}
use get_modular.Documents.Integers.Counting.{DigitsAt-length}

-- A capped number goes on as the number would.
capped : (limit e d : ℕ) → min limit (min limit e * 10 + d) ≡ min limit (e * 10 + d)
capped limit e d = omega arith

pub is_byte_other : (c : ℕ) (b : Option ℕ) → b ≢ some c → is_byte c b ≡ false
is_byte_other c none h = refl
is_byte_other c (some b) h = ground (arith, h)

module _ (bytes : List ℕ) (limit : ℕ) where
  exponent_from-digit :
      (p n d e : ℕ)
      → get_elem? bytes p ≡ some (0x30 + d)
      → exponent_from bytes limit (suc n) p e
        ≡ exponent_from bytes limit n (p + 1) (min limit (e * 10 + d))
  unfolding exponent_from
  exponent_from-digit p n d e h =
      rw (h, exponent_from)
        (ap (λ (t : ℕ). exponent_from bytes limit n (p + 1) (min limit (e * 10 + t))) (omega arith))

  exponent_from-worth :
      (n e : ℕ) {p stop : ℕ} {ds : List ℕ}
      → DigitsAt bytes p ds stop
      → n ≡ length ds
      → exponent_from bytes limit n p (min limit e) ≡ done (min limit (worth e ds))
  unfolding exponent_from
  exponent_from-worth zero e no_digits h = refl
  exponent_from-worth (suc n) e no_digits h = absurd (omega (arith, h))
  exponent_from-worth zero e (digit b small rest) h = absurd (omega (arith, h))
  exponent_from-worth (suc n) e {p} {ds = d ∷ ds} (digit b small rest) h =
      exponent_from-digit p n d (min limit e) b
      ∙ ap (λ (t : ℕ). exponent_from bytes limit n (p + 1) t) (capped limit e d)
      ∙ exponent_from-worth n (e * 10 + d) rest (omega (arith, h))

  read_exponent-none :
      (p : ℕ)
      → read_exponent bytes p p limit ≡ done (record { negative = false; magnitude = min limit 0 })
  unfolding read_exponent
  read_exponent-none p =
      let same : (p == p) ≡ true = ground arith in
      rw (same, read_exponent)
        (ap (λ (t : ℕ). done (record { negative = false; magnitude = t })) (omega arith))

  -- The exponent after its letter, by what the tests say of its sign.
  read_exponent-sign :
      (p q stop : ℕ) (lowers raises : Bool) (ds : List ℕ)
      → p < stop
      → is_byte 0x2d (get_elem? bytes (p + 1)) ≡ lowers
      → is_byte 0x2b (get_elem? bytes (p + 1)) ≡ raises
      → q ≡ (if lowers || raises then p + 2 else p + 1)
      → DigitsAt bytes q ds stop
      → read_exponent bytes p stop limit
        ≡ done (record { negative = lowers; magnitude = min limit (worth 0 ds) })
  unfolding read_exponent
  read_exponent-sign p q stop lowers raises ds early minus plus at rest =
      let past : (p == stop) ≡ false = ground (arith, early) in
      let read : exponent_from bytes limit (stop - q) q 0 ≡ done (min limit (worth 0 ds)) =
        ap (λ (t : ℕ). exponent_from bytes limit (stop - q) q t) (omega arith)
        ∙ exponent_from-worth (stop - q) 0 rest (omega (arith, DigitsAt-length bytes rest)) in
      rw (past, minus, plus, read_exponent)
        (ap
            (λ (r : ℕ). exponent_from bytes limit (stop - r) r 0 >>= λ magnitude.
              done (record { negative = lowers; magnitude = magnitude }))
            (sym at)
          ∙ ap
              (λ (m : Outcome ℕ).
                m >>= λ magnitude. done (record { negative = lowers; magnitude = magnitude }))
              read)

  pub read_exponent-worth :
      {p stop : ℕ} {lowers : Bool} {ds : List ℕ}
      → ExponentAt bytes p lowers ds stop
      → read_exponent bytes p stop limit
        ≡ done (record { negative = lowers; magnitude = min limit (worth 0 ds) })
  read_exponent-worth {p} no_exponent = read_exponent-none p
  read_exponent-worth {p} (exponent letter (lowering e) rest) =
      read_exponent-sign p (p + 1 + 1) _ true false _ (omega (arith, DigitsAt-length bytes rest))
        (rw e refl) (rw e refl) (omega arith) rest
  read_exponent-worth {p} (exponent letter (raising e) rest) =
      read_exponent-sign p (p + 1 + 1) _ false true _ (omega (arith, DigitsAt-length bytes rest))
        (rw e refl) (rw e refl) (omega arith) rest
  read_exponent-worth {p} (exponent letter (bare e e') rest) =
      read_exponent-sign p (p + 1) _ false false _ (omega (arith, DigitsAt-length bytes rest))
        (is_byte_other 0x2d (get_elem? bytes (p + 1)) e)
        (is_byte_other 0x2b (get_elem? bytes (p + 1)) e') refl rest
