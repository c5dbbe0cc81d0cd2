-- ===== src/Canonical/Indices.antt =====
-- `String(index)`: different indices have different texts, and none is "length"
-- (packages/core/src/features/canonicalization/owned-jcs/factory.ts).
use get_modular.Base.{
  ℕ, zero, suc, ◌+◌, ◌-◌, ◌*◌, ◌/◌, ◌%◌, ◌<◌, ◌≤◌, ◌≡◌, ◌≢◌, refl, [], ◌∷◌, ◌++◌, Bool, true, ◌&&◌,
  arith, inl, inr, Bool-cases, ltb, Text, ap, ◌∙◌, sym,
}
use get_modular.Canonical.Values.{decimal_from, decimal}
use get_modular.Canonical.Machine.{length_name}

-- The number that a text denotes, after what was read.
abbrev denoted : ℕ → Text → ℕ
denoted read [] = read
denoted read (c ∷ cs) = denoted (read * 10 + (c - 48)) cs

denoted-append :
    (read : ℕ) (cs : Text) (c : ℕ) → denoted read (cs ++ c ∷ []) ≡ denoted read cs * 10 + (c - 48)
denoted-append read [] c = refl
denoted-append read (b ∷ cs) c = denoted-append (read * 10 + (b - 48)) cs c

denoted-decimal_from : (fuel n : ℕ) → n < fuel → denoted 0 (decimal_from fuel n) ≡ n
unfolding decimal_from
denoted-decimal_from zero n enough = absurd (omega arith)
denoted-decimal_from (suc fuel) n enough = elim (Bool-cases (ltb n 10)) [
  | inl small ↦ rw small (omega arith)
  | inr big ↦
      let tens : 10 ≤ n = ground (arith, big) in
      rw big (
        denoted-append 0 (decimal_from fuel (n / 10)) (48 + n % 10)
        ∙ omega (arith, denoted-decimal_from fuel (n / 10) (omega (arith, enough, tens))))
]

pub decimal_injective : (m n : ℕ) → decimal m ≡ decimal n → m ≡ n
decimal_injective m n e =
    sym (denoted-decimal_from (suc m) m (omega arith))
    ∙ ap (denoted 0) e
    ∙ denoted-decimal_from (suc n) n (omega arith)

-- Whether no code unit stands behind the digits.
abbrev numeric : Text → Bool
numeric [] = true
numeric (c ∷ cs) = ltb c 58 && numeric cs

numeric-append : (cs : Text) (c : ℕ) → numeric cs ≡ true → c < 58 → numeric (cs ++ c ∷ []) ≡ true
numeric-append [] c h low = ground (arith, low)
numeric-append (b ∷ cs) c h low = ground (arith, h, numeric-append cs c, low)

numeric-decimal_from : (fuel n : ℕ) → numeric (decimal_from fuel n) ≡ true
unfolding decimal_from
numeric-decimal_from zero n = refl
numeric-decimal_from (suc fuel) n = elim (Bool-cases (ltb n 10)) [
  | inl small ↦ rw small (ground (arith, small))
  | inr big ↦ rw big (
      numeric-append (decimal_from fuel (n / 10)) (48 + n % 10) (numeric-decimal_from fuel (n / 10))
        (omega arith))
]

pub decimal_not_length : (n : ℕ) → decimal n ≢ length_name
decimal_not_length n e =
    let h : numeric length_name ≡ true = ap numeric (sym e) ∙ numeric-decimal_from (suc n) n in
    absurd (cc (h))
