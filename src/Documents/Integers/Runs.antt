-- ===== src/Documents/Integers/Runs.antt =====
-- Runs of digits with the point between two of them, and the digits that a coefficient has
-- (packages/core/src/features/input-admission/raw-integer.ts: `scanCoefficient`).
use get_modular.Base.{
  ℕ, zero, suc, ◌+◌, ◌*◌, ◌%◌, ◌^◌, ◌≤◌, ◌≡◌, ◌≢◌, refl, List, [], ◌∷◌, ◌++◌, some, length,
  get_elem?, arith, ap, ◌∙◌, sym, subst, number_key, length-append,
}
use mathlib.Core.List.{append-nil, append_assoc}
use native.Mathlib.Nat.{mul-le-mul_right}
use get_modular.Documents.Integers.Decimal.{
  worth, zeros, AllDigits, worth-append, worth-zeros, pow_add, times_pow,
}

pub zeros_last : (k : ℕ) → zeros k ++ 0 ∷ [] ≡ zeros (suc k)
zeros_last zero = refl
zeros_last (suc k) = ap (λ (ds : List ℕ). 0 ∷ ds) (zeros_last k)

pub AllDigits-append : (xs ys : List ℕ) → AllDigits xs → AllDigits ys → AllDigits (xs ++ ys)
AllDigits-append [] ys a b = b
AllDigits-append (x ∷ xs) ys (here, a) b = (here, AllDigits-append xs ys a b)

pub AllDigits-zeros : (k : ℕ) → AllDigits (zeros k)
AllDigits-zeros zero = tt
AllDigits-zeros (suc k) = (omega arith, AllDigits-zeros k)

pub length-zeros : (k : ℕ) → length (zeros k) ≡ k
length-zeros zero = refl
length-zeros (suc k) = ap suc (length-zeros k)

suc_plus : (n : ℕ) → suc n ≡ n + 1
suc_plus n = omega arith

one_more_zero : (n w k : ℕ) → n ≡ w * 10 ^ k → n * 10 ≡ w * 10 ^ (k + 1)
one_more_zero n w k h = omega (arith, h, times_pow w k, ap (λ (t : ℕ). w * 10 ^ t) (suc_plus k))

first_digit_kept :
    (n d w size k after worth_after : ℕ)
    → n ≡ w * 10 ^ k
    → 10 ^ size ≤ 10 * w
    → after ≡ size + k + 1
    → worth_after ≡ n * 10 + d
    → 10 ^ after ≤ 10 * worth_after
first_digit_kept n d w size k after worth_after value first e h = omega (
  arith,
  value,
  h,
  mul-le-mul_right (10 ^ k) first,
  pow_add size k,
  pow_add (size + k) 1,
  ap (λ (t : ℕ). 10 ^ t) e,
)

module _ (bytes : List ℕ) where
  -- The digits from a position on, where the point before a digit is passed over.
  pub data RunAt : ℕ → List ℕ → ℕ → Type 0 where
    ends : {p : ℕ} → RunAt p [] p
    digit :
        {p stop d : ℕ} {ds : List ℕ}
        → get_elem? bytes p ≡ some (0x30 + d)
        → RunAt (p + 1) ds stop
        → RunAt p (d ∷ ds) stop
    over_point :
        {p stop d : ℕ} {ds : List ℕ}
        → get_elem? bytes p ≡ some 0x2e
        → get_elem? bytes (p + 1) ≡ some (0x30 + d)
        → RunAt (p + 1 + 1) ds stop
        → RunAt p (d ∷ ds) stop

  -- The next byte to read: the one at the position, or the one behind a point there.
  pub data NextAt (p : ℕ) : ℕ → Type 0 where
    here : NextAt p p
    behind : get_elem? bytes p ≡ some 0x2e → NextAt p (p + 1)

  one_digit :
      {p q : ℕ} (d : ℕ)
      → NextAt p q
      → get_elem? bytes q ≡ some (0x30 + d)
      → RunAt p (d ∷ []) (q + 1)
  one_digit d here e = digit e ends
  one_digit d (behind dot) e = over_point dot e ends

  pub RunAt-append :
      {p q stop : ℕ} {ds : List ℕ} (d : ℕ)
      → RunAt p ds stop
      → NextAt stop q
      → get_elem? bytes q ≡ some (0x30 + d)
      → RunAt p (ds ++ d ∷ []) (q + 1)
  RunAt-append d ends at e = one_digit d at e
  RunAt-append d (digit h run) at e = digit h (RunAt-append d run at e)
  RunAt-append d (over_point dot h run) at e = over_point dot h (RunAt-append d run at e)

  -- Digits with the number n were read up to `end`: they are the core, from `start` on, and zeros.
  pub record Found (start significant trailing end n : ℕ) : Type 0 where
    pub core : List ℕ
    pub all_digits : AllDigits core
    pub run : RunAt start (core ++ zeros trailing) end
    pub count : significant ≡ length core + trailing
    pub last_digit : worth 0 core % 10 ≢ 0
    pub first_digit : 10 ^ length core ≤ 10 * worth 0 core
    pub value : n ≡ worth 0 core * 10 ^ trailing

  pub Found-one :
      (p d : ℕ) → get_elem? bytes p ≡ some (0x30 + d) → d ≤ 9 → d ≢ 0 → Found p 1 0 (p + 1) d
  Found-one p d e small positive = record {
    core = d ∷ [];
    all_digits = (small, tt);
    run = digit e ends;
    count = refl;
    last_digit = omega (arith, small, positive);
    first_digit = omega (arith, positive);
    value = omega arith;
  }

  pub Found-zero :
      {start significant trailing end n q : ℕ}
      → Found start significant trailing end n
      → NextAt end q
      → get_elem? bytes q ≡ some 0x30
      → Found start (significant + 1) (trailing + 1) (q + 1) (n * 10)
  Found-zero {start} {trailing} {n} {q} f at e =
      let digits : (f.core ++ zeros trailing) ++ 0 ∷ [] ≡ f.core ++ zeros (trailing + 1) =
        append_assoc f.core (zeros trailing) (0 ∷ [])
        ∙ ap (λ (ds : List ℕ). f.core ++ ds) (zeros_last trailing ∙ ap zeros (suc_plus trailing)) in
      record {
        core = f.core;
        all_digits = f.all_digits;
        run = subst (λ (ds : List ℕ). RunAt start ds (q + 1)) digits (RunAt-append 0 f.run at e);
        count = omega (arith, f.count);
        last_digit = f.last_digit;
        first_digit = f.first_digit;
        value = one_more_zero n (worth 0 f.core) trailing f.value;
      }

  pub Found-digit :
      {start significant trailing end n q : ℕ} (d : ℕ)
      → Found start significant trailing end n
      → NextAt end q
      → get_elem? bytes q ≡ some (0x30 + d)
      → d ≤ 9
      → d ≢ 0
      → Found start (significant + 1) 0 (q + 1) (n * 10 + d)
  Found-digit {start} {trailing} {n} {q} d f at e small positive =
      let before = f.core ++ zeros trailing in
      let worth_before : worth 0 before ≡ n =
        worth-append 0 f.core (zeros trailing)
        ∙ worth-zeros (worth 0 f.core) trailing
        ∙ sym f.value in
      let worth_after : worth 0 (before ++ d ∷ []) ≡ n * 10 + d =
        worth-append 0 before (d ∷ []) ∙ ap (λ (t : ℕ). t * 10 + d) worth_before in
      let size : length (before ++ d ∷ []) ≡ length f.core + trailing + 1 =
        length-append before (d ∷ [])
        ∙ omega (arith, length-append f.core (zeros trailing), length-zeros trailing) in
      record {
        core = before ++ d ∷ [];
        all_digits =
            AllDigits-append before (d ∷ [])
              (AllDigits-append f.core (zeros trailing) f.all_digits (AllDigits-zeros trailing))
              (small, tt);
        run =
            subst (λ (ds : List ℕ). RunAt start ds (q + 1)) (sym (append-nil (before ++ d ∷ [])))
              (RunAt-append d f.run at e);
        count = omega (arith, size, f.count);
        last_digit = omega (arith, worth_after, small, positive);
        first_digit =
            first_digit_kept n d (worth 0 f.core) (length f.core) trailing _ _ f.value f.first_digit
              size worth_after;
        value = omega (arith, worth_after);
      }
