-- ===== src/Diagnostics/Orders.antt =====
-- The comparators of packages/core/src/features/diagnostics/order.ts on strings, lists and optional
-- values.
use get_modular.Base.{
  ℕ, zero, suc, List, [], ◌∷◌, Option, none, some, ◌≡◌, refl, sym, ap, subst, arith, Text, text_lt,
  ltb, inl, inr, ◌⊎◌, if◌then◌else◌,
}
use get_modular.Diagnostics.Signs.{
  Sign, negative, neutral, positive, or_else, number_sign, list_sign, option_sign, text_sign,
}
use get_modular.Diagnostics.Linear.{
  flip, IsLinear, number_sign-IsLinear, or_else-negative_trans, or_else-neutral, flip-or_else,
}

module _ {ℓ} {A : Type ℓ} (sign : A → A → Sign) (linear : IsLinear sign) where
  list-flips : (xs ys : List A) → list_sign sign ys xs ≡ flip (list_sign sign xs ys)
  unfolding list_sign flip
  list-flips [] [] = refl
  list-flips [] (y ∷ ys) = refl
  list-flips (x ∷ xs) [] = refl
  list-flips (x ∷ xs) (y ∷ ys) =
      rw (linear.flips x y, list-flips xs ys) (sym (flip-or_else (sign x y) (list_sign sign xs ys)))

  list_trans :
      (xs ys zs : List A)
      → list_sign sign xs ys ≡ negative
      → list_sign sign ys zs ≡ negative
      → list_sign sign xs zs ≡ negative
  unfolding list_sign
  list_trans [] [] zs h k = cc
  list_trans [] (y ∷ ys) [] h k = cc
  list_trans [] (y ∷ ys) (z ∷ zs) h k = refl
  list_trans (x ∷ xs) [] zs h k = cc
  list_trans (x ∷ xs) (y ∷ ys) [] h k = cc
  list_trans (x ∷ xs) (y ∷ ys) (z ∷ zs) h k =
      or_else-negative_trans sign (list_sign sign) x y z xs ys zs linear (list_trans xs ys zs) h k

  list-exact : (xs ys : List A) → list_sign sign xs ys ≡ neutral → xs ≡ ys
  unfolding list_sign
  list-exact [] [] h = refl
  list-exact [] (y ∷ ys) h = cc
  list-exact (x ∷ xs) [] h = cc
  list-exact (x ∷ xs) (y ∷ ys) h =
      let (first, rest) = or_else-neutral (sign x y) (list_sign sign xs ys) h in
      λ i. linear.exact x y first i ∷ list-exact xs ys rest i

  list-same : (xs : List A) → list_sign sign xs xs ≡ neutral
  unfolding list_sign or_else
  list-same [] = refl
  list-same (x ∷ xs) = rw (linear.same x) (list-same xs)

  pub list_sign-IsLinear : IsLinear (list_sign sign)
  list_sign-IsLinear = record {
    flips = list-flips;
    trans = list_trans;
    exact = list-exact;
    same = list-same;
  }

  option-flips : (a b : Option A) → option_sign sign b a ≡ flip (option_sign sign a b)
  unfolding option_sign flip
  option-flips none none = refl
  option-flips none (some b) = refl
  option-flips (some a) none = refl
  option-flips (some a) (some b) = linear.flips a b

  option_trans :
      (a b c : Option A)
      → option_sign sign a b ≡ negative
      → option_sign sign b c ≡ negative
      → option_sign sign a c ≡ negative
  unfolding option_sign
  option_trans none none c h k = cc
  option_trans none (some b) none h k = cc
  option_trans none (some b) (some c) h k = refl
  option_trans (some a) none c h k = cc
  option_trans (some a) (some b) none h k = cc
  option_trans (some a) (some b) (some c) h k = linear.trans a b c h k

  option-exact : (a b : Option A) → option_sign sign a b ≡ neutral → a ≡ b
  unfolding option_sign
  option-exact none none h = refl
  option-exact none (some b) h = cc
  option-exact (some a) none h = cc
  option-exact (some a) (some b) h = ap some (linear.exact a b h)

  option-same : (a : Option A) → option_sign sign a a ≡ neutral
  unfolding option_sign
  option-same none = refl
  option-same (some a) = linear.same a

  pub option_sign-IsLinear : IsLinear (option_sign sign)
  option_sign-IsLinear = record {
    flips = option-flips;
    trans = option_trans;
    exact = option-exact;
    same = option-same;
  }

-- `number_sign` by the tests on numbers.
number_sign-ltb :
    (a b : ℕ)
    → number_sign a b ≡ (if ltb a b then negative else if ltb b a then positive else neutral)
unfolding number_sign
number_sign-ltb zero zero = ground arith
number_sign-ltb zero (suc b) = ground arith
number_sign-ltb (suc a) zero = ground arith
number_sign-ltb (suc a) (suc b) = ground (arith, number_sign-ltb a b)

-- Strings compare as lists of code units.
text_sign-list_sign : (s t : Text) → text_sign s t ≡ list_sign number_sign s t
unfolding text_sign text_lt list_sign or_else
text_sign-list_sign [] [] = refl
text_sign-list_sign [] (b ∷ t) = refl
text_sign-list_sign (a ∷ s) [] = refl
text_sign-list_sign (a ∷ s) (b ∷ t) =
    rw (number_sign-ltb a b, sym (text_sign-list_sign s t)) (ground arith)

pub text_sign-IsLinear : IsLinear text_sign
text_sign-IsLinear =
    subst (λ sign. IsLinear sign) (λ i s t. sym (text_sign-list_sign s t) i)
      (list_sign-IsLinear number_sign number_sign-IsLinear)

-- The left summand comes first.
module _ {ℓ κ} {A : Type ℓ} {B : Type κ} (f : A → A → Sign) (g : B → B → Sign) where
  abbrev pub sum_sign : A ⊎ B → A ⊎ B → Sign
  sum_sign (inl a) (inl b) = f a b
  sum_sign (inl a) (inr y) = negative
  sum_sign (inr x) (inl b) = positive
  sum_sign (inr x) (inr y) = g x y

  module _ (lf : IsLinear f) (lg : IsLinear g) where
    sum-flips : (a b : A ⊎ B) → sum_sign b a ≡ flip (sum_sign a b)
    unfolding flip
    sum-flips (inl a) (inl b) = lf.flips a b
    sum-flips (inl a) (inr y) = refl
    sum-flips (inr x) (inl b) = refl
    sum-flips (inr x) (inr y) = lg.flips x y

    sum_trans :
        (a b c : A ⊎ B)
        → sum_sign a b ≡ negative
        → sum_sign b c ≡ negative
        → sum_sign a c ≡ negative
    sum_trans (inl a) (inl b) (inl c) h k = lf.trans a b c h k
    sum_trans (inl a) (inl b) (inr z) h k = refl
    sum_trans (inl a) (inr y) (inl c) h k = cc
    sum_trans (inl a) (inr y) (inr z) h k = refl
    sum_trans (inr x) (inl b) c h k = cc
    sum_trans (inr x) (inr y) (inl c) h k = cc
    sum_trans (inr x) (inr y) (inr z) h k = lg.trans x y z h k

    sum-exact : (a b : A ⊎ B) → sum_sign a b ≡ neutral → a ≡ b
    sum-exact (inl a) (inl b) h = ap inl (lf.exact a b h)
    sum-exact (inl a) (inr y) h = cc
    sum-exact (inr x) (inl b) h = cc
    sum-exact (inr x) (inr y) h = ap inr (lg.exact x y h)

    sum-same : (a : A ⊎ B) → sum_sign a a ≡ neutral
    sum-same (inl a) = lf.same a
    sum-same (inr x) = lg.same x

    pub sum_sign-IsLinear : IsLinear sum_sign
    sum_sign-IsLinear = record {
      flips = sum-flips;
      trans = sum_trans;
      exact = sum-exact;
      same = sum-same;
    }
