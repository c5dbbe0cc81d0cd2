-- ===== src/Diagnostics/Linear.antt =====
-- Comparators that order linearly, and the orders that
-- packages/core/src/features/diagnostics/order.ts builds them from.
use get_modular.Base.{ℕ, zero, suc, ◌≡◌, refl, sym, ap, subst, ◌⊎◌, inl, inr, number_key}
use get_modular.Diagnostics.Signs.{Sign, negative, neutral, positive, or_else, number_sign}

unfoldable pub flip : Sign → Sign
flip negative = positive
flip neutral = neutral
flip positive = negative

module _ {ℓ} {A : Type ℓ} where
  -- A linear order: the comparator is neutral only on equal values.
  pub record IsLinear (sign : A → A → Sign) : Type ℓ where
    pub flips : (a b : A) → sign b a ≡ flip (sign a b)
    pub trans : (a b c : A) → sign a b ≡ negative → sign b c ≡ negative → sign a c ≡ negative
    pub exact : (a b : A) → sign a b ≡ neutral → a ≡ b
    pub same : (a : A) → sign a a ≡ neutral

-- What `or_else` is negative on, and neutral on.
or_else-negative :
    (s t : Sign) → or_else s t ≡ negative → (s ≡ negative) ⊎ ((s ≡ neutral) × (t ≡ negative))
unfolding or_else
or_else-negative negative t h = inl refl
or_else-negative neutral t h = inr (refl, h)
or_else-negative positive t h = cc

pub or_else-neutral : (s t : Sign) → or_else s t ≡ neutral → (s ≡ neutral) × (t ≡ neutral)
unfolding or_else
or_else-neutral negative t h = cc
or_else-neutral neutral t h = (refl, h)
or_else-neutral positive t h = cc

pub flip-or_else : (s t : Sign) → flip (or_else s t) ≡ or_else (flip s) (flip t)
unfolding or_else flip
flip-or_else negative t = refl
flip-or_else neutral t = refl
flip-or_else positive t = refl

-- The second sign counts only where the first is neutral.
pub or_else-right : (s t u : Sign) → (s ≡ neutral → t ≡ u) → or_else s t ≡ or_else s u
unfolding or_else
or_else-right negative t u h = refl
or_else-right neutral t u h = h refl
or_else-right positive t u h = refl

number_sign-flips : (a b : ℕ) → number_sign b a ≡ flip (number_sign a b)
unfolding number_sign flip
number_sign-flips zero zero = refl
number_sign-flips zero (suc b) = refl
number_sign-flips (suc a) zero = refl
number_sign-flips (suc a) (suc b) = number_sign-flips a b

number_sign_trans :
    (a b c : ℕ)
    → number_sign a b ≡ negative
    → number_sign b c ≡ negative
    → number_sign a c ≡ negative
unfolding number_sign
number_sign_trans zero zero c h k = cc
number_sign_trans zero (suc b) zero h k = cc
number_sign_trans zero (suc b) (suc c) h k = refl
number_sign_trans (suc a) zero c h k = cc
number_sign_trans (suc a) (suc b) zero h k = cc
number_sign_trans (suc a) (suc b) (suc c) h k = number_sign_trans a b c h k

number_sign-exact : (a b : ℕ) → number_sign a b ≡ neutral → a ≡ b
unfolding number_sign
number_sign-exact zero zero h = refl
number_sign-exact zero (suc b) h = cc
number_sign-exact (suc a) zero h = cc
number_sign-exact (suc a) (suc b) h = ap suc (number_sign-exact a b h)

number_sign-same : (a : ℕ) → number_sign a a ≡ neutral
unfolding number_sign
number_sign-same zero = refl
number_sign-same (suc a) = number_sign-same a

pub number_sign-IsLinear : IsLinear number_sign
number_sign-IsLinear = record {
  flips = number_sign-flips;
  trans = number_sign_trans;
  exact = number_sign-exact;
  same = number_sign-same;
}

-- Lexicographic orders on pairs.
module _ {ℓ κ} {A : Type ℓ} {B : Type κ} (f : A → A → Sign) (g : B → B → Sign) where
  abbrev pub pair_sign : A × B → A × B → Sign
  pair_sign (a, b) (c, d) = or_else (f a c) (g b d)

  pub or_else-negative_trans :
      (a b c : A) (x y z : B)
      → IsLinear f
      → (g x y ≡ negative → g y z ≡ negative → g x z ≡ negative)
      → or_else (f a b) (g x y) ≡ negative
      → or_else (f b c) (g y z) ≡ negative
      → or_else (f a c) (g x z) ≡ negative
  unfolding or_else
  or_else-negative_trans a b c x y z lf lg h k = elim (or_else-negative (f a b) (g x y) h) [
    | inl below_first ↦ elim (or_else-negative (f b c) (g y z) k) [
      | inl below_second ↦ rw (lf.trans a b c below_first below_second) refl
      | inr (same_second, _) ↦
          rw (subst (λ w. f a w ≡ negative) (lf.exact b c same_second) below_first) refl
    ]
    | inr (same_first, below_first) ↦
        rw (ap (λ w. f w c) (lf.exact a b same_first)) (elim (or_else-negative (f b c) (g y z) k) [
          | inl below_second ↦ rw below_second refl
          | inr (same_second, below_second) ↦ rw same_second (lg below_first below_second)
        ])
  ]

  pub pair_sign-IsLinear : IsLinear f → IsLinear g → IsLinear pair_sign
  unfolding or_else
  pair_sign-IsLinear lf lg = record {
    flips = λ (a, x) (b, y). rw (lf.flips a b, lg.flips x y) (sym (flip-or_else (f a b) (g x y)));
    trans = λ (a, x) (b, y) (c, z). or_else-negative_trans a b c x y z lf (lg.trans x y z);
    exact = λ (a, x) (b, y) h.
        let (first, second) = or_else-neutral (f a b) (g x y) h in
        λ i. (lf.exact a b first i, lg.exact x y second i);
    same = λ (a, x). rw (lf.same a) (lg.same x);
  }
