-- ===== src/Diagnostics/Signs.antt =====
-- Comparators of packages/core/src/features/diagnostics/order.ts, by the sign of the number they return.
use get_modular.Base.{
  ℕ, zero, suc, List, [], ◌∷◌, Option, none, some, Bool, true, false, if◌then◌else◌, Text, text_lt,
}

pub data Sign : Type 0 where
  negative neutral positive : Sign

-- `left || right`, and `if (order !== 0) {return order;}` before `right`.
unfoldable pub or_else : Sign → Sign → Sign
or_else negative s = negative
or_else neutral s = s
or_else positive s = positive

-- The sign of `left - right`, and of `lexical(left, right)` on numbers.
unfoldable pub number_sign : ℕ → ℕ → Sign
number_sign zero zero = neutral
number_sign zero (suc b) = negative
number_sign (suc a) zero = positive
number_sign (suc a) (suc b) = number_sign a b

-- The loop over the common indices of two arrays, then the sign of the difference of their lengths.
module _ {ℓ} {A : Type ℓ} (sign : A → A → Sign) where
  unfoldable pub list_sign : List A → List A → Sign
  list_sign [] [] = neutral
  list_sign [] (b ∷ bs) = negative
  list_sign (a ∷ xs) [] = positive
  list_sign (a ∷ xs) (b ∷ bs) = or_else (sign a b) (list_sign xs bs)

  -- An absent value comes before a present one.
  unfoldable pub option_sign : Option A → Option A → Sign
  option_sign none none = neutral
  option_sign none (some b) = negative
  option_sign (some a) none = positive
  option_sign (some a) (some b) = sign a b

-- `lexical(left, right)` on strings.
unfoldable pub text_sign : Text → Text → Sign
text_sign s t = if text_lt s t then negative else if text_lt t s then positive else neutral

unfoldable pub is_negative : Sign → Bool
is_negative negative = true
is_negative _ = false

unfoldable pub is_positive : Sign → Bool
is_positive positive = true
is_positive _ = false
