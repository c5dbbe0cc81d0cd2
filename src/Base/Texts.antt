-- ===== src/Base/Texts.antt =====
-- JavaScript strings as lists of UTF-16 code units, with `===` and `<`; arrays sorted by `sort`; and a
-- `Set` as a list without repetition, in insertion order.
use Prim.Native.Nat.{ℕ, ◌<◌}
use mathlib.Core.Path.{◌≡◌, refl}
use mathlib.Core.Logic.{◌↔◌}
use mathlib.Core.Bool.{Bool, true, false, ◌||◌, ◌&&◌}
use mathlib.Core.List.{List, [], ◌∷◌, ◌++◌}
use native.Mathlib.Omega.{arith}
use get_modular.Base.Tests.{Key, if◌then◌else◌, number_key, ltb, eqb}
use get_modular.Base.Maps.{contains}

abbrev pub Text : Type 0
Text = List ℕ

abbrev pub text_eqb : Text → Text → Bool
text_eqb [] [] = true
text_eqb (a ∷ s) (b ∷ t) = eqb a b && text_eqb s t
text_eqb _ _ = false

pub text_eqb_iff : (s t : Text) → (text_eqb s t ≡ true) ↔ (s ≡ t)
text_eqb_iff [] [] = (λ _. refl, λ _. refl)
text_eqb_iff [] (b ∷ t) = (λ h. cc, λ h. cc)
text_eqb_iff (a ∷ s) [] = (λ h. cc, λ h. cc)
text_eqb_iff (a ∷ s) (b ∷ t) = ground (arith, text_eqb_iff s t)

instance abbrev pub text_key : Key Text
text_key = record { same_iff = text_eqb_iff; same = text_eqb }

-- Code unit by code unit; a proper prefix comes first.
unfoldable pub text_lt : Text → Text → Bool
text_lt s [] = false
text_lt [] (b ∷ t) = true
text_lt (a ∷ s) (b ∷ t) = ltb a b || (eqb a b && text_lt s t)

-- The order of strings: a proper prefix comes first, and otherwise the first code units that differ
-- decide.
pub data Precedes : Text → Text → Type 0 where
  prefix : {b : ℕ} {t : Text} → Precedes [] (b ∷ t)
  smaller : {a b : ℕ} {s t : Text} → a < b → Precedes (a ∷ s) (b ∷ t)
  alike : {a : ℕ} {s t : Text} → Precedes s t → Precedes (a ∷ s) (a ∷ t)

pub Precedes-text_lt : {s t : Text} → Precedes s t → text_lt s t ≡ true
unfolding text_lt
Precedes-text_lt prefix = refl
Precedes-text_lt (smaller less) = ground (arith, less)
Precedes-text_lt (alike p) = ground (arith, Precedes-text_lt p)

pub text_lt-asym : (s t : Text) → text_lt s t ≡ true → text_lt t s ≡ false
unfolding text_lt
text_lt-asym [] [] h = refl
text_lt-asym [] (b ∷ t) h = refl
text_lt-asym (a ∷ s) [] h = cc
text_lt-asym (a ∷ s) (b ∷ t) h = ground (arith, text_lt-asym s t, h)

-- No string precedes the one before it.
pub data IsAscending : List Text → Type 0 where
  no_text : IsAscending []
  one_text : {s : Text} → IsAscending (s ∷ [])
  next_text :
      {s t : Text} {rest : List Text}
      → ¬ Precedes t s
      → IsAscending (t ∷ rest)
      → IsAscending (s ∷ t ∷ rest)

module _ {ℓ} {A : Type ℓ} where
  -- `less a b` says that the comparator is negative on `a` and `b`.
  unfoldable pub insert_sorted : (A → A → Bool) → A → List A → List A
  insert_sorted less x [] = x ∷ []
  insert_sorted less x (y ∷ ys) =
      let further = insert_sorted less x ys in if less y x then y ∷ further else x ∷ y ∷ ys

  -- `values.sort(compare)`, which is stable.
  unfoldable pub sort : (A → A → Bool) → List A → List A
  sort less [] = []
  sort less (x ∷ xs) = insert_sorted less x (sort less xs)

-- `set.add(x)`
abbrev pub add {ℓ} : {A : Type ℓ} ⦃q : Key A⦄ → A → List A → List A
add x xs = if contains xs x then xs else xs ++ x ∷ []

-- `new Set(values)`, the elements of `xs` being in it already.
abbrev pub add_all {ℓ} : {A : Type ℓ} ⦃q : Key A⦄ → List A → List A → List A
add_all xs [] = xs
add_all xs (y ∷ ys) = add_all (add y xs) ys
