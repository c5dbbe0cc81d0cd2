-- ===== src/Base/Outcome.antt =====
-- What a computation with errors and loops yields: a result, a thrown error, or a loop out of fuel.
use mathlib.Core.Path.{◌≡◌, refl, sym, subst}
use mathlib.Core.Option.{Option, none, some}

pub data Outcome {ℓ} (A : Type ℓ) : Type ℓ where
  done : A → Outcome A
  thrown out_of_fuel : Outcome A

infixl 5 ◌>>=◌
abbrev pub ◌>>=◌ {ℓ κ} : {A : Type ℓ} {B : Type κ} → Outcome A → (A → Outcome B) → Outcome B
done a >>= next = next a
thrown >>= next = thrown
out_of_fuel >>= next = out_of_fuel

-- `defined(value)`: an absent value throws.
abbrev pub defined {ℓ} : {A : Type ℓ} → Option A → Outcome A
defined none = thrown
defined (some a) = done a

pub bind_done {ℓ κ} :
    {A : Type ℓ} {B : Type κ} (m : Outcome A) (next : A → Outcome B) {b : B}
    → (m >>= next) ≡ done b
    → (a : A) × (m ≡ done a) × (next a ≡ done b)
bind_done (done a) next h = (a, refl, h)
bind_done thrown next h = cc
bind_done out_of_fuel next h = cc

pub done_injective {ℓ} : {A : Type ℓ} (a b : A) → done a ≡ done b → a ≡ b
done_injective a b h = cc

-- It returns, and what it returns has the property.
pub data Returns {ℓ κ} {A : Type ℓ} (P : A → Type κ) : Outcome A → Type (ℓ ⊔ κ) where
  returns : {a : A} → P a → Returns P (done a)

module _ {ℓ κ} {A : Type ℓ} {P : A → Type κ} where
  pub Returns-bind {μ ν} :
      {B : Type μ} {Q : B → Type ν} {m : Outcome A} {next : A → Outcome B}
      → Returns P m
      → ((a : A) → P a → Returns Q (next a))
      → Returns Q (m >>= next)
  Returns-bind (returns p) rest = rest _ p

  pub Returns-done : {m : Outcome A} → Returns P m → (a : A) × (m ≡ done a) × P a
  Returns-done (returns p) = (_, refl, p)

  pub Returns-mono {μ} :
      {Q : A → Type μ} {m : Outcome A} → ((a : A) → P a → Q a) → Returns P m → Returns Q m
  Returns-mono weaker (returns p) = returns (weaker _ p)

pub Returns-value {ℓ κ} : {A : Type ℓ} {P : A → Type κ} (a : A) → Returns P (done a) → P a
Returns-value {P} a r = let (b, e, p) = Returns-done r in subst P (done_injective b a (sym e)) p
