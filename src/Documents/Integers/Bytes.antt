-- ===== src/Documents/Integers/Bytes.antt =====
-- Tests on bytes, and the ends of the parts of a number
-- (packages/core/src/features/raw-scanner/owned-iterative/scanner.ts: `scanNumber`).
use get_modular.Base.{
  ℕ, zero, suc, ◌+◌, ◌-◌, ◌≤◌, ◌≡◌, ◌≢◌, ◌⊎◌, inl, inr, refl, List, [], ◌∷◌, Option, none, some,
  Bool, true, false, ◌||◌, get_elem?, drop, arith, ap, ◌∙◌, number_key, ◌==◌, Bool-cases,
  if◌then◌else◌, eqb_iff,
}
use get_modular.Scanner.Bytes.{is_byte, is_digit}
use get_modular.Scanner.Strings.{number, invalid_token}
use get_modular.Scanner.Numbers.{Part, ends_at, bad_at, leading_digit, ◌>>=◌}

pub is_byte-some : (c : ℕ) (b : Option ℕ) → is_byte c b ≡ true → b ≡ some c
is_byte-some c none h = absurd (cc (h))
is_byte-some c (some b) h = ap some ((eqb_iff b c).0 h)

pub not_byte : (c : ℕ) (b : Option ℕ) → is_byte c b ≡ false → b ≢ some c
not_byte c none h = λ e. cc (e)
not_byte c (some b) h = λ (e : some b ≡ some c). ground (arith, h, e)

pub letter_some :
    (b : Option ℕ) → (is_byte 0x65 b || is_byte 0x45 b) ≡ true → (b ≡ some 0x65) ⊎ (b ≡ some 0x45)
letter_some none h = absurd (cc (h))
letter_some (some b) h = elim (Bool-cases (b == 0x65)) [
  | inl e ↦ inl (ap some ((eqb_iff b 0x65).0 e))
  | inr other ↦ inr (ap some (ground (arith, h, other)))
]

pub is_digit-some : (b : Option ℕ) → is_digit b ≡ true → (d : ℕ) × (b ≡ some (0x30 + d)) × (d ≤ 9)
unfolding is_digit
is_digit-some none h = absurd (cc (h))
is_digit-some (some b) h = (b - 0x30, ap some (ground (arith, h)), ground (arith, h))

pub leading_digit-some :
    (b : Option ℕ) → leading_digit b ≡ true → (d : ℕ) × (b ≡ some (0x30 + d)) × (d ≤ 9)
leading_digit-some none h = absurd (cc (h))
leading_digit-some (some b) h = (b - 0x30, ap some (ground (arith, h)), ground (arith, h))

pub bind_ends :
    (m : Part) (f : ℕ → Part) {e : ℕ}
    → (m >>= f) ≡ ends_at e
    → (a : ℕ) × (m ≡ ends_at a) × (f a ≡ ends_at e)
bind_ends (ends_at a) f h = (a, refl, h)
bind_ends (bad_at a) f h = absurd (cc (h))

pub if_ends :
    (t : Bool) (a b : Part) {e : ℕ}
    → (if t then a else b) ≡ ends_at e
    → ((t ≡ true) × (a ≡ ends_at e)) ⊎ ((t ≡ false) × (b ≡ ends_at e))
if_ends true a b h = inl (refl, h)
if_ends false a b h = inr (refl, h)

pub ends_injective : (a b : ℕ) → ends_at a ≡ ends_at b → a ≡ b
ends_injective a b h = cc

pub get_elem?-drop : (p : ℕ) (xs : List ℕ) (i : ℕ) → get_elem? (drop p xs) i ≡ get_elem? xs (p + i)
get_elem?-drop zero xs i = ap (get_elem? xs) (omega arith)
get_elem?-drop (suc p) [] i = refl
get_elem?-drop (suc p) (x ∷ xs) i =
    get_elem?-drop p xs i ∙ ap (get_elem? (x ∷ xs)) {x = suc (p + i)} (omega arith)

pub invalid_no_number : (start at limit : ℕ) → (invalid_token start at limit).kind ≡ number → ⊥
unfolding invalid_token
invalid_no_number start at limit h = cc (h)
