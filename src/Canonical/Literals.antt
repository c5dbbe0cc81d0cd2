-- ===== src/Canonical/Literals.antt =====
-- The bytes of a canonical string literal, unit by unit
-- (packages/core/src/features/canonicalization/owned-jcs/factory.ts: `quote`).
use get_modular.Base.{
  ℕ, suc, ◌+◌, ◌-◌, ◌*◌, ◌≤◌, ◌<◌, ◌≡◌, ◌⊎◌, inl, inr, refl, List, [], ◌∷◌, ◌++◌, some, true, false,
  ◌&&◌, number_key, arith, if◌then◌else◌, Text, length, get_elem?, Bool-cases, subst, sym, ap, ◌∙◌,
}
use mathlib.Core.List.{append_assoc, append-nil}
use get_modular.Scanner.Strings.{code_units}
use get_modular.Scanner.Utf8.{encode, IsScalar}
use get_modular.Scanner.Text.{high, low, is_well_formed}
use get_modular.Canonical.Writing.{escaped, escape_all, utf8}

-- The listed bytes stand at the position.
abbrev pub Stands : List ℕ → ℕ → List ℕ → Type 0
Stands bytes p [] = Unit {0}
Stands bytes p (x ∷ xs) = (get_elem? bytes p ≡ some x) × Stands bytes (p + 1) xs

pub Stands-at :
    (bytes : List ℕ) (p q : ℕ) (xs : List ℕ) → Stands bytes p xs → p ≡ q → Stands bytes q xs
Stands-at bytes p q xs h e = subst (λ (k : ℕ). Stands bytes k xs) e h

pub Stands-append :
    (bytes : List ℕ) (p : ℕ) (xs ys : List ℕ)
    → Stands bytes p (xs ++ ys)
    → Stands bytes p xs × Stands bytes (p + length xs) ys
Stands-append bytes p [] ys h = (tt, Stands-at bytes p (p + 0) ys h (omega arith))
Stands-append bytes p (x ∷ xs) ys (here, h) =
    let (front, back) = Stands-append bytes (p + 1) xs ys h in
    ((here, front), Stands-at bytes (p + 1 + length xs) (p + suc (length xs)) ys back (omega arith))

-- The scalar of a surrogate pair.
abbrev pub pair_scalar : ℕ → ℕ → ℕ
pair_scalar a b = 0x10000 + (a - 0xd800) * 1024 + (b - 0xdc00)

-- The bytes between the quotation marks.
unfoldable pub literal : Text → List ℕ
literal [] = []
literal (a ∷ []) = utf8 (escaped a)
literal (a ∷ b ∷ rest) =
    let pair = literal rest in
    let single = literal (b ∷ rest) in
    if high a && low b then encode (pair_scalar a b) ++ pair else utf8 (escaped a) ++ single

abbrev pub Plain : ℕ → Type 0
Plain a = (high a ≡ false) × (low a ≡ false)

abbrev AllPlain : List ℕ → Type 0
AllPlain [] = Unit {0}
AllPlain (a ∷ rest) = Plain a × AllPlain rest

pub utf8-cons : (a : ℕ) (rest : Text) → Plain a → utf8 (a ∷ rest) ≡ encode a ++ utf8 rest
unfolding utf8
utf8-cons a [] h = rw (h.0, h.1) (sym (append-nil (encode a)))
utf8-cons a (b ∷ rest) h = rw (h.0, h.1) refl

utf8-append : (xs ys : Text) → AllPlain xs → utf8 (xs ++ ys) ≡ utf8 xs ++ utf8 ys
utf8-append [] ys h = unfold utf8 in refl
utf8-append (a ∷ xs) ys (plain, h) =
    utf8-cons a (xs ++ ys) plain
    ∙ rw (utf8-append xs ys h, utf8-cons a xs plain)
        (sym (append_assoc (encode a) (utf8 xs) (utf8 ys)))

escaped-AllPlain : (a : ℕ) → Plain a → a ≤ 0xffff → AllPlain (escaped a)
unfolding escaped
escaped-AllPlain a h u = ground arith

-- A list of UTF-16 code units.
abbrev pub AllUnits : Text → Type 0
AllUnits [] = Unit {0}
AllUnits (a ∷ rest) = (a ≤ 0xffff) × AllUnits rest

escaped-large : (a : ℕ) → 0x5c < a → escaped a ≡ a ∷ []
unfolding escaped
escaped-large a h = ground arith

utf8-pair :
    (a b : ℕ) (rest : Text)
    → high a ≡ true
    → low b ≡ true
    → utf8 (a ∷ b ∷ rest) ≡ encode (pair_scalar a b) ++ utf8 rest
unfolding utf8
utf8-pair a b rest h l = rw (h, l) refl

-- In a well-formed text the unit is plain, or begins a pair.
pub formed_cons :
    (a b : ℕ) (rest : Text)
    → is_well_formed (a ∷ b ∷ rest) ≡ true
    → ((high a && low b) ≡ true) × (is_well_formed rest ≡ true)
      ⊎ ((high a && low b) ≡ false) × (Plain a × (is_well_formed (b ∷ rest) ≡ true))
unfolding is_well_formed
formed_cons a b rest h = elim (Bool-cases (high a && low b)) [
  | inl pair ↦ inl (pair, ground arith)
  | inr single ↦ inr (single, ground arith)
]

pub formed_one : (a : ℕ) → is_well_formed (a ∷ []) ≡ true → Plain a
unfolding is_well_formed
formed_one a h = ground arith

pub literal-pair :
    (a b : ℕ) (rest : Text)
    → (high a && low b) ≡ true
    → literal (a ∷ b ∷ rest) ≡ encode (pair_scalar a b) ++ literal rest
unfolding literal
literal-pair a b rest h = rw h refl

pub literal-single :
    (a b : ℕ) (rest : Text)
    → (high a && low b) ≡ false
    → literal (a ∷ b ∷ rest) ≡ utf8 (escaped a) ++ literal (b ∷ rest)
unfolding literal
literal-single a b rest h = rw h refl

pub utf8-one : (a : ℕ) → Plain a → utf8 (a ∷ []) ≡ encode a
unfolding utf8
utf8-one a h = utf8-cons a [] h ∙ append-nil (encode a)

pub Plain-IsScalar : (a : ℕ) → Plain a → a ≤ 0xffff → IsScalar a
Plain-IsScalar a h u = ground arith

pub pair_code_units :
    (a b : ℕ) → (high a && low b) ≡ true → code_units (pair_scalar a b) ≡ a ∷ b ∷ []
unfolding code_units
pair_code_units a b h = ground arith

utf8-quote : utf8 (0x22 ∷ []) ≡ 0x22 ∷ []
unfolding utf8 encode
utf8-quote = refl

literal-one : (a : ℕ) → literal (a ∷ []) ≡ utf8 (escaped a)
unfolding literal
literal-one a = refl

pub literal-last : (a : ℕ) → literal (a ∷ []) ≡ utf8 (escaped a) ++ literal []
unfolding literal
literal-last a = sym (append-nil (utf8 (escaped a)))

pub literal-empty : literal [] ≡ []
unfolding literal
literal-empty = refl

pair_bounds :
    (a b : ℕ)
    → (high a && low b) ≡ true
    → (high a ≡ true) × (low b ≡ true) × (0x5c < a) × (0x5c < b)
pair_bounds a b h = ground arith

pub utf8-escape_all :
    (s : Text)
    → AllUnits s
    → is_well_formed s ≡ true
    → utf8 (escape_all s ++ 0x22 ∷ []) ≡ literal s ++ 0x22 ∷ []
utf8-escape_all [] u w = unfold utf8 literal encode in refl
utf8-escape_all (a ∷ []) (u, _) w =
    let plain = escaped-AllPlain a (formed_one a w) u in
    ap (λ (x : Text). utf8 (x ++ 0x22 ∷ [])) (append-nil (escaped a))
    ∙ utf8-append (escaped a) (0x22 ∷ []) plain
    ∙ rw (utf8-quote, literal-one a) refl
utf8-escape_all (a ∷ b ∷ rest) (u, (v, us)) w = elim (formed_cons a b rest w) [
  | inl (pair, formed) ↦
      let (h, l, big, large) = pair_bounds a b pair in
      rw (literal-pair a b rest pair, escaped-large a big, escaped-large b large)
        (utf8-pair a b (escape_all rest ++ 0x22 ∷ []) h l
          ∙ rw (utf8-escape_all rest us formed)
              (sym (append_assoc (encode (pair_scalar a b)) (literal rest) (0x22 ∷ []))))
  | inr (single, (plain, formed)) ↦
      (let tail : Text = escape_all (b ∷ rest) in
        rw (literal-single a b rest single) (
          ap utf8 (append_assoc (escaped a) tail (0x22 ∷ []))
          ∙ utf8-append (escaped a) (tail ++ 0x22 ∷ []) (escaped-AllPlain a plain u)
          ∙ rw (utf8-escape_all (b ∷ rest) (v, us) formed)
              (sym (append_assoc (utf8 (escaped a)) (literal (b ∷ rest)) (0x22 ∷ [])))))
]
