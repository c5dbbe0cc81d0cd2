-- ===== src/Scanner/Text.antt =====
-- What a string token says of its text, and an account of UTF-16 texts that is independent of the
-- scanner (packages/core/src/features/raw-scanner/owned-iterative/scanner.ts: `accountStringUnit`).
use get_modular.Base.{
  ℕ, ◌+◌, ◌-◌, ◌≤◌, ◌<◌, ◌≡◌, refl, List, [], ◌∷◌, ◌++◌, Bool, true, false, not, ◌&&◌, arith,
  number_key, if◌then◌else◌, leb, inl, inr, Bool-cases, ◌/◌, ◌%◌, ap, ◌∙◌,
}
use mathlib.Core.List.{append_assoc, append-nil}
use get_modular.Scanner.Bytes.{within, scalar_bytes}
use get_modular.Scanner.Strings.{
  StringState, account_string_unit, account_unit, close_string, code_units,
}

abbrev pub high : ℕ → Bool
high = within 0xd800 0xdbff

abbrev pub low : ℕ → Bool
low = within 0xdc00 0xdfff

-- The length in UTF-8 of a UTF-16 text: a surrogate pair takes four bytes, a lone surrogate three.
unfoldable pub utf8_size : List ℕ → ℕ
unfolding scalar_bytes
utf8_size [] = 0
utf8_size (a ∷ []) = scalar_bytes a
utf8_size (a ∷ b ∷ rest) =
    let pair = utf8_size rest in
    let single = utf8_size (b ∷ rest) in
    if high a && low b then 4 + pair else scalar_bytes a + single

-- Each surrogate stands in a pair.
unfoldable pub is_well_formed : List ℕ → Bool
is_well_formed [] = true
is_well_formed (a ∷ []) = not (high a) && not (low a)
is_well_formed (a ∷ b ∷ rest) =
    let pair = is_well_formed rest in
    let single = is_well_formed (b ∷ rest) in
    if high a && low b then pair else not (high a) && not (low a) && single

-- The first unit, if it is a pending high surrogate. (Which one it is makes no difference.)
abbrev pending_unit : Bool → List ℕ
pending_unit true = 0xd800 ∷ []
pending_unit false = []

-- The state describes the text read so far, whatever text follows.
pub record Accounts (text : List ℕ) (state : StringState) : Type 0 where
  pub size :
      (rest : List ℕ)
      → utf8_size (text ++ rest)
        ≡ state.decoded_utf8_bytes + utf8_size (pending_unit state.pending_high_surrogate ++ rest)
  pub well_formed :
      (rest : List ℕ)
      → is_well_formed (text ++ rest) ≡ (
          state.well_formed_utf16
          && is_well_formed (pending_unit state.pending_high_surrogate ++ rest))

utf8_size-pair :
    (a b : ℕ) (r : List ℕ) → high a ≡ true → low b ≡ true → utf8_size (a ∷ b ∷ r) ≡ 4 + utf8_size r
unfolding utf8_size
utf8_size-pair a b r h l = ground arith

utf8_size-other :
    (a b : ℕ) (r : List ℕ)
    → low b ≡ false
    → utf8_size (a ∷ b ∷ r) ≡ scalar_bytes a + utf8_size (b ∷ r)
unfolding utf8_size
utf8_size-other a b r l = ground arith

utf8_size-cons :
    (a : ℕ) (r : List ℕ) → high a ≡ false → utf8_size (a ∷ r) ≡ scalar_bytes a + utf8_size r
unfolding utf8_size
utf8_size-cons a [] h = omega arith
utf8_size-cons a (b ∷ r) h = ground arith

utf8_size-high : (a : ℕ) (r : List ℕ) → high a ≡ true → utf8_size (a ∷ r) ≡ utf8_size (0xd800 ∷ r)
unfolding utf8_size
utf8_size-high a [] h = ground arith
utf8_size-high a (b ∷ r) h = ground arith

-- One unit, accounted in front of any text.
module _ (rest : List ℕ) where
  plain_size :
      (unit : ℕ) (p : Bool)
      → unit ≤ 0xffff
      → utf8_size (pending_unit p ++ (unit ∷ rest)) ≡ (
          if p
          then (if low unit then 4 + utf8_size rest else 3 + utf8_size (unit ∷ rest))
          else utf8_size (unit ∷ rest))
  unfolding scalar_bytes
  plain_size unit false b = refl
  plain_size unit true b =
      ground (arith, utf8_size-pair 0xd800 unit rest, utf8_size-other 0xd800 unit rest)

  account_plain :
      (state : StringState) (unit : ℕ)
      → unit ≤ 0xffff
      → state.decoded_utf8_bytes
          + utf8_size (pending_unit state.pending_high_surrogate ++ (code_units unit ++ rest))
        ≡ (account_string_unit state unit).decoded_utf8_bytes
          + utf8_size (pending_unit (account_string_unit state unit).pending_high_surrogate ++ rest)
  unfolding account_string_unit account_unit code_units scalar_bytes
  account_plain state unit b = ground (
    arith,
    plain_size unit state.pending_high_surrogate,
    utf8_size-cons unit rest,
    utf8_size-high unit rest,
  )

  account_supplementary :
      (state : StringState) (unit : ℕ)
      → 0xffff < unit
      → unit ≤ 0x10ffff
      → state.decoded_utf8_bytes
          + utf8_size (pending_unit state.pending_high_surrogate ++ (code_units unit ++ rest))
        ≡ (account_string_unit state unit).decoded_utf8_bytes
          + utf8_size (pending_unit (account_string_unit state unit).pending_high_surrogate ++ rest)
  unfolding account_string_unit account_unit code_units scalar_bytes
  account_supplementary state unit a b =
      let h = 0xd800 + (unit - 0x10000) / 1024 in
      let l = 0xdc00 + (unit - 0x10000) % 1024 in
      ground (arith, utf8_size-pair h l rest, utf8_size-other 0xd800 h (l ∷ rest))

  account_size :
      (state : StringState) (unit : ℕ)
      → unit ≤ 0x10ffff
      → state.decoded_utf8_bytes
          + utf8_size (pending_unit state.pending_high_surrogate ++ (code_units unit ++ rest))
        ≡ (account_string_unit state unit).decoded_utf8_bytes
          + utf8_size (pending_unit (account_string_unit state unit).pending_high_surrogate ++ rest)
  account_size state unit b = elim (Bool-cases (leb unit 0xffff)) [
    | inl small ↦ account_plain state unit (ground arith)
    | inr large ↦ account_supplementary state unit (ground arith) b
  ]

account_well_formed :
    (state : StringState) (unit : ℕ) (rest : List ℕ)
    → unit ≤ 0x10ffff
    → (state.well_formed_utf16
        && is_well_formed (pending_unit state.pending_high_surrogate ++ (code_units unit ++ rest)))
      ≡ ((account_string_unit state unit).well_formed_utf16
          && is_well_formed
              (pending_unit (account_string_unit state unit).pending_high_surrogate ++ rest))
unfolding account_string_unit account_unit code_units scalar_bytes is_well_formed
account_well_formed state unit [] b = ground arith
account_well_formed state unit (c ∷ rest) b = ground arith

-- The text of the next state is one unit longer, and the state accounts for it.
pub account-Accounts :
    (text : List ℕ) (state : StringState) (unit : ℕ)
    → unit ≤ 0x10ffff
    → Accounts text state
    → Accounts (text ++ code_units unit) (account_string_unit state unit)
account-Accounts text state unit b h = record {
  size = λ rest.
      ap utf8_size (append_assoc text (code_units unit) rest)
      ∙ h.size (code_units unit ++ rest)
      ∙ account_size rest state unit b;
  well_formed = λ rest.
      ap is_well_formed (append_assoc text (code_units unit) rest)
      ∙ h.well_formed (code_units unit ++ rest)
      ∙ account_well_formed state unit rest b;
}

-- At the closing quotation mark the state tells the size of the text and whether it is well formed.
pub close_string-Accounts :
    (text : List ℕ) (state : StringState)
    → Accounts text state
    → ((close_string state).decoded_utf8_bytes ≡ utf8_size text)
      × ((close_string state).well_formed_utf16 ≡ is_well_formed text)
unfolding close_string utf8_size is_well_formed scalar_bytes
close_string-Accounts text state h = ground (arith, append-nil text, h.size [], h.well_formed [])
