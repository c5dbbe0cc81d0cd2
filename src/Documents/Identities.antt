-- ===== src/Documents/Identities.antt =====
-- `matchesFormat` of packages/core/src/features/input-admission/identity-format.ts
pub mod Words
use get_modular.Base.{
  ℕ, ◌≡◌, ◌≢◌, ◌⊎◌, ◌↔◌, inl, inr, refl, List, [], ◌∷◌, ◌++◌, Option, none, some, Bool, true, false,
  not, ◌&&◌, ◌||◌, ◌==◌, arith, number_key, leb, if◌then◌else◌, Text, subst, sym, ap,
}
use mathlib.Core.List.{append_assoc}

abbrev pub is_letter : ℕ → Bool
is_letter code = leb 97 code && leb code 122

abbrev pub is_number : ℕ → Bool
is_number code = leb 48 code && leb code 57

-- The variables of the loop.
pub record FormatState : Type 0 where
  pub needs_letter : Bool
  pub needs_alphanumeric : Bool
  pub slash_seen : Bool

-- A round, or `none` for `return false`.
unfoldable pub format_round : Bool → ℕ → FormatState → Option FormatState
format_round portable code s =
    let letter = is_letter code in
    let digit = is_number code in
    if s.needs_letter
    then (if not letter then none else some (record s { needs_letter = false }))
    else if s.needs_alphanumeric
    then (if not letter && not digit then none else some (record s { needs_alphanumeric = false }))
    else if code == 45
    then some (record s { needs_alphanumeric = true })
    else if code == 47 && portable
    then some (record s { needs_letter = true; slash_seen = true })
    else if not letter && not digit
    then none
    else some s

unfoldable pub format_loop : Bool → Text → FormatState → Bool
unfolding format_round
format_loop portable [] s =
    not s.needs_letter && not s.needs_alphanumeric && (not portable || s.slash_seen)
format_loop portable (code ∷ rest) s = elim (format_round portable code s) [
  | none ↦ false
  | some next ↦ format_loop portable rest next
]

unfoldable pub matches_format : Text → Bool → Bool
unfolding format_loop
matches_format value portable =
    format_loop portable value
      (record { needs_letter = true; needs_alphanumeric = false; slash_seen = false })

unfoldable pub is_portable_id_format : Text → Bool
unfolding matches_format
is_portable_id_format value = matches_format value true

unfoldable pub is_local_token_format : Text → Bool
unfolding matches_format
is_local_token_format value = matches_format value false
