-- ===== src/Diagnostics/Total.antt =====
-- The order that `compareDiagnostics` of packages/core/src/features/diagnostics/order.ts puts on what
-- it reads of a diagnostic.
use get_modular.Base.{
  ℕ, List, Option, ◌≡◌, refl, sym, ap, ◌∙◌, subst, Text, inl, inr, ◌⊎◌, ◌↔◌, ◌==◌, number_key,
  if◌then◌else◌, Bool-cases,
}
use get_modular.Diagnostics.Types.{
  Diagnostic, Coordinate, PathSegment, field, index, Details, cycle,
}
use get_modular.Diagnostics.Ranks.{phase_rank, code_rank}
use get_modular.Diagnostics.Signs.{
  Sign, negative, neutral, or_else, number_sign, option_sign, text_sign,
}
use get_modular.Diagnostics.Linear.{
  flip, IsLinear, number_sign-IsLinear, pair_sign, pair_sign-IsLinear, or_else-right,
}
use get_modular.Diagnostics.Orders.{
  list_sign-IsLinear, option_sign-IsLinear, text_sign-IsLinear, sum_sign, sum_sign-IsLinear,
}
use get_modular.Diagnostics.Exact.{phase_rank-exact, code_rank-exact}
use get_modular.Diagnostics.Order.{
  compare_coordinates, compare_segments, compare_paths, compare_cycles, compare_bytes,
  compare_details, compare_diagnostics, component_of, is_cycle_code,
}

-- A linear order read through a function.
module _ {ℓ κ} {A : Type ℓ} {B : Type κ} (key : A → B) (sign : B → B → Sign) where
  pulled-IsLinear :
      IsLinear sign → ((a b : A) → key a ≡ key b → a ≡ b) → IsLinear (λ a b. sign (key a) (key b))
  pulled-IsLinear linear injective = record {
    flips = λ a b. linear.flips (key a) (key b);
    trans = λ a b c. linear.trans (key a) (key b) (key c);
    exact = λ a b h. injective a b (linear.exact (key a) (key b) h);
    same = λ a. linear.same (key a);
  }

-- The order of coordinates is that of the tuples of their fields.
abbrev Fields : Type 0
Fields = Option Text × (Option Text × (Option Text × Option Text))

abbrev fields : Coordinate → Fields
fields c = (c.module_id, (c.implementation_id, (c.slot_id, c.provider_implementation_id)))

fields-injective : (a b : Coordinate) → fields a ≡ fields b → a ≡ b
fields-injective a b h = λ i. record {
  module_id = (h i).0;
  implementation_id = (h i).1.0;
  slot_id = (h i).1.1.0;
  provider_implementation_id = (h i).1.1.1;
}

abbrev id_sign : Option Text → Option Text → Sign
id_sign = option_sign text_sign

compare_coordinates-IsLinear : IsLinear compare_coordinates
unfolding compare_coordinates
compare_coordinates-IsLinear =
    let id_linear = option_sign-IsLinear text_sign text_sign-IsLinear in
    pulled-IsLinear fields (pair_sign id_sign (pair_sign id_sign (pair_sign id_sign id_sign)))
      (pair_sign-IsLinear id_sign _ id_linear (
        pair_sign-IsLinear id_sign _ id_linear
          (pair_sign-IsLinear id_sign id_sign id_linear id_linear)))
      fields-injective

-- A field comes before an index.
abbrev segment_key : PathSegment → Text ⊎ ℕ
segment_key (field s) = inl s
segment_key (index n) = inr n

segment_key-injective : (a b : PathSegment) → segment_key a ≡ segment_key b → a ≡ b
segment_key-injective (field s) (field t) h = cc
segment_key-injective (field s) (index n) h = cc
segment_key-injective (index m) (field t) h = cc
segment_key-injective (index m) (index n) h = cc

compare_segments-sum_sign :
    (a b : PathSegment)
    → sum_sign text_sign number_sign (segment_key a) (segment_key b) ≡ compare_segments a b
unfolding compare_segments
compare_segments-sum_sign (field s) (field t) = refl
compare_segments-sum_sign (field s) (index n) = refl
compare_segments-sum_sign (index m) (field t) = refl
compare_segments-sum_sign (index m) (index n) = refl

compare_segments-IsLinear : IsLinear compare_segments
compare_segments-IsLinear =
    subst (λ sign. IsLinear sign) (λ i a b. compare_segments-sum_sign a b i)
      (pulled-IsLinear segment_key (sum_sign text_sign number_sign)
        (sum_sign-IsLinear text_sign number_sign text_sign-IsLinear number_sign-IsLinear)
        segment_key-injective)

-- What the comparator reads of the details: the members of a cycle, or the canonical bytes.
abbrev pub DetailsKey : Type 0
DetailsKey = List Text ⊎ List ℕ

-- What the comparator reads of a diagnostic.
abbrev OrderKey : Type 0
OrderKey = ℕ × (ℕ × (Coordinate × (List PathSegment × DetailsKey)))

abbrev details_order : DetailsKey → DetailsKey → Sign
details_order = sum_sign compare_cycles compare_bytes

abbrev key_order : OrderKey → OrderKey → Sign
key_order =
    pair_sign number_sign (
      pair_sign number_sign (pair_sign compare_coordinates (pair_sign compare_paths details_order)))

key_order-IsLinear : IsLinear key_order
unfolding compare_paths compare_cycles compare_bytes
key_order-IsLinear = pair_sign-IsLinear number_sign _ number_sign-IsLinear (
    pair_sign-IsLinear number_sign _ number_sign-IsLinear (
      pair_sign-IsLinear compare_coordinates _ compare_coordinates-IsLinear (
        pair_sign-IsLinear compare_paths _
          (list_sign-IsLinear compare_segments compare_segments-IsLinear)
          (sum_sign-IsLinear compare_cycles compare_bytes
            (list_sign-IsLinear text_sign text_sign-IsLinear)
            (list_sign-IsLinear number_sign number_sign-IsLinear)))))

module _ (canonicalize : Details → List ℕ) where
  abbrev pub details_key : Diagnostic → DetailsKey
  details_key d =
      if is_cycle_code d.code then inl (component_of d.details) else inr (canonicalize d.details)

  abbrev order_key : Diagnostic → OrderKey
  order_key d = (phase_rank d.phase, (code_rank d.code, (d.coordinate, (d.path, details_key d))))

  compare_details-details_order :
      (a b : Diagnostic)
      → is_cycle_code a.code ≡ is_cycle_code b.code
      → compare_details canonicalize a b ≡ details_order (details_key a) (details_key b)
  unfolding compare_details
  compare_details-details_order a b h = elim (Bool-cases (is_cycle_code b.code)) [
    | inl cyclic ↦ rw (h, compare_details) (rw cyclic refl)
    | inr other ↦ rw (h, compare_details) (rw other refl)
  ]

  compare_diagnostics-key_order :
      (a b : Diagnostic)
      → compare_diagnostics canonicalize a b ≡ key_order (order_key a) (order_key b)
  unfolding compare_diagnostics
  compare_diagnostics-key_order a b =
      let codes = number_sign (code_rank a.code) (code_rank b.code) in
      let places = compare_coordinates a.coordinate b.coordinate in
      let paths = compare_paths a.path b.path in
      let key = details_order (details_key a) (details_key b) in
      ap (or_else (number_sign (phase_rank a.phase) (phase_rank b.phase))) (
        or_else-right codes (or_else places (or_else paths (compare_details canonicalize a b)))
          (or_else places (or_else paths key))
          (λ h.
            let ranks = number_sign-IsLinear.exact (code_rank a.code) (code_rank b.code) h in
            ap (λ s. or_else places (or_else paths s))
              (compare_details-details_order a b (ap (λ r. r == code_rank cycle) ranks))))

  -- Swapping the arguments swaps the sign of the comparison.
  pub compare_diagnostics-flips :
      (a b : Diagnostic)
      → compare_diagnostics canonicalize b a ≡ flip (compare_diagnostics canonicalize a b)
  compare_diagnostics-flips a b =
      rw (compare_diagnostics-key_order a b, compare_diagnostics-key_order b a)
        (key_order-IsLinear.flips (order_key a) (order_key b))

  -- If a diagnostic comes before a second, and that before a third, the first comes before the third.
  pub compare_diagnostics_trans :
      (a b c : Diagnostic)
      → compare_diagnostics canonicalize a b ≡ negative
      → compare_diagnostics canonicalize b c ≡ negative
      → compare_diagnostics canonicalize a c ≡ negative
  compare_diagnostics_trans a b c h k =
      compare_diagnostics-key_order a c
      ∙ key_order-IsLinear.trans (order_key a) (order_key b) (order_key c)
          (sym (compare_diagnostics-key_order a b) ∙ h)
          (sym (compare_diagnostics-key_order b c) ∙ k)

  -- Two diagnostics compare as equal exactly when they have the same phase, code, coordinate and path,
  -- and the same members of the cycle, for a cycle, or the same canonical bytes of the details, for all
  -- others.
  pub compare_diagnostics-neutral_iff :
      (a b : Diagnostic)
      → (compare_diagnostics canonicalize a b ≡ neutral) ↔ (
          (a.phase ≡ b.phase)
          × (a.code ≡ b.code)
          × (a.coordinate ≡ b.coordinate)
          × (a.path ≡ b.path)
          × (details_key a ≡ details_key b))
  compare_diagnostics-neutral_iff a b = (
    λ h.
        let same =
          key_order-IsLinear.exact (order_key a) (order_key b)
            (sym (compare_diagnostics-key_order a b) ∙ h) in
        (
          phase_rank-exact a.phase b.phase (λ i. (same i).0),
          code_rank-exact a.code b.code (λ i. (same i).1.0),
          λ i. (same i).1.1.0,
          λ i. (same i).1.1.1.0,
          λ i. (same i).1.1.1.1,
        ),
    λ (phases, codes, places, paths, details).
        compare_diagnostics-key_order a b
        ∙ subst (λ k. key_order (order_key a) k ≡ neutral)
            (λ i. (phase_rank (phases i), (code_rank (codes i), (places i, (paths i, details i)))))
            (key_order-IsLinear.same (order_key a)),
  )
