-- ===== src/Composition/BindingSpec.antt =====
-- What makes a binding row valid: `validateBindingRecord` of
-- packages/core/src/features/composition-semantics/binding-record.ts.
use get_modular.Base.{
  ℕ, ◌+◌, ◌<◌, List, [], ◌∷◌, Option, none, some, Bool, true, false, not, ◌&&◌, ◌||◌, ◌==◌,
  number_key, ◌≡◌, inl, inr, refl, ◌∙◌, arith, lookup, insert, length, ltb, Text, text_key,
  contains, Option-cases, text_eqb_iff,
}
use get_modular.Composition.Wire.{Binding, Slot, Capability}
use get_modular.Composition.Declarations.{
  DeclarationCensus, DeclaredImplementation, implementation, capability,
}
use get_modular.Composition.Profiles.{
  ProfileCensus, is_selected, occurrences, count_from, count_occurrence,
}
use get_modular.Composition.BindingRecord.{
  allows, check_cardinality, check_compatibility, check_capability, check_known_provider,
  check_provider, check_providers, validate_binding_record,
}

-- No string occurs twice.
distinct : List Text → Bool
distinct [] = true
distinct (id ∷ ids) = not (contains ids id) && distinct ids

-- Counts are positive; a string is counted; none of the strings is.
positive : List (Text × ℕ) → Bool
positive [] = true
positive ((id, n) ∷ counts) = ltb 0 n && positive counts

has : List (Text × ℕ) → Text → Bool
has [] id = false
has ((x, n) ∷ counts) id = (x == id) || has counts id

fresh : List (Text × ℕ) → List Text → Bool
fresh counts [] = true
fresh counts (id ∷ ids) = not (has counts id) && fresh counts ids

has-none : (id : Text) (counts : List (Text × ℕ)) → lookup id counts ≡ none → has counts id ≡ false
unfolding has
has-none id [] h = refl
has-none id ((x, n) ∷ counts) h = ground (arith, has-none id counts)

has-some :
    (id : Text) (counts : List (Text × ℕ)) (n : ℕ)
    → positive counts ≡ true
    → lookup id counts ≡ some n
    → (has counts id ≡ true) × (0 < n)
unfolding has positive
has-some id [] n p h = cc
has-some id ((x, k) ∷ counts) n p h = ground (arith, has-some id counts n)

positive-insert :
    (id : Text) (n : ℕ) (counts : List (Text × ℕ))
    → positive counts ≡ true
    → 0 < n
    → positive (insert id n counts) ≡ true
unfolding positive
positive-insert id n [] p l = ground arith
positive-insert id n ((x, k) ∷ counts) p l = ground (arith, positive-insert id n counts)

has-insert :
    (id x : Text) (n : ℕ) (counts : List (Text × ℕ))
    → has (insert id n counts) x ≡ (has counts x || (id == x))
unfolding has
has-insert id x n [] = ground arith
has-insert id x n ((y, k) ∷ counts) =
    ground (arith, has-insert id x n counts, text_eqb_iff y id, text_eqb_iff y x, text_eqb_iff id x)

fresh-insert :
    (id : Text) (n : ℕ) (counts : List (Text × ℕ)) (ids : List Text)
    → fresh (insert id n counts) ids ≡ (fresh counts ids && not (contains ids id))
unfolding fresh
fresh-insert id n counts [] = refl
fresh-insert id n counts (x ∷ ids) =
    rw (has-insert id x n counts, fresh-insert id n counts ids)
      (ground (arith, text_eqb_iff id x, text_eqb_iff x id))

fresh-empty : (ids : List Text) → fresh [] ids ≡ true
unfolding fresh has
fresh-empty [] = refl
fresh-empty (id ∷ ids) = fresh-empty ids

count_occurrence-none :
    (id : Text) (counts : List (Text × ℕ))
    → lookup id counts ≡ none
    → count_occurrence counts id ≡ insert id 1 counts
count_occurrence-none id counts h = rw (h, count_occurrence) refl

count_occurrence-some :
    (id : Text) (counts : List (Text × ℕ)) (n : ℕ)
    → lookup id counts ≡ some n
    → count_occurrence counts id ≡ insert id (n + 1) counts
count_occurrence-some id counts n h = rw (h, count_occurrence) refl

module _ (declarations : DeclarationCensus) (selected : ProfileCensus) (s : Slot) where
  -- The capability that a provider offers for the slot: it is declared once, and so is its capability.
  abbrev offers : Option (Option Capability) → Bool
  offers (some (some c)) = c.compatibility.token == s.compatibility.token
  offers _ = false

  abbrev declares : Option (Option DeclaredImplementation) → Bool
  declares (some (some d)) = offers (capability d s.capability_id)
  declares _ = false

  -- A provider that fits: it is declared once, selected, and offers the capability with the token.
  fits : Text → Bool
  fits id = declares (implementation declarations id) && is_selected selected id

  all_fit : List Text → Bool
  all_fit [] = true
  all_fit (id ∷ ids) = fits id && all_fit ids

  -- A row that fits its slot.
  pub fits_slot : Binding → Bool
  fits_slot b =
      allows s.cardinality (length b.provider_implementation_ids)
      && (distinct b.provider_implementation_ids && all_fit b.provider_implementation_ids)

  check_capability-offers :
      (b : Binding) (id : Text) (c : Option (Option Capability))
      → (check_capability b s id c).valid ≡ offers c
  unfolding check_capability check_compatibility
  check_capability-offers b id none = refl
  check_capability-offers b id (some none) = refl
  check_capability-offers b id (some (some c)) = ground arith

  check_known_provider-declares :
      (b : Binding) (id : Text) (d : Option (Option DeclaredImplementation)) (complete : Bool)
      → (check_known_provider selected b s id d complete).valid
        ≡ (declares d && is_selected selected id)
  unfolding check_known_provider
  check_known_provider-declares b id none complete = refl
  check_known_provider-declares b id (some none) complete = refl
  check_known_provider-declares b id (some (some d)) complete =
      ground (arith, check_capability-offers b id (capability d s.capability_id))

  check_provider-fits :
      (b : Binding) (id : Text) (count : ℕ)
      → (check_provider declarations selected b s id count).valid ≡ (not (ltb 1 count) && fits id)
  unfolding check_provider fits
  check_provider-fits b id count = ground (
    arith,
    check_known_provider-declares b id (implementation declarations id)
        declarations.identity_census_complete,
  )

  -- The counted providers all occur once and fit.
  pass : List (Text × ℕ) → Bool
  pass [] = true
  pass ((id, n) ∷ counts) = (not (ltb 1 n) && fits id) && pass counts

  check_providers-pass :
      (b : Binding) (counts : List (Text × ℕ))
      → (check_providers declarations selected b s counts).valid ≡ pass counts
  unfolding check_providers pass
  check_providers-pass b [] = refl
  check_providers-pass b ((id, n) ∷ counts) =
      rw (check_provider-fits b id n, check_providers-pass b counts) refl

  pass-fresh :
      (id : Text) (counts : List (Text × ℕ))
      → lookup id counts ≡ none
      → pass (insert id 1 counts) ≡ (pass counts && fits id)
  unfolding pass
  pass-fresh id [] h = ground arith
  pass-fresh id ((x, n) ∷ counts) h = ground (arith, pass-fresh id counts)

  pass-known :
      (id : Text) (counts : List (Text × ℕ)) (n m : ℕ)
      → lookup id counts ≡ some n
      → 1 < m
      → pass (insert id m counts) ≡ false
  unfolding pass
  pass-known id [] n m h l = cc
  pass-known id ((x, k) ∷ counts) n m h l = ground (arith, pass-known id counts n m)

  pass-count_occurrence :
      (id : Text) (counts : List (Text × ℕ))
      → positive counts ≡ true
      → (pass (count_occurrence counts id) ≡ (pass counts && (not (has counts id) && fits id)))
        × (positive (count_occurrence counts id) ≡ true)
        × ((ids : List Text)
            → fresh (count_occurrence counts id) ids ≡ (fresh counts ids && not (contains ids id)))
  pass-count_occurrence id counts p = elim (Option-cases (lookup id counts)) [
    | inl absent ↦
        rw (count_occurrence-none id counts absent, has-none id counts absent)
          (
            pass-fresh id counts absent,
            positive-insert id 1 counts p (omega arith),
            fresh-insert id 1 counts,
          )
    | inr (n, present) ↦
        let (known, above_zero) = has-some id counts n p present in
        rw (count_occurrence-some id counts n present, known)
          (
            pass-known id counts n (n + 1) present (omega (arith, above_zero)) ∙ ground arith,
            positive-insert id (n + 1) counts p (omega arith),
            fresh-insert id (n + 1) counts,
          )
  ]

  pass-count_from :
      (counts : List (Text × ℕ)) (ids : List Text)
      → positive counts ≡ true
      → pass (count_from counts ids)
        ≡ (pass counts && (distinct ids && all_fit ids && fresh counts ids))
  unfolding count_from distinct all_fit fresh
  pass-count_from counts [] p = ground arith
  pass-count_from counts (id ∷ ids) p =
      let (passed, still, renewed) = pass-count_occurrence id counts p in
      rw (pass-count_from (count_occurrence counts id) ids still, passed, renewed ids)
        (ground arith)

  check_cardinality-allows :
      (b : Binding)
      → (check_cardinality declarations selected b s).valid
        ≡ allows s.cardinality (length b.provider_implementation_ids)
  unfolding check_cardinality
  check_cardinality-allows b = ground arith

  -- A row is valid exactly when the number of its providers is allowed, no provider occurs twice, and
  -- each of them is declared once, is selected, and offers the slot's capability, declared once, with the
  -- slot's token.
  pub validate_binding_record_lem :
      (b : Binding) → (validate_binding_record declarations selected b s).valid ≡ fits_slot b
  unfolding validate_binding_record check_cardinality fits_slot positive pass fresh
  validate_binding_record_lem b =
      let ids = b.provider_implementation_ids in
      rw (check_providers-pass b (occurrences ids)) (
        rw (pass-count_from [] ids refl, fresh-empty ids, check_cardinality-allows b)
          (ground arith))
