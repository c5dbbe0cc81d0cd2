-- ===== src/Composition/BindingSilence.antt =====
-- Validity and reports of a binding row: `validateBindingRecord` of
-- packages/core/src/features/composition-semantics/binding-record.ts.
use get_modular.Base.{
  ℕ, List, [], ◌∷◌, Option, none, some, Bool, true, false, number_key, ◌≡◌, refl, arith, Text,
  text_key,
}
use get_modular.Diagnostics.Types.{Diagnostic}
use get_modular.Composition.Wire.{Binding, Slot, Capability}
use get_modular.Composition.Declarations.{
  DeclarationCensus, DeclaredImplementation, implementation, capability,
}
use get_modular.Composition.Profiles.{ProfileCensus, occurrences}
use get_modular.Composition.BindingRecord.{
  Checked, report, both, check_cardinality, check_compatibility, check_capability,
  check_known_provider, check_provider, check_providers, validate_binding_record,
}

-- A check that passes reports nothing.
abbrev Silent : Checked → Type 0
Silent c = c.valid ≡ true → c.reported ≡ []

report-Silent : (wrong : Bool) (d : Diagnostic) → Silent (report wrong d)
report-Silent true d h = cc
report-Silent false d h = refl

both-Silent : (a b : Checked) → Silent a → Silent b → Silent (both a b)
both-Silent a b sa sb h = ground (arith, sa, sb)

module _ (declarations : DeclarationCensus) (selected : ProfileCensus) (s : Slot) where
  check_capability-Silent :
      (b : Binding) (id : Text) (c : Option (Option Capability))
      → Silent (check_capability b s id c)
  unfolding check_capability check_compatibility
  check_capability-Silent b id none = λ h. cc
  check_capability-Silent b id (some none) = λ h. cc
  check_capability-Silent b id (some (some c)) = report-Silent _ _

  check_known_provider-Silent :
      (b : Binding) (id : Text) (d : Option (Option DeclaredImplementation)) (complete : Bool)
      → Silent (check_known_provider selected b s id d complete)
  unfolding check_known_provider
  check_known_provider-Silent b id none complete = λ h. cc
  check_known_provider-Silent b id (some none) complete = λ h. cc
  check_known_provider-Silent b id (some (some d)) complete =
      both-Silent _ _ (report-Silent _ _)
        (check_capability-Silent b id (capability d s.capability_id))

  check_providers-Silent :
      (b : Binding) (counts : List (Text × ℕ))
      → Silent (check_providers declarations selected b s counts)
  unfolding check_providers check_provider
  check_providers-Silent b [] = λ h. refl
  check_providers-Silent b ((id, n) ∷ counts) =
      both-Silent _ _
        (both-Silent _ _ (report-Silent _ _) (
          check_known_provider-Silent b id (implementation declarations id)
            declarations.identity_census_complete))
        (check_providers-Silent b counts)

  -- A valid row reports nothing.
  pub validate_binding_record-silent :
      (b : Binding)
      → (validate_binding_record declarations selected b s).valid ≡ true
      → (validate_binding_record declarations selected b s).reported ≡ []
  unfolding validate_binding_record check_cardinality
  validate_binding_record-silent b =
      both-Silent _ _ (report-Silent _ _)
        (check_providers-Silent b (occurrences b.provider_implementation_ids))
