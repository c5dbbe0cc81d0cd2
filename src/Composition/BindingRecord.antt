-- ===== src/Composition/BindingRecord.antt =====
-- packages/core/src/features/composition-semantics/binding-record.ts. Diagnostics that the code hands
-- to the collector are returned in that order.
use get_modular.Base.{
  ℕ, List, [], ◌∷◌, ◌++◌, Option, none, some, Bool, true, false, not, ◌&&◌, ◌==◌, number_key,
  if◌then◌else◌, lookup, insert, length, ltb, leb, Text, text_key, add, contains,
}
use get_modular.Composition.Wire.{Binding, Slot, Capability, Cardinality}
use get_modular.Composition.Declarations.{
  DeclarationCensus, DeclaredImplementation, implementation, capability,
}
use get_modular.Composition.Profiles.{ProfileCensus, is_selected, occurrences}
use get_modular.Diagnostics.Ranks.{code_rank}
use get_modular.Diagnostics.Types.{
  Diagnostic, Code, duplicate_binding, unknown_provider, provider_not_selected, cardinality,
  capability_missing, compatibility_mismatch, binding, nowhere, reason, cardinalities,
  compatibilities, Reason, Coordinate, CardinalityKind, Details,
}

abbrev pub cardinality_kind : Cardinality → CardinalityKind
cardinality_kind Cardinality.required = CardinalityKind.required
cardinality_kind Cardinality.optional = CardinalityKind.optional
cardinality_kind (Cardinality.many min max) = CardinalityKind.many

unfoldable pub allows : Cardinality → ℕ → Bool
allows (Cardinality.many min max) count = leb min count && leb count max
allows Cardinality.required count = count == 1
allows Cardinality.optional count = leb count 1

abbrev pub binding_diagnostic : Code → Coordinate → Details → Diagnostic
binding_diagnostic code coordinate details = record {
  code = code;
  phase = binding;
  path = [];
  coordinate = coordinate;
  details = details;
}

abbrev pub slot_coordinate : Binding → Coordinate
slot_coordinate b = record nowhere {
  implementation_id = some b.consumer_implementation_id;
  slot_id = some b.slot_id;
}

abbrev pub provider_coordinate : Binding → Text → Coordinate
provider_coordinate b id = record (slot_coordinate b) { provider_implementation_id = some id }

-- Diagnostics, and whether the row stays valid.
pub record Checked : Type 0 where
  pub valid : Bool
  pub reported : List Diagnostic

abbrev pub report : Bool → Diagnostic → Checked
report wrong d =
    if wrong
    then record { valid = false; reported = d ∷ [] }
    else record { valid = true; reported = [] }

abbrev pub both : Checked → Checked → Checked
both a b = record { valid = a.valid && b.valid; reported = a.reported ++ b.reported }

unfoldable pub check_compatibility : Binding → Slot → Text → Capability → Checked
check_compatibility b s id c = report (not (c.compatibility.token == s.compatibility.token)) (
    binding_diagnostic compatibility_mismatch (provider_coordinate b id)
      (compatibilities s.compatibility c.compatibility))

-- An absent capability is reported; an ambiguous one only makes the row invalid.
unfoldable pub check_capability : Binding → Slot → Text → Option (Option Capability) → Checked
check_capability b s id none =
    report true
      (binding_diagnostic capability_missing (provider_coordinate b id) (reason Reason.missing))
check_capability b s id (some none) = record { valid = false; reported = [] }
check_capability b s id (some (some c)) = check_compatibility b s id c

unfoldable pub check_known_provider :
    ProfileCensus → Binding → Slot → Text → Option (Option DeclaredImplementation) → Bool → Checked
check_known_provider selected b s id none complete = record {
  valid = false;
  reported =
      if complete
      then binding_diagnostic unknown_provider (provider_coordinate b id) (reason Reason.unknown)
        ∷ []
      else [];
}
check_known_provider selected b s id (some none) complete = record { valid = false; reported = [] }
check_known_provider selected b s id (some (some d)) complete =
    both
      (report (not (is_selected selected id)) (
        binding_diagnostic provider_not_selected (provider_coordinate b id)
          (reason Reason.mismatch)))
      (check_capability b s id (capability d s.capability_id))

module _ (declarations : DeclarationCensus) (selected : ProfileCensus) where
  unfoldable pub check_provider : Binding → Slot → Text → ℕ → Checked
  check_provider b s id count =
      both
        (report (ltb 1 count) (
          binding_diagnostic duplicate_binding (provider_coordinate b id)
            (reason Reason.duplicate)))
        (check_known_provider selected b s id (implementation declarations id)
          declarations.identity_census_complete)

  unfoldable pub check_providers : Binding → Slot → List (Text × ℕ) → Checked
  check_providers b s [] = record { valid = true; reported = [] }
  check_providers b s ((id, count) ∷ providers) =
      both (check_provider b s id count) (check_providers b s providers)

  unfoldable pub check_cardinality : Binding → Slot → Checked
  check_cardinality b s =
      let count = length b.provider_implementation_ids in
      report (not (allows s.cardinality count)) (
        binding_diagnostic cardinality (slot_coordinate b)
          (cardinalities (cardinality_kind s.cardinality) count))

  unfoldable pub validate_binding_record : Binding → Slot → Checked
  validate_binding_record b s =
      both (check_cardinality b s) (check_providers b s (occurrences b.provider_implementation_ids))

-- The candidates that one coordinate group has let through: counts, and providers by code, which its
-- rank stands for.
pub record Seen : Type 0 where
  pub counts : List ℕ
  pub failures : List (ℕ × List Text)

abbrev providers_of : ℕ → Seen → List Text
providers_of code seen = elim (lookup code seen.failures) [ none ↦ [] | some ids ↦ ids ]

abbrev pass : Seen → Diagnostic → Seen × List Diagnostic
pass seen d = (seen, d ∷ [])

unfoldable pub sink_count : Diagnostic → ℕ → Seen → Seen × List Diagnostic
sink_count d count seen =
    if contains seen.counts count
    then (seen, [])
    else (record seen { counts = add count seen.counts }, d ∷ [])

unfoldable pub sink_provider : Diagnostic → Text → Seen → Seen × List Diagnostic
sink_provider d id seen =
    let code = code_rank d.code in
    if contains (providers_of code seen) id then (seen, []) else (
      record seen { failures = insert code (add id (providers_of code seen)) seen.failures },
      d ∷ [],
    )

-- `rowCollector.addUnique`. A cardinality failure carries its count, all others a provider.
unfoldable pub sink : Seen → Diagnostic → Seen × List Diagnostic
sink seen d = elim d.details [
  | cardinalities kind count ↦ sink_count d count seen
  | _ ↦ elim d.coordinate.provider_implementation_id [
    | none ↦ pass seen d
    | some id ↦ sink_provider d id seen
  ]
]

unfoldable pub sink_all : Seen → List Diagnostic → Seen × List Diagnostic
sink_all seen [] = (seen, [])
sink_all seen (d ∷ ds) =
    let (seen', out) = sink seen d in
    let (seen'', rest) = sink_all seen' ds in (seen'', out ++ rest)

module _ (declarations : DeclarationCensus) (selected : ProfileCensus) where
  unfoldable pub validate_rows : Seen → List Binding → Slot → Checked
  validate_rows seen [] s = record { valid = true; reported = [] }
  validate_rows seen (b ∷ bs) s =
      let checked = validate_binding_record declarations selected b s in
      let (seen', out) = sink_all seen checked.reported in
      let rest = validate_rows seen' bs s in
      record { valid = checked.valid && rest.valid; reported = out ++ rest.reported }

  unfoldable pub validate_binding_records : List Binding → Slot → Checked
  validate_binding_records bindings s =
      let rows = validate_rows (record { counts = []; failures = [] }) bindings s in
      record rows { valid = length bindings == 1 && rows.valid }
