-- ===== src/Composition/Examples.antt =====
-- The analysis at concrete inputs (packages/core/src/features/composition-semantics).
use get_modular.Base.{
  IsAscending, map, ascending, count_of, ℕ, List, [], ◌∷◌, Option, none, some, Bool, true, false,
  ◌≡◌, refl, Text, text_lt, ◌==◌, text_key, lookup, ltb, min, ◌+◌,
}
use get_modular.Composition.Wire.{
  CompositionProfile, Selection, Capability, Cardinality, Binding, Slot,
}
use get_modular.Composition.Resources.{
  ProfileResourceObservations, graph_edges_limit, collect_graph_resource_limits,
}
use get_modular.Composition.Declarations.{
  DeclarationCensus, declaration_diagnostics, create_declaration_census, unique_index,
}
use get_modular.Composition.Profiles.{ProfileCensus, create_profile_census}
use get_modular.Composition.BindingRecord.{validate_binding_record, validate_binding_records}
use get_modular.Composition.BindingSpec.{fits_slot, validate_binding_record_lem}
use get_modular.Composition.UniqueIndex.{matching, resolution, unique_index_lem}
use get_modular.Composition.Bindings.{SelectedBindings, validate_selected_bindings}
use get_modular.Composition.PlanOrder.{create_plan_lem}
use get_modular.Composition.RowGroup.{only_fits, validate_binding_records_lem}
use get_modular.Composition.EdgeCount.{input_edges, collect_graph_resource_limits_lem}
use get_modular.Composition.Analysis.{create_plan}
use get_modular.Composition.Accepted.{Established, declared_of, analyze-accepted}
use get_modular.Composition.Inputs.{
  admitted, consumer, exact_token, no_bytes, provider, two_modules, two_plan, two_plan_accepted,
}

analyze-accepted_example :
    (declaration_diagnostics admitted.declarations ≡ [])
    × ((collect_graph_resource_limits admitted.profile_resources (declared_of admitted)).1 ≡ [])
    × ((p : CompositionProfile) × (admitted.profile ≡ some p) × Established admitted p two_plan)
analyze-accepted_example = analyze-accepted no_bytes admitted two_plan two_plan_accepted

abbrev two_declared : DeclarationCensus
two_declared = create_declaration_census (consumer ∷ provider ∷ []) true

abbrev two_selected : ProfileCensus
two_selected = create_profile_census two_modules two_declared

abbrev slot_s : Slot
slot_s = record {
  capability_id = b'c' ∷ [];
  compatibility = exact_token;
  slot_id = b's' ∷ [];
  cardinality = Cardinality.required;
}

abbrev row_s : Binding
row_s = record {
  consumer_implementation_id = b'Q' ∷ [];
  slot_id = b's' ∷ [];
  provider_implementation_ids = (b'P' ∷ []) ∷ [];
}

validate_binding_record_lem_example :
    (validate_binding_record two_declared two_selected row_s slot_s).valid
    ≡ fits_slot two_declared two_selected slot_s row_s
validate_binding_record_lem_example =
    validate_binding_record_lem two_declared two_selected slot_s row_s

row_s_valid : (validate_binding_record two_declared two_selected row_s slot_s).valid ≡ true
unfolding get_modular.Base.text_lt get_modular.Base.insert_sorted get_modular.Base.sort
    get_modular.Composition.Declarations.index_value get_modular.Composition.Declarations.index_from
    get_modular.Composition.Declarations.unique_index
    get_modular.Composition.Declarations.push_group get_modular.Composition.Declarations.group_from
    get_modular.Composition.Declarations.unique_values
    get_modular.Composition.Declarations.repeat_capability
    get_modular.Composition.Declarations.repeat_capabilities
    get_modular.Composition.Declarations.repeat_slot
    get_modular.Composition.Declarations.repeat_slots
    get_modular.Composition.Declarations.sorted_provides
    get_modular.Composition.Declarations.sorted_slots
    get_modular.Composition.Declarations.check_provides
    get_modular.Composition.Declarations.check_slots
    get_modular.Composition.Declarations.check_declarations
    get_modular.Composition.Declarations.declared
    get_modular.Composition.Declarations.declared_of_group
    get_modular.Composition.Declarations.group_diagnostics
    get_modular.Composition.Declarations.groups_diagnostics
    get_modular.Composition.Declarations.groups_implementations
    get_modular.Composition.Declarations.all_single get_modular.Composition.Declarations.module_ids
    get_modular.Composition.Declarations.declaration_groups
    get_modular.Composition.Declarations.declaration_diagnostics
    get_modular.Composition.Declarations.create_declaration_census
    get_modular.Composition.Profiles.selection get_modular.Composition.Profiles.selection_groups
    get_modular.Composition.Profiles.selected_set
    get_modular.Composition.Profiles.check_implementation
    get_modular.Composition.Profiles.check_implementations
    get_modular.Composition.Profiles.all_known_in
    get_modular.Composition.Profiles.implementations_of
    get_modular.Composition.Profiles.check_selection_group
    get_modular.Composition.Profiles.check_selection_groups
    get_modular.Composition.Profiles.selections_resolved
    get_modular.Composition.Profiles.selections_unique get_modular.Composition.Profiles.check_root
    get_modular.Composition.Profiles.check_roots get_modular.Composition.Profiles.resolve_roots
    get_modular.Composition.Profiles.resolve_nodes get_modular.Composition.Profiles.count_from
    get_modular.Composition.Profiles.profile_diagnostics
    get_modular.Composition.Profiles.create_profile_census
    get_modular.Composition.BindingRecord.allows
    get_modular.Composition.BindingRecord.check_compatibility
    get_modular.Composition.BindingRecord.check_capability
    get_modular.Composition.BindingRecord.check_known_provider
    get_modular.Composition.BindingRecord.check_provider
    get_modular.Composition.BindingRecord.check_providers
    get_modular.Composition.BindingRecord.check_cardinality
    get_modular.Composition.BindingRecord.validate_binding_record
    get_modular.Composition.BindingRecord.sink_count
    get_modular.Composition.BindingRecord.sink_provider get_modular.Composition.BindingRecord.sink
    get_modular.Composition.BindingRecord.sink_all
    get_modular.Composition.BindingRecord.validate_rows
    get_modular.Composition.BindingRecord.validate_binding_records
row_s_valid = refl

-- Two records at one coordinate.
validate_binding_records_lem_example :
    (validate_binding_records two_declared two_selected (row_s ∷ row_s ∷ []) slot_s).valid
    ≡ only_fits two_declared two_selected slot_s (row_s ∷ row_s ∷ [])
validate_binding_records_lem_example =
    validate_binding_records_lem two_declared two_selected slot_s (row_s ∷ row_s ∷ [])

-- One binding with more providers than edges are allowed.
abbrev wide : ProfileResourceObservations
wide = record {
  selections = two_modules.selections;
  selection_census_complete = true;
  bindings =
      record {
        ordinal = 0;
        consumer_implementation_id = b'Q' ∷ [];
        slot_id = none;
        provider_occurrences = 300000;
      }
      ∷ [];
}

collect_graph_resource_limits_lem_example :
    (collect_graph_resource_limits (some wide) two_declared).0 ≡ record {
      counted_input_edges = some (min (graph_edges_limit + 1) (input_edges wide));
      edge_limit_exceeded = ltb graph_edges_limit (input_edges wide);
    }
collect_graph_resource_limits_lem_example = collect_graph_resource_limits_lem two_declared wide

abbrev capability_c : Capability
capability_c = record { capability_id = b'c' ∷ []; compatibility = exact_token }

abbrev capability_of : Capability → Text
capability_of c = c.capability_id

-- A capability that is provided twice.
unique_index_lem_example :
    lookup (b'c' ∷ []) (unique_index capability_of (capability_c ∷ capability_c ∷ []))
    ≡ resolution capability_of
        (matching capability_of (b'c' ∷ []) (capability_c ∷ capability_c ∷ []))
unique_index_lem_example =
    unique_index_lem capability_of (b'c' ∷ []) (capability_c ∷ capability_c ∷ [])

abbrev two_bindings : SelectedBindings
two_bindings = validate_selected_bindings two_modules two_declared two_selected

abbrev is_q : Text → Bool
is_q id = id == (b'q' ∷ [])

abbrev selects_q : Selection → Bool
selects_q row = is_q row.module_id

create_plan_lem_example :
    IsAscending (create_plan two_modules two_bindings []).roots
    × IsAscending (
        map
          (λ (row : Selection). row.module_id)
          (create_plan two_modules two_bindings []).selections)
    × (count_of is_q (create_plan two_modules two_bindings []).roots
        ≡ count_of is_q two_modules.roots)
    × (count_of selects_q (create_plan two_modules two_bindings []).selections
        ≡ count_of selects_q two_modules.selections)
create_plan_lem_example = create_plan_lem two_modules two_bindings [] is_q selects_q
