-- ===== src/Composition/Inputs.antt =====
-- Two modules, their profile and its plan (packages/core/src/features/composition-semantics).
use get_modular.Base.{
  ascending, count_of, ℕ, List, [], ◌∷◌, Option, none, some, Bool, true, false, ◌≡◌, refl, Text,
  text_lt, ◌==◌, text_key, lookup, ltb, min, ◌+◌,
}
use get_modular.Base.Outcome.{done}
use get_modular.Composition.Wire.{
  CompositionProfile, ModuleDeclaration, CompositionPlan, Cardinality, Compatibility,
}
use get_modular.Composition.Resources.{
  ProfileResourceObservations, ObservedBinding, graph_edges_limit, collect_graph_resource_limits,
}
use get_modular.Composition.Declarations.{
  DeclarationCensus, declaration_diagnostics, create_declaration_census, unique_index,
}
use get_modular.Composition.Profiles.{ProfileCensus, create_profile_census}
use get_modular.Composition.BindingRecord.{validate_binding_record, validate_binding_records}
use get_modular.Composition.Bindings.{SelectedBindings, validate_selected_bindings}
use get_modular.Diagnostics.Types.{Details}
use get_modular.Diagnostics.Collector.{new_collector}
use get_modular.Composition.Analysis.{
  SemanticInput, SemanticResult, accepted, create_plan, selection_lt, analyze_composition_semantics,
}

abbrev pub no_bytes : Details → List ℕ
no_bytes d = []

abbrev pub exact_token : Compatibility
exact_token = record { token = b't' ∷ [] }

-- A module "p" that provides "c", and a module "q" that needs it in slot "s".
abbrev pub provider : ModuleDeclaration
provider = record {
  module_id = b'p' ∷ [];
  implementation_id = b'P' ∷ [];
  provides = record { capability_id = b'c' ∷ []; compatibility = exact_token } ∷ [];
  slots = [];
}

abbrev pub consumer : ModuleDeclaration
consumer = record {
  module_id = b'q' ∷ [];
  implementation_id = b'Q' ∷ [];
  provides = [];
  slots =
      record {
        capability_id = b'c' ∷ [];
        compatibility = exact_token;
        slot_id = b's' ∷ [];
        cardinality = Cardinality.required;
      }
      ∷ [];
}

abbrev pub two_modules : CompositionProfile
two_modules = record {
  profile_id = b'x' ∷ [];
  roots = (b'q' ∷ []) ∷ [];
  selections =
      record { module_id = b'q' ∷ []; implementation_id = b'Q' ∷ [] }
      ∷ record { module_id = b'p' ∷ []; implementation_id = b'P' ∷ [] }
      ∷ [];
  bindings =
      record {
        consumer_implementation_id = b'Q' ∷ [];
        slot_id = b's' ∷ [];
        provider_implementation_ids = (b'P' ∷ []) ∷ [];
      }
      ∷ [];
}

abbrev pub admitted : SemanticInput
admitted = record {
  declarations = consumer ∷ provider ∷ [];
  all_declarations_admitted = true;
  profile = some two_modules;
  profile_resources = some (record {
    selections = two_modules.selections;
    selection_census_complete = true;
    bindings =
        record {
          ordinal = 0;
          consumer_implementation_id = b'Q' ∷ [];
          slot_id = some (b's' ∷ []);
          provider_occurrences = 1;
        }
        ∷ [];
  });
  has_errors = false;
}

abbrev pub two_plan : CompositionPlan
two_plan = record {
  profile_id = b'x' ∷ [];
  roots = (b'q' ∷ []) ∷ [];
  selections =
      record { module_id = b'p' ∷ []; implementation_id = b'P' ∷ [] }
      ∷ record { module_id = b'q' ∷ []; implementation_id = b'Q' ∷ [] }
      ∷ [];
  bindings =
      record {
        consumer_implementation_id = b'Q' ∷ [];
        slot_id = b's' ∷ [];
        provider_implementation_ids = (b'P' ∷ []) ∷ [];
        capability_id = b'c' ∷ [];
        compatibility = exact_token;
      }
      ∷ [];
  dependency_order = (b'P' ∷ []) ∷ (b'Q' ∷ []) ∷ [];
}

pub two_plan_accepted :
    analyze_composition_semantics no_bytes admitted new_collector ≡ done (accepted two_plan)
unfolding get_modular.Base.text_lt get_modular.Base.insert_sorted get_modular.Base.sort
    get_modular.Diagnostics.Signs.or_else get_modular.Diagnostics.Signs.number_sign
    get_modular.Diagnostics.Signs.list_sign get_modular.Diagnostics.Signs.option_sign
    get_modular.Diagnostics.Signs.text_sign get_modular.Diagnostics.Signs.is_negative
    get_modular.Diagnostics.Signs.is_positive get_modular.Diagnostics.Ranks.phase_rank
    get_modular.Diagnostics.Ranks.code_rank get_modular.Diagnostics.Order.compare_coordinates
    get_modular.Diagnostics.Order.compare_segments get_modular.Diagnostics.Order.compare_paths
    get_modular.Diagnostics.Order.compare_cycles get_modular.Diagnostics.Order.compare_bytes
    get_modular.Diagnostics.Order.compare_details get_modular.Diagnostics.Order.compare_diagnostics
    get_modular.Diagnostics.Collector.new_collector get_modular.Diagnostics.Collector.count_failure
    get_modular.Diagnostics.Collector.pop_retained get_modular.Diagnostics.Collector.raise
    get_modular.Diagnostics.Collector.larger_child get_modular.Diagnostics.Collector.lower
    get_modular.Diagnostics.Collector.retain get_modular.Diagnostics.Collector.replace_greatest
    get_modular.Diagnostics.Collector.admit get_modular.Diagnostics.Collector.add_unique
    get_modular.Diagnostics.Collector.add_each get_modular.Diagnostics.Collector.finish
    get_modular.Graph.Queue.new_queue get_modular.Graph.Queue.sift_up get_modular.Graph.Queue.push
    get_modular.Graph.Queue.pop_last get_modular.Graph.Queue.smaller_child
    get_modular.Graph.Queue.sift_down get_modular.Graph.Queue.take
    get_modular.Graph.Components.zeros get_modular.Graph.Components.marked
    get_modular.Graph.Components.open_vertex get_modular.Graph.Components.open_unseen
    get_modular.Graph.Components.visit_frame get_modular.Graph.Components.visit
    get_modular.Graph.Components.rounds get_modular.Graph.Components.visit_root
    get_modular.Graph.Components.first_pass get_modular.Graph.Components.collect_vertex
    get_modular.Graph.Components.collect_targets get_modular.Graph.Components.collect
    get_modular.Graph.Components.collect_root get_modular.Graph.Components.second_pass
    get_modular.Graph.Components.reverse_onto get_modular.Graph.Components.least_lt
    get_modular.Graph.Components.graph_components get_modular.Graph.Residual.count_providers
    get_modular.Graph.Residual.push_ready get_modular.Graph.Residual.census_node
    get_modular.Graph.Residual.census_nodes get_modular.Graph.Residual.settle_consumer
    get_modular.Graph.Residual.settle_consumers get_modular.Graph.Residual.take_node
    get_modular.Graph.Residual.drain_ready get_modular.Graph.Residual.complete_order
    get_modular.Graph.Residual.analyze_residual get_modular.Graph.Closure.rank_from
    get_modular.Graph.Closure.vertex_of get_modular.Graph.Closure.empty_rows
    get_modular.Graph.Closure.add_edge get_modular.Graph.Closure.add_edges
    get_modular.Graph.Closure.build_adjacency get_modular.Graph.Closure.reach
    get_modular.Graph.Closure.reach_roots get_modular.Graph.Closure.reach_providers
    get_modular.Graph.Closure.close get_modular.Graph.Closure.reached_nodes
    get_modular.Graph.Closure.find_root_closure get_modular.Graph.Selected.is_cycle
    get_modular.Graph.Selected.names_of get_modular.Graph.Selected.mark_all
    get_modular.Graph.Selected.find_cycles_in get_modular.Graph.Selected.analyze_graph
    get_modular.Graph.Selected.analyze_selected_graph
    get_modular.Graph.Selected.collect_graph_failures
    get_modular.Composition.Declarations.index_value get_modular.Composition.Declarations.index_from
    get_modular.Composition.Declarations.unique_index
    get_modular.Composition.Declarations.push_group get_modular.Composition.Declarations.group_from
    get_modular.Composition.Declarations.unique_values
    get_modular.Composition.Declarations.repeat_capability
    get_modular.Composition.Declarations.repeat_capabilities
    get_modular.Composition.Declarations.repeat_slot
    get_modular.Composition.Declarations.repeat_slots
    get_modular.Composition.Declarations.sorted_provides
    get_modular.Composition.Declarations.sorted_slots
    get_modular.Composition.Declarations.check_provides
    get_modular.Composition.Declarations.check_slots
    get_modular.Composition.Declarations.check_declarations
    get_modular.Composition.Declarations.declared
    get_modular.Composition.Declarations.declared_of_group
    get_modular.Composition.Declarations.group_diagnostics
    get_modular.Composition.Declarations.groups_diagnostics
    get_modular.Composition.Declarations.groups_implementations
    get_modular.Composition.Declarations.all_single get_modular.Composition.Declarations.module_ids
    get_modular.Composition.Declarations.declaration_groups
    get_modular.Composition.Declarations.declaration_diagnostics
    get_modular.Composition.Declarations.create_declaration_census
    get_modular.Composition.Profiles.selection get_modular.Composition.Profiles.selection_groups
    get_modular.Composition.Profiles.selected_set
    get_modular.Composition.Profiles.check_implementation
    get_modular.Composition.Profiles.check_implementations
    get_modular.Composition.Profiles.all_known_in
    get_modular.Composition.Profiles.implementations_of
    get_modular.Composition.Profiles.check_selection_group
    get_modular.Composition.Profiles.check_selection_groups
    get_modular.Composition.Profiles.selections_resolved
    get_modular.Composition.Profiles.selections_unique get_modular.Composition.Profiles.check_root
    get_modular.Composition.Profiles.check_roots get_modular.Composition.Profiles.resolve_roots
    get_modular.Composition.Profiles.resolve_nodes get_modular.Composition.Profiles.count_from
    get_modular.Composition.Profiles.profile_diagnostics
    get_modular.Composition.Profiles.create_profile_census
    get_modular.Composition.Bindings.push_record get_modular.Composition.Bindings.group_from
    get_modular.Composition.Bindings.group_bindings
    get_modular.Composition.Bindings.check_duplicates get_modular.Composition.Bindings.check_slot
    get_modular.Composition.Bindings.check_slots get_modular.Composition.Bindings.check_consumer
    get_modular.Composition.Bindings.validate_supplied_group
    get_modular.Composition.Bindings.validate_supplied_groups
    get_modular.Composition.Bindings.check_missing_slots
    get_modular.Composition.Bindings.validate_missing_bindings
    get_modular.Composition.Bindings.open_frontiers get_modular.Composition.Bindings.binding_lt
    get_modular.Composition.Bindings.validation_context
    get_modular.Composition.Bindings.validate_selected_bindings
    get_modular.Composition.BindingRecord.allows
    get_modular.Composition.BindingRecord.check_compatibility
    get_modular.Composition.BindingRecord.check_capability
    get_modular.Composition.BindingRecord.check_known_provider
    get_modular.Composition.BindingRecord.check_provider
    get_modular.Composition.BindingRecord.check_providers
    get_modular.Composition.BindingRecord.check_cardinality
    get_modular.Composition.BindingRecord.validate_binding_record
    get_modular.Composition.BindingRecord.sink_count
    get_modular.Composition.BindingRecord.sink_provider get_modular.Composition.BindingRecord.sink
    get_modular.Composition.BindingRecord.sink_all
    get_modular.Composition.BindingRecord.validate_rows
    get_modular.Composition.BindingRecord.validate_binding_records
    get_modular.Composition.Resources.check_many_limit
    get_modular.Composition.Resources.count_bindings
    get_modular.Composition.Resources.collect_graph_resource_limits
    get_modular.Composition.Analysis.provider_edges get_modular.Composition.Analysis.all_complete
    get_modular.Composition.Analysis.unreached
    get_modular.Composition.Analysis.reachability_diagnostics
    get_modular.Composition.Analysis.analyze_nodes get_modular.Composition.Analysis.build_with
    get_modular.Composition.Analysis.build_graph get_modular.Composition.Analysis.selection_lt
    get_modular.Composition.Analysis.create_plan get_modular.Composition.Analysis.plan_with
    get_modular.Composition.Analysis.plan_from get_modular.Composition.Analysis.plan_of
    get_modular.Composition.Analysis.result_of get_modular.Composition.Analysis.analyze_profile
    get_modular.Composition.Analysis.analyze_composition_semantics
two_plan_accepted = refl
