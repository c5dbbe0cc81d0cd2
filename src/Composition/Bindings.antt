-- ===== src/Composition/Bindings.antt =====
-- packages/core/src/features/composition-semantics/selected-bindings.ts. The mutable parts of the
-- `ValidationContext` are a record that each step returns anew, with the diagnostics so far.
use get_modular.Base.{
  List, [], ◌∷◌, ◌++◌, Option, none, some, Bool, true, false, not, ◌&&◌, ◌||◌, ◌==◌, number_key,
  if◌then◌else◌, lookup, insert, length, ltb, Text, text_key, text_lt, sort,
}
use get_modular.Composition.Wire.{CompositionProfile, Binding, Slot}
use get_modular.Composition.Declarations.{
  DeclarationCensus, DeclaredImplementation, implementation, slot, is_empty,
}
use get_modular.Composition.Profiles.{ProfileCensus, is_selected}
use get_modular.Composition.BindingRecord.{Checked, validate_binding_records}
use get_modular.Diagnostics.Types.{
  Diagnostic, Code, duplicate_record, unknown_consumer, unknown_slot, missing_binding, binding,
  nowhere, reason, Reason,
}

pub record ResolvedBinding : Type 0 where
  pub binding : Binding
  pub slot : Slot

pub record SelectedBindings : Type 0 where
  pub valid_bindings : List ResolvedBinding
  pub frontiers : List (Text × Bool)
  pub has_errors : Bool

-- `frontierComplete`: `frontiers.get(id) === true`.
abbrev pub frontier_complete : SelectedBindings → Text → Bool
frontier_complete bindings id = elim (lookup id bindings.frontiers) [ none ↦ false | some b ↦ b ]

abbrev pub BindingGroups : Type 0
BindingGroups = List (Text × List (Text × List Binding))

-- `slots.get(slotId)?.push(binding)`, or a new list.
unfoldable pub push_record : List (Text × List Binding) → Binding → List (Text × List Binding)
push_record slots b = elim (lookup b.slot_id slots) [
  | none ↦ insert b.slot_id (b ∷ []) slots
  | some records ↦ insert b.slot_id (records ++ b ∷ []) slots
]

abbrev slots_of : Text → BindingGroups → List (Text × List Binding)
slots_of id groups = elim (lookup id groups) [ none ↦ [] | some slots ↦ slots ]

unfoldable pub group_from : BindingGroups → List Binding → BindingGroups
group_from groups [] = groups
group_from groups (b ∷ bs) =
    let id = b.consumer_implementation_id in
    group_from (insert id (push_record (slots_of id groups) b) groups) bs

unfoldable pub group_bindings : CompositionProfile → BindingGroups
group_bindings p = group_from [] p.bindings

pub record Context : Type 0 where
  pub frontiers : List (Text × Bool)
  pub valid_bindings : List ResolvedBinding
  pub reported : List Diagnostic

abbrev pub emit : Diagnostic → Context → Context
emit d c = record c { reported = c.reported ++ d ∷ [] }

abbrev pub emit_if : Bool → Diagnostic → Context → Context
emit_if b d c = if b then emit d c else c

-- `frontiers.set(id, false)`
abbrev pub close_frontier : Text → Context → Context
close_frontier id c = record c { frontiers = insert id false c.frontiers }

abbrev pub close_if : Bool → Text → Context → Context
close_if b id c = if b then close_frontier id c else c

abbrev pub consumer_diagnostic : Code → Reason → Text → Option Text → Diagnostic
consumer_diagnostic code r id slot_id = record {
  code = code;
  phase = binding;
  path = [];
  coordinate = record nowhere { implementation_id = some id; slot_id = slot_id };
  details = reason r;
}

module _ (declarations : DeclarationCensus) (selected : ProfileCensus) where
  -- The first loop of `validateSuppliedGroup`.
  unfoldable pub check_duplicates : Text → List (Text × List Binding) → Context → Context
  check_duplicates id [] c = c
  check_duplicates id ((slot_id, records) ∷ slots) c = check_duplicates id slots (
      if ltb (length records) 2
      then c
      else close_if (is_selected selected id) id
          (emit (consumer_diagnostic duplicate_record Reason.duplicate id (some slot_id)) c))

  -- A row that passed is resolved to its first record; one that failed closes the frontier.
  abbrev pub settle_rows : Text → List Binding → Slot → Checked → Context → Context
  settle_rows id [] s checked c = close_frontier id c
  settle_rows id (b ∷ bs) s checked c =
      let c' = record c { reported = c.reported ++ checked.reported } in
      if checked.valid
      then record c' { valid_bindings = c.valid_bindings ++ record { binding = b; slot = s } ∷ [] }
      else close_frontier id c'

  -- One slot of the second loop.
  unfoldable pub check_slot : Text → Text → List Binding → Option (Option Slot) → Context → Context
  check_slot id slot_id records none c =
      emit_if declarations.identity_census_complete
        (consumer_diagnostic unknown_slot Reason.unknown id (some slot_id)) (close_frontier id c)
  check_slot id slot_id records (some none) c = close_frontier id c
  check_slot id slot_id records (some (some s)) c =
      settle_rows id records s (validate_binding_records declarations selected records s) c

  unfoldable pub check_slots :
      Text → DeclaredImplementation → List (Text × List Binding) → Context → Context
  check_slots id d [] c = c
  check_slots id d ((slot_id, records) ∷ slots) c =
      check_slots id d slots (check_slot id slot_id records (slot d slot_id) c)

  unfoldable pub check_consumer :
      Text → List (Text × List Binding) → Option (Option DeclaredImplementation) → Context → Context
  check_consumer id slots none c =
      emit_if declarations.identity_census_complete
        (consumer_diagnostic unknown_consumer Reason.unknown id none)
        (close_if (is_selected selected id) id c)
  check_consumer id slots (some none) c = close_if (is_selected selected id) id c
  check_consumer id slots (some (some d)) c =
      if is_selected selected id then check_slots id d slots c else c

  unfoldable pub validate_supplied_group : Text → List (Text × List Binding) → Context → Context
  validate_supplied_group id slots c =
      check_consumer id slots (implementation declarations id) (check_duplicates id slots c)

  unfoldable pub validate_supplied_groups : BindingGroups → Context → Context
  validate_supplied_groups [] c = c
  validate_supplied_groups ((id, slots) ∷ groups) c =
      validate_supplied_groups groups (validate_supplied_group id slots c)

  abbrev has_records : Text → List (Text × List Binding) → Bool
  has_records slot_id slots = elim (lookup slot_id slots) [ none ↦ false | some records ↦ true ]

  unfoldable pub check_missing_slots :
      Text → List (Text × List Binding) → List Slot → Context → Context
  check_missing_slots id records [] c = c
  check_missing_slots id records (s ∷ ss) c = check_missing_slots id records ss (
      if has_records s.slot_id records
      then c
      else emit (consumer_diagnostic missing_binding Reason.missing id (some s.slot_id))
          (close_frontier id c))

  abbrev pub check_missing_of :
      Text → List (Text × List Binding) → Option (Option DeclaredImplementation) → Context → Context
  check_missing_of id records (some (some d)) c =
      check_missing_slots id records d.unique_slots
        (close_if (not (length d.unique_slots == length d.declaration.slots)) id c)
  check_missing_of id records _ c = close_frontier id c

  unfoldable pub validate_missing_bindings : BindingGroups → List Text → Context → Context
  validate_missing_bindings groups [] c = c
  validate_missing_bindings groups (id ∷ ids) c =
      validate_missing_bindings groups ids
        (check_missing_of id (slots_of id groups) (implementation declarations id) c)

unfoldable pub open_frontiers : List Text → List (Text × Bool) → List (Text × Bool)
open_frontiers [] frontiers = frontiers
open_frontiers (id ∷ ids) frontiers = open_frontiers ids (insert id true frontiers)

-- By consumer, then by slot.
unfoldable pub binding_lt : ResolvedBinding → ResolvedBinding → Bool
binding_lt a b =
    text_lt a.binding.consumer_implementation_id b.binding.consumer_implementation_id
    || (a.binding.consumer_implementation_id == b.binding.consumer_implementation_id
        && text_lt a.binding.slot_id b.binding.slot_id)

unfoldable pub validation_context : CompositionProfile → DeclarationCensus → ProfileCensus → Context
validation_context p declarations selected =
    let groups = group_bindings p in
    let start : Context = record {
      frontiers = open_frontiers selected.selected_implementation_ids [];
      valid_bindings = [];
      reported = [];
    } in
    validate_missing_bindings declarations selected groups selected.selected_implementation_ids
      (validate_supplied_groups declarations selected groups start)

unfoldable pub validate_selected_bindings :
    CompositionProfile → DeclarationCensus → ProfileCensus → SelectedBindings
validate_selected_bindings p declarations selected =
    let c = validation_context p declarations selected in
    record {
      valid_bindings = sort binding_lt c.valid_bindings;
      frontiers = c.frontiers;
      has_errors = not (is_empty c.reported);
    }
