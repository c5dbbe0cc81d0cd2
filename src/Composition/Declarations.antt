-- ===== src/Composition/Declarations.antt =====
-- packages/core/src/features/composition-semantics/declaration-census.ts. Diagnostics that the code
-- hands to the collector are returned in that order.
use get_modular.Base.{
  ℕ, ◌+◌, List, [], ◌∷◌, ◌++◌, Option, none, some, Bool, true, false, not, ◌&&◌, ◌||◌, ◌==◌,
  number_key, if◌then◌else◌, lookup, insert, length, ltb, Text, text_key, text_lt, sort, add,
  add_all, contains,
}
use get_modular.Composition.Wire.{ModuleDeclaration, Capability, Slot}
use get_modular.Diagnostics.Types.{
  Diagnostic, Code, duplicate_implementation, duplicate_capability, duplicate_slot, declaration,
  field, index, nowhere, reason, Reason, PathSegment,
}

-- `null` marks an ambiguous identity, an absent key an unknown one.
abbrev pub Index {ℓ} : Type ℓ → Type ℓ
Index A = List (Text × Option A)

pub record DeclaredImplementation : Type 0 where
  pub declaration : ModuleDeclaration
  pub capability_index : Index Capability
  pub slot_index : Index Slot
  pub unique_slots : List Slot

pub record DeclarationCensus : Type 0 where
  pub implementations : Index DeclaredImplementation
  pub modules : List Text
  pub identity_census_complete : Bool
  pub module_census_complete : Bool
  pub has_errors : Bool

-- The accessors of the census: `none` is `undefined`, `some none` is `null`.
abbrev pub implementation : DeclarationCensus → Text → Option (Option DeclaredImplementation)
implementation census id = lookup id census.implementations

abbrev pub has_module : DeclarationCensus → Text → Bool
has_module census id = contains census.modules id

abbrev pub capability : DeclaredImplementation → Text → Option (Option Capability)
capability d id = lookup id d.capability_index

abbrev pub slot : DeclaredImplementation → Text → Option (Option Slot)
slot d id = lookup id d.slot_index

module _ {ℓ} {A : Type ℓ} (identity : A → Text) where
  -- `result.set(id, result.has(id) ? null : value)`
  unfoldable pub index_value : Index A → A → Index A
  index_value result value = elim (lookup (identity value) result) [
    | none ↦ insert (identity value) (some value) result
    | some _ ↦ insert (identity value) none result
  ]

  unfoldable pub index_from : Index A → List A → Index A
  index_from result [] = result
  index_from result (value ∷ values) = index_from (index_value result value) values

  unfoldable pub unique_index : List A → Index A
  unique_index values = index_from [] values

  -- `const group = groups.get(id); if (group) {group.push(row);} else {groups.set(id, [row]);}`
  unfoldable pub push_group : List (Text × List A) → A → List (Text × List A)
  push_group groups row = elim (lookup (identity row) groups) [
    | none ↦ insert (identity row) (row ∷ []) groups
    | some group ↦ insert (identity row) (group ++ row ∷ []) groups
  ]

  unfoldable pub group_from : List (Text × List A) → List A → List (Text × List A)
  group_from groups [] = groups
  group_from groups (row ∷ rows) = group_from (push_group groups row) rows

  abbrev pub group_by : List A → List (Text × List A)
  group_by = group_from []

-- `[...slotIndex.values()].filter(slot => slot !== null)`
unfoldable pub unique_values {ℓ} : {A : Type ℓ} → Index A → List A
unique_values [] = []
unique_values ((id, none) ∷ m) = unique_values m
unique_values ((id, some v) ∷ m) = v ∷ unique_values m

-- "provides" and "slots".
abbrev provides_text : Text
provides_text = b'p' ∷ b'r' ∷ b'o' ∷ b'v' ∷ b'i' ∷ b'd' ∷ b'e' ∷ b's' ∷ []

abbrev slots_text : Text
slots_text = b's' ∷ b'l' ∷ b'o' ∷ b't' ∷ b's' ∷ []

abbrev pub declaration_diagnostic : Code → List PathSegment → Text → Option Text → Diagnostic
declaration_diagnostic code path id slot_id = record {
  code = code;
  phase = declaration;
  path = path;
  coordinate = record nowhere { implementation_id = some id; slot_id = slot_id };
  details = reason Reason.duplicate;
}

-- The positions reported so far for one identity, and the diagnostics.
pub record Repeats : Type 0 where
  pub capabilities : List ℕ
  pub slots : List (Text × List ℕ)
  pub reported : List Diagnostic

unfoldable pub repeat_capability : Text → ℕ → Text → Text → Repeats → Repeats
repeat_capability id i current previous seen =
    if not (current == previous) || contains seen.capabilities i then seen else record seen {
      capabilities = add i seen.capabilities;
      reported =
          seen.reported
          ++ declaration_diagnostic duplicate_capability (field provides_text ∷ index i ∷ []) id
              none
            ∷ [];
    }

-- The loop over `provides`: `previous` stands at `i - 1`.
unfoldable pub repeat_capabilities : Text → ℕ → Text → List Capability → Repeats → Repeats
repeat_capabilities id i previous [] seen = seen
repeat_capabilities id i previous (c ∷ cs) seen =
    repeat_capabilities id (i + 1) c.capability_id cs
      (repeat_capability id i c.capability_id previous seen)

abbrev positions_of : Text → Repeats → List ℕ
positions_of slot_id seen = elim (lookup slot_id seen.slots) [ none ↦ [] | some is ↦ is ]

unfoldable pub repeat_slot : Text → ℕ → Text → Text → Repeats → Repeats
repeat_slot id i current previous seen =
    if not (current == previous) || contains (positions_of current seen) i
    then seen
    else record seen {
      slots = insert current (add i (positions_of current seen)) seen.slots;
      reported =
          seen.reported
          ++ declaration_diagnostic duplicate_slot (field slots_text ∷ index i ∷ []) id
              (some current)
            ∷ [];
    }

unfoldable pub repeat_slots : Text → ℕ → Text → List Slot → Repeats → Repeats
repeat_slots id i previous [] seen = seen
repeat_slots id i previous (s ∷ ss) seen =
    repeat_slots id (i + 1) s.slot_id ss (repeat_slot id i s.slot_id previous seen)

unfoldable pub sorted_provides : ModuleDeclaration → List Capability
sorted_provides d = sort (λ a b. text_lt a.capability_id b.capability_id) d.provides

unfoldable pub sorted_slots : ModuleDeclaration → List Slot
sorted_slots d = sort (λ a b. text_lt a.slot_id b.slot_id) d.slots

unfoldable pub check_provides : Text → List Capability → Repeats → Repeats
check_provides id [] seen = seen
check_provides id (c ∷ cs) seen = repeat_capabilities id 1 c.capability_id cs seen

unfoldable pub check_slots : Text → List Slot → Repeats → Repeats
check_slots id [] seen = seen
check_slots id (s ∷ ss) seen = repeat_slots id 1 s.slot_id ss seen

unfoldable pub check_declarations : Text → List ModuleDeclaration → Repeats → Repeats
check_declarations id [] seen = seen
check_declarations id (d ∷ ds) seen =
    check_declarations id ds
      (check_slots id (sorted_slots d) (check_provides id (sorted_provides d) seen))

unfoldable pub declared : ModuleDeclaration → DeclaredImplementation
declared d =
    let slot_index = unique_index (λ s. s.slot_id) (sorted_slots d) in
    record {
      declaration = d;
      capability_index = unique_index (λ c. c.capability_id) (sorted_provides d);
      slot_index = slot_index;
      unique_slots = unique_values slot_index;
    }

-- What stands in `implementations` for the declarations of one identity: the one, or `null`.
unfoldable pub declared_of_group : List ModuleDeclaration → Option DeclaredImplementation
declared_of_group (d ∷ []) = some (declared d)
declared_of_group _ = none

abbrev is_single {ℓ} : {A : Type ℓ} → List A → Bool
is_single (_ ∷ []) = true
is_single _ = false

unfoldable pub group_diagnostics : Text → List ModuleDeclaration → List Diagnostic
group_diagnostics id group =
    (if ltb 1 (length group)
      then declaration_diagnostic duplicate_implementation [] id none ∷ []
      else [])
    ++ (check_declarations id group
        (record { capabilities = []; slots = []; reported = [] })).reported

unfoldable pub groups_diagnostics : List (Text × List ModuleDeclaration) → List Diagnostic
groups_diagnostics [] = []
groups_diagnostics ((id, group) ∷ groups) = group_diagnostics id group ++ groups_diagnostics groups

unfoldable pub groups_implementations :
    List (Text × List ModuleDeclaration) → Index DeclaredImplementation
groups_implementations [] = []
groups_implementations ((id, group) ∷ groups) =
    (id, declared_of_group group) ∷ groups_implementations groups

unfoldable pub all_single {ℓ} : {A : Type ℓ} → List (Text × List A) → Bool
all_single [] = true
all_single ((id, group) ∷ groups) = is_single group && all_single groups

unfoldable pub module_ids : List ModuleDeclaration → List Text
module_ids [] = []
module_ids (d ∷ ds) = d.module_id ∷ module_ids ds

abbrev pub is_empty {ℓ} : {A : Type ℓ} → List A → Bool
is_empty [] = true
is_empty (_ ∷ _) = false

unfoldable pub declaration_groups : List ModuleDeclaration → List (Text × List ModuleDeclaration)
declaration_groups = group_by (λ d. d.implementation_id)

unfoldable pub declaration_diagnostics : List ModuleDeclaration → List Diagnostic
declaration_diagnostics ds = groups_diagnostics (declaration_groups ds)

unfoldable pub create_declaration_census : List ModuleDeclaration → Bool → DeclarationCensus
create_declaration_census declarations all_admitted =
    let groups = declaration_groups declarations in
    record {
      implementations = groups_implementations groups;
      modules = add_all [] (module_ids declarations);
      identity_census_complete = all_admitted && all_single groups;
      module_census_complete = all_admitted;
      has_errors = not (is_empty (declaration_diagnostics declarations));
    }
