-- ===== src/Composition/Profiles.antt =====
-- packages/core/src/features/composition-semantics/profile-census.ts. Diagnostics that the code hands
-- to the collector are returned in that order.
use get_modular.Base.{
  ℕ, ◌+◌, List, [], ◌∷◌, ◌++◌, Option, none, some, Bool, true, false, not, ◌&&◌, ◌==◌,
  if◌then◌else◌, lookup, insert, length, ltb, Text, text_key, text_lt, sort, add_all, contains, map,
}
use get_modular.Composition.Wire.{CompositionProfile, Selection}
use get_modular.Composition.Declarations.{
  DeclarationCensus, DeclaredImplementation, implementation, has_module, group_by, is_empty,
}
use get_modular.Diagnostics.Types.{
  Diagnostic, Code, duplicate_selection, unknown_module, unknown_implementation,
  implementation_mismatch, duplicate_root, unknown_root, missing_selection, profile, nowhere,
  reason, Reason,
}

pub record ProfileCensus : Type 0 where
  pub groups : List (Text × List Selection)
  pub selected : List Text
  pub selected_implementation_ids : List Text
  pub resolved_nodes : Option (List DeclaredImplementation)
  pub resolved_roots : Option (List Text)
  pub selections_unique : Bool
  pub has_errors : Bool

abbrev pub is_selected : ProfileCensus → Text → Bool
is_selected census id = contains census.selected id

-- The selection of a module: `none` is `undefined`, `some none` is `null`.
unfoldable pub selection : ProfileCensus → Text → Option (Option Selection)
selection census id = elim (lookup id census.groups) [
  | none ↦ none
  | some rows ↦ elim rows [
    | [] ↦ some none
    | row ∷ rest ↦ if is_empty rest then some (some row) else some none
  ]
]

abbrev pub profile_diagnostic : Code → Reason → Text → Option Text → Diagnostic
profile_diagnostic code r module_id implementation_id = record {
  code = code;
  phase = profile;
  path = [];
  coordinate = record nowhere { module_id = some module_id; implementation_id = implementation_id };
  details = reason r;
}

-- `ordered`: the strings in ascending order.
abbrev pub ordered : List Text → List Text
ordered = sort text_lt

unfoldable pub selection_groups : CompositionProfile → List (Text × List Selection)
selection_groups p = group_by (λ s. s.module_id) p.selections

unfoldable pub selected_set : CompositionProfile → List Text
selected_set p = add_all [] (map (λ s. s.implementation_id) p.selections)

abbrev pub module_of : DeclaredImplementation → Text
module_of d = d.declaration.module_id

-- `known && known.declaration.moduleId === moduleId`
abbrev pub known_in : Text → Option (Option DeclaredImplementation) → Bool
known_in module_id none = false
known_in module_id (some none) = false
known_in module_id (some (some d)) = module_of d == module_id

abbrev implementation_diagnostics :
    Text → Text → Option (Option DeclaredImplementation) → List Diagnostic
implementation_diagnostics module_id id none =
    profile_diagnostic unknown_implementation Reason.unknown module_id (some id) ∷ []
implementation_diagnostics module_id id (some none) = []
implementation_diagnostics module_id id (some (some d)) =
    if module_of d == module_id
    then []
    else profile_diagnostic implementation_mismatch Reason.mismatch module_id (some id) ∷ []

module _ (declarations : DeclarationCensus) where
  -- One selected implementation of a module.
  unfoldable pub check_implementation : Text → Text → List Diagnostic
  check_implementation module_id id =
      if declarations.identity_census_complete
      then implementation_diagnostics module_id id (implementation declarations id)
      else []

  unfoldable pub check_implementations : Text → List Text → List Diagnostic
  check_implementations module_id [] = []
  check_implementations module_id (id ∷ ids) =
      check_implementation module_id id ++ check_implementations module_id ids

  unfoldable pub all_known_in : Text → List Text → Bool
  all_known_in module_id [] = true
  all_known_in module_id (id ∷ ids) =
      known_in module_id (implementation declarations id) && all_known_in module_id ids

  -- `new Set(rows.map(row => row.implementationId))`
  unfoldable pub implementations_of : List Selection → List Text
  implementations_of rows = add_all [] (map (λ s. s.implementation_id) rows)

  unfoldable pub check_selection_group : Text → List Selection → List Diagnostic
  check_selection_group module_id rows =
      (if ltb 1 (length rows)
        then profile_diagnostic duplicate_selection Reason.duplicate module_id none ∷ []
        else [])
      ++ ((if declarations.module_census_complete && not (has_module declarations module_id)
            then profile_diagnostic unknown_module Reason.unknown module_id none ∷ []
            else [])
          ++ check_implementations module_id (implementations_of rows))

  unfoldable pub check_selection_groups : List (Text × List Selection) → List Diagnostic
  check_selection_groups [] = []
  check_selection_groups ((module_id, rows) ∷ groups) =
      check_selection_group module_id rows ++ check_selection_groups groups

  unfoldable pub selections_resolved : List (Text × List Selection) → Bool
  selections_resolved [] = true
  selections_resolved ((module_id, rows) ∷ groups) =
      not (ltb 1 (length rows))
      && all_known_in module_id (implementations_of rows)
      && selections_resolved groups

  unfoldable pub selections_unique : List (Text × List Selection) → Bool
  selections_unique [] = true
  selections_unique ((module_id, rows) ∷ groups) =
      not (ltb 1 (length rows)) && selections_unique groups

  -- `rows?.length === 1 ? declarations.implementation(rows[0].implementationId) : undefined`
  abbrev pub root_implementation : Option (List Selection) → Option (Option DeclaredImplementation)
  root_implementation none = none
  root_implementation (some []) = none
  root_implementation (some (row ∷ rest)) =
      if is_empty rest then implementation declarations row.implementation_id else none

  abbrev is_missing {ℓ} : {A : Type ℓ} → Option A → Bool
  is_missing none = true
  is_missing (some a) = false

  unfoldable pub check_root : List (Text × List Selection) → Text → ℕ → List Diagnostic
  check_root groups module_id count =
      (if ltb 1 count
        then profile_diagnostic duplicate_root Reason.duplicate module_id none ∷ []
        else [])
      ++ (if declarations.module_census_complete && not (has_module declarations module_id)
          then profile_diagnostic unknown_root Reason.unknown module_id none ∷ []
          else if declarations.module_census_complete && is_missing (lookup module_id groups)
          then profile_diagnostic missing_selection Reason.missing module_id none ∷ []
          else [])

  unfoldable pub check_roots : List (Text × List Selection) → List (Text × ℕ) → List Diagnostic
  check_roots groups [] = []
  check_roots groups ((module_id, count) ∷ roots) =
      check_root groups module_id count ++ check_roots groups roots

  -- What one root resolves to.
  abbrev pub resolve_root : Text → ℕ → Option (Option DeclaredImplementation) → Option Text
  resolve_root module_id count none = none
  resolve_root module_id count (some none) = none
  resolve_root module_id count (some (some d)) =
      if not (ltb 1 count) && (module_of d == module_id)
      then some d.declaration.implementation_id
      else none

  abbrev pub cons_both : Option Text → Option (List Text) → Option (List Text)
  cons_both none rest = none
  cons_both (some id) none = none
  cons_both (some id) (some ids) = some (id ∷ ids)

  -- The resolved implementations in the order of the roots, or `none` if one does not resolve.
  unfoldable pub resolve_roots : List (Text × List Selection) → List (Text × ℕ) → Option (List Text)
  resolve_roots groups [] = some []
  resolve_roots groups ((module_id, count) ∷ roots) =
      cons_both (resolve_root module_id count (root_implementation (lookup module_id groups)))
        (resolve_roots groups roots)

  abbrev cons_known :
      Option (Option DeclaredImplementation)
      → Option (List DeclaredImplementation)
      → Option (List DeclaredImplementation)
  cons_known (some (some d)) (some ds) = some (d ∷ ds)
  cons_known _ _ = none

  unfoldable pub resolve_nodes : List Text → Option (List DeclaredImplementation)
  resolve_nodes [] = some []
  resolve_nodes (id ∷ ids) = cons_known (implementation declarations id) (resolve_nodes ids)

-- `roots.set(moduleId, (roots.get(moduleId) ?? 0) + 1)`
abbrev pub count_occurrence : List (Text × ℕ) → Text → List (Text × ℕ)
count_occurrence counts id = elim (lookup id counts) [
  | none ↦ insert id 1 counts
  | some n ↦ insert id (n + 1) counts
]

unfoldable pub count_from : List (Text × ℕ) → List Text → List (Text × ℕ)
count_from counts [] = counts
count_from counts (id ∷ ids) = count_from (count_occurrence counts id) ids

abbrev pub occurrences : List Text → List (Text × ℕ)
occurrences = count_from []

unfoldable pub profile_diagnostics : CompositionProfile → DeclarationCensus → List Diagnostic
profile_diagnostics p declarations =
    let groups = selection_groups p in
    check_selection_groups declarations groups
    ++ check_roots declarations groups (occurrences p.roots)

-- `resolved ? ordered(result) : null`
abbrev pub ordered_roots : Bool → Option (List Text) → Option (List Text)
ordered_roots resolved none = none
ordered_roots resolved (some ids) = if resolved then some (ordered ids) else none

abbrev if_resolved {ℓ κ} : {A : Type ℓ} {B : Type κ} → Option A → Option B → Option B
if_resolved none b = none
if_resolved (some a) b = b

unfoldable pub create_profile_census : CompositionProfile → DeclarationCensus → ProfileCensus
create_profile_census p declarations =
    let groups = selection_groups p in
    let selected = selected_set p in
    let nodes = resolve_nodes declarations (ordered selected) in
    let roots =
      ordered_roots (selections_resolved declarations groups)
        (resolve_roots declarations groups (occurrences p.roots)) in
    record {
      groups = groups;
      selected = selected;
      selected_implementation_ids = ordered selected;
      resolved_nodes = nodes;
      resolved_roots = if_resolved nodes roots;
      selections_unique = selections_unique declarations groups;
      has_errors = not (is_empty (profile_diagnostics p declarations));
    }
