-- ===== src/Composition/PlanOrder.antt =====
-- The order of a plan: `createPlan` of
-- packages/core/src/features/composition-semantics/semantic-analysis.ts.
use get_modular.Base.{
  IsAscending, sort-IsAscending, count_of, count_of-sort, List, Bool, ◌≡◌, refl, map, ap, subst, [],
  ◌∷◌, Text, text_lt, sort,
}
use get_modular.Composition.Wire.{CompositionProfile, Selection}
use get_modular.Composition.Bindings.{SelectedBindings}
use get_modular.Composition.Analysis.{create_plan, selection_lt}

map-same : (xs : List Text) → map (λ (x : Text). x) xs ≡ xs
map-same [] = refl
map-same (x ∷ xs) = ap (λ (ys : List Text). x ∷ ys) (map-same xs)

-- In a plan no root precedes the one before it, and neither does the module of a selection, in the
-- order of strings; and the plan has the roots and the selections of the profile: any test holds of
-- as many of them.
pub create_plan_lem :
    (p : CompositionProfile) (bindings : SelectedBindings) (order : List Text)
    (root_test : Text → Bool) (selection_test : Selection → Bool)
    → let plan = create_plan p bindings order in
      IsAscending plan.roots
      × IsAscending (map (λ (row : Selection). row.module_id) plan.selections)
      × (count_of root_test plan.roots ≡ count_of root_test p.roots)
      × (count_of selection_test plan.selections ≡ count_of selection_test p.selections)
unfolding create_plan selection_lt
create_plan_lem p bindings order root_test selection_test = (
  subst IsAscending (map-same (sort text_lt p.roots))
      (sort-IsAscending text_lt (λ (x : Text). x) (λ x y. refl) p.roots),
  sort-IsAscending selection_lt (λ (row : Selection). row.module_id) (λ a b. refl) p.selections,
  count_of-sort text_lt root_test p.roots,
  count_of-sort selection_lt selection_test p.selections,
)
