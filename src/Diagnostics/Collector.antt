-- ===== src/Diagnostics/Collector.antt =====
-- `createDiagnosticCollector` of packages/core/src/features/diagnostics/collector.ts: a max heap of the
-- least candidates. The statistics of comparisons, which depend on the engine's sort, are left out, and
-- `snapshot`, which copies a value, is the identity.
use get_modular.Base.{
  ℕ, zero, suc, ◌+◌, ◌-◌, ◌*◌, ◌/◌, List, [], ◌∷◌, ◌++◌, Option, none, some, Bool, true, false,
  if◌then◌else◌, ltb, leb, get_elem?, set, length, sort,
}
use get_modular.Base.Outcome.{Outcome, done, thrown, out_of_fuel, defined, ◌>>=◌}
use get_modular.Diagnostics.Types.{Diagnostic, Details, truncated, Stage, nowhere, omitted}
use get_modular.Diagnostics.Signs.{is_negative, is_positive}
use get_modular.Diagnostics.Order.{compare_diagnostics}

abbrev pub retained_limit : ℕ
retained_limit = 256

abbrev pub maximum_omitted : ℕ
maximum_omitted = 262144

abbrev pub count_ceiling : ℕ
count_ceiling = retained_limit - 1 + maximum_omitted

pub record Collector : Type 0 where
  pub heap : List Diagnostic
  pub count : ℕ
  pub saturated : Bool
  pub peak_retained : ℕ
  pub result : Option (List Diagnostic)

unfoldable pub new_collector : Collector
new_collector = record { heap = []; count = 0; saturated = false; peak_retained = 0; result = none }

unfoldable pub count_failure : Collector → Collector
count_failure c =
    if ltb c.count count_ceiling
    then record c { count = c.count + 1 }
    else record c { saturated = true }

-- `[heap[i], heap[j]] = [heap[j], heap[i]]`, the values being given.
abbrev pub swap : List Diagnostic → ℕ → Diagnostic → ℕ → Diagnostic → List Diagnostic
swap heap i at_i j at_j = set (set heap i at_j) j at_i

unfoldable pub pop_retained : List Diagnostic → List Diagnostic
pop_retained [] = []
pop_retained (d ∷ ds) = let rest = pop_retained ds in elim ds [ [] ↦ [] | _ ∷ _ ↦ d ∷ rest ]

abbrev pub overflow_record : ℕ → Diagnostic
overflow_record n = record {
  code = truncated;
  phase = Stage.output;
  path = [];
  coordinate = nowhere;
  details = omitted n;
}

module _ (canonicalize : Details → List ℕ) where
  abbrev pub above : Diagnostic → Diagnostic → Bool
  above a b = is_positive (compare_diagnostics canonicalize a b)

  abbrev pub below : Diagnostic → Diagnostic → Bool
  below a b = is_negative (compare_diagnostics canonicalize a b)

  -- The first `while` loop. The index falls in each round.
  unfoldable pub raise : ℕ → List Diagnostic → ℕ → Outcome (List Diagnostic)
  raise zero heap index = out_of_fuel
  raise (suc fuel) heap index = elim (ltb 0 index) [
    | false ↦ done heap
    | true ↦ do
      parent ← defined (get_elem? heap ((index - 1) / 2))
      own ← defined (get_elem? heap index)
      elim (below parent own) [
        | false ↦ done heap
        | true ↦ raise fuel (swap heap index own ((index - 1) / 2) parent) ((index - 1) / 2)
      ]
  ]

  unfoldable pub larger_child : List Diagnostic → ℕ → Outcome ℕ
  larger_child heap left = elim (ltb (left + 1) (length heap)) [
    | false ↦ done left
    | true ↦ do
      on_right ← defined (get_elem? heap (left + 1))
      on_left ← defined (get_elem? heap left)
      done (if above on_right on_left then left + 1 else left)
  ]

  -- The `for` loop. The index grows in each round, so as many rounds as elements and one are enough.
  unfoldable pub lower : ℕ → List Diagnostic → ℕ → Outcome (List Diagnostic)
  lower zero heap index = out_of_fuel
  lower (suc fuel) heap index = elim (leb (length heap) (2 * index + 1)) [
    | true ↦ done heap
    | false ↦ do
      child ← larger_child heap (2 * index + 1)
      own ← defined (get_elem? heap index)
      under ← defined (get_elem? heap child)
      elim (below own under) [
        | false ↦ done heap
        | true ↦ lower fuel (swap heap index own child under) child
      ]
  ]

  -- A candidate while there is room.
  unfoldable pub retain : Diagnostic → Collector → Outcome Collector
  retain d c = do
    heap ← raise (suc (length c.heap)) (c.heap ++ d ∷ []) (length c.heap)
    done (record c { heap = heap; peak_retained = suc (length c.heap) })

  -- A candidate when there is none: it takes the place of the greatest, or is dropped.
  unfoldable pub replace_greatest : Diagnostic → Collector → Outcome Collector
  replace_greatest d c = do
    greatest ← defined (get_elem? c.heap 0)
    elim (below d greatest) [
      | false ↦ done c
      | true ↦ do
        heap ← lower (suc (length c.heap)) (set c.heap 0 d) 0
        done (record c { heap = heap })
    ]

  unfoldable pub admit : Diagnostic → Collector → Outcome Collector
  admit d c = elim (ltb (length c.heap) retained_limit) [
    | true ↦ retain d c
    | false ↦ replace_greatest d c
  ]

  unfoldable pub add_unique : Diagnostic → Collector → Outcome Collector
  add_unique d c = elim c.result [ some _ ↦ thrown | none ↦ admit d (count_failure c) ]

  unfoldable pub add_each : List Diagnostic → Collector → Outcome Collector
  add_each [] c = done c
  add_each (d ∷ ds) c = add_unique d c >>= add_each ds

  abbrev completed : List Diagnostic → ℕ → List Diagnostic
  completed sorted count =
      if ltb retained_limit count
      then pop_retained sorted ++ overflow_record (count - length (pop_retained sorted)) ∷ []
      else sorted

  unfoldable pub finish : Collector → Collector × List Diagnostic
  finish c = elim c.result [
    | some ds ↦ (c, ds)
    | none ↦
        let ds = completed (sort below c.heap) c.count in
        (record c { heap = ds; result = some ds }, ds)
  ]
