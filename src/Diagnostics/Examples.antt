-- ===== src/Diagnostics/Examples.antt =====
-- The diagnostics at concrete inputs (packages/core/src/features/diagnostics).
use get_modular.Base.{
  Bool, true, arith, ascending, count_of, ℕ, List, [], ◌∷◌, some, ◌≡◌, ◌↔◌, refl, length, min, ltb,
}
use get_modular.Base.Outcome.{done}
use get_modular.Diagnostics.Types.{
  Diagnostic, Details, missing_binding, unknown_slot, cycle, Stage, nowhere, reason, Reason,
  component,
}
use get_modular.Diagnostics.Signs.{negative, neutral, or_else, number_sign}
use get_modular.Diagnostics.Ranks.{phase_rank, code_rank}
use get_modular.Diagnostics.Order.{compare_diagnostics, is_cycle_code}
use get_modular.Diagnostics.Linear.{flip}
use get_modular.Diagnostics.Collector.{
  Collector, below, new_collector, add_each, finish, retained_limit, count_ceiling,
}
use get_modular.Diagnostics.Counting.{collect_lem}
use get_modular.Diagnostics.Contents.{finish_lem}
use get_modular.Diagnostics.Total.{
  compare_diagnostics-flips, compare_diagnostics_trans, compare_diagnostics-neutral_iff,
  details_key,
}

-- A provider of canonical bytes that tells details apart by their kind only.
abbrev kind_bytes : Details → List ℕ
kind_bytes (reason r) = 1 ∷ []
kind_bytes _ = 2 ∷ []

abbrev missing : Diagnostic
missing = record {
  code = missing_binding;
  phase = Stage.binding;
  path = [];
  coordinate = record nowhere { implementation_id = some (b'a' ∷ []) };
  details = reason Reason.missing;
}

abbrev unknown : Diagnostic
unknown = record missing { code = unknown_slot; details = reason Reason.unknown }

abbrev cyclic : Diagnostic
cyclic = record {
  code = cycle;
  phase = Stage.graph;
  path = [];
  coordinate = nowhere;
  details = component ((b'a' ∷ []) ∷ (b'b' ∷ []) ∷ []);
}

collect_lem_example :
    (c : Collector) × (add_each kind_bytes (cyclic ∷ missing ∷ []) new_collector ≡ done c)
    × (c.count ≡ min count_ceiling 2)
    × (c.saturated ≡ ltb count_ceiling 2)
    × (length c.heap ≡ min retained_limit 2)
    × (length (finish kind_bytes c).1 ≡ min retained_limit 2)
collect_lem_example = collect_lem kind_bytes (cyclic ∷ missing ∷ [])

compare_diagnostics-flips_example :
    compare_diagnostics kind_bytes unknown missing
    ≡ flip (compare_diagnostics kind_bytes missing unknown)
compare_diagnostics-flips_example = compare_diagnostics-flips kind_bytes missing unknown

compare_diagnostics-trans_example : compare_diagnostics kind_bytes missing cyclic ≡ negative
unfolding compare_diagnostics or_else number_sign phase_rank code_rank
compare_diagnostics-trans_example =
    compare_diagnostics_trans kind_bytes missing unknown cyclic refl refl

compare_diagnostics-neutral_iff_example :
    (compare_diagnostics kind_bytes cyclic cyclic ≡ neutral) ↔ (
      (cyclic.phase ≡ cyclic.phase)
      × (cyclic.code ≡ cyclic.code)
      × (cyclic.coordinate ≡ cyclic.coordinate)
      × (cyclic.path ≡ cyclic.path)
      × (details_key kind_bytes cyclic ≡ details_key kind_bytes cyclic))
compare_diagnostics-neutral_iff_example = compare_diagnostics-neutral_iff kind_bytes cyclic cyclic

abbrev of_graph : Diagnostic → Bool
of_graph d = is_cycle_code d.code

-- Given in descending order.
finish_lem_example :
    (c : Collector) × (add_each kind_bytes (cyclic ∷ missing ∷ []) new_collector ≡ done c)
    × (ascending (below kind_bytes) (finish kind_bytes c).1 ≡ true)
    × (count_of of_graph (finish kind_bytes c).1 ≡ count_of of_graph (cyclic ∷ missing ∷ []))
finish_lem_example = finish_lem kind_bytes of_graph (cyclic ∷ missing ∷ []) (omega arith)
