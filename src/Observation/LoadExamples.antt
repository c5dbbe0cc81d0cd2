-- ===== src/Observation/LoadExamples.antt =====
-- A load that a commit overtakes.
use get_modular.Base.{◌≡◌, ◌⊎◌, refl, some, true, false, arith}
use get_modular.Observation.Loads.{Active, Load, abort, start, settle, take_job, offer, flush_load}
use get_modular.Observation.LoadStates.{
  IsLoad, new_load, LoadReaches, creates, commits, flushes, LoadReaches-IsLoad, load_keeps_up,
}

abbrev overtaken : Load
overtaken = flush_load 2 false (flush_load 1 false (new_load 0))

overtaken-LoadReaches : LoadReaches 2 overtaken
overtaken-LoadReaches = flushes false (commits (flushes false (creates 1 0)) (omega arith))

abbrev first_run : Active
first_run = record { revision = 1; aborted = true }

LoadReaches-IsLoad_example : IsLoad overtaken
LoadReaches-IsLoad_example = LoadReaches-IsLoad overtaken-LoadReaches

load_keeps_up_example :
    (overtaken.last_offered ≡ some 1)
    ⊎ ((next : Active) × ((settle overtaken).active ≡ some next)
        × (next.aborted ≡ false)
        × (overtaken.last_offered ≡ some next.revision))
unfolding flush_load offer take_job start abort
load_keeps_up_example = load_keeps_up 2 overtaken first_run overtaken-LoadReaches refl refl
