-- ===== src/Observation/Examples.antt =====
-- A store with two keys and a watch.
use get_modular.Base.{
  ℕ, ◌<◌, ◌≤◌, ◌≡◌, ◌⊎◌, ◌↔◌, refl, List, [], ◌∷◌, none, some, true, false, arith, number_key,
  text_key, Text, contains,
}
use get_modular.Base.Outcome.{Outcome, done, thrown, out_of_fuel}
use get_modular.Observation.Engine.{
  Registration, StoreEngine, DeliveryContext, latest, set_entries, changed_entries, commit,
  write_all, touch, schedule, missed_depth, max_cascade_depth, slot, guard_fails, deepen_all,
  mark_all, add_to_buckets, attach, next_id, latest_from, missed_from, deepest,
}
use get_modular.Observation.Depth.{missed_depth_lem, slots_of}
use get_modular.Observation.Reach.{new_engine}
use get_modular.Observation.Patches.{IsPatch, no_entry, one_entry, Changes}
use get_modular.Observation.Refusals.{IsBarred, NamesUnknown, set_entries-thrown_iff}
use get_modular.Observation.Watches.{Limits, Spec, Watched, watch, subscribe, admit, mark_missed}
use get_modular.Observation.Current.{creates, watches, writes, new_watched, watch_misses_nothing}

abbrev a_key : Text
a_key = 97 ∷ []

abbrev b_key : Text
b_key = 98 ∷ []

abbrev initial : List (Text × ℕ)
initial = (a_key, 1) ∷ (b_key, 2) ∷ []

abbrev patch : List (Text × ℕ)
patch = (a_key, 5) ∷ (b_key, 2) ∷ []

abbrev delivery : DeliveryContext
delivery = record { depth = 2; same_engine = true; origin_keys = b_key ∷ []; live = 0 }

abbrev engine_of : Outcome (StoreEngine ℕ × ℕ) → StoreEngine ℕ
engine_of thrown = new_engine []
engine_of out_of_fuel = new_engine []
engine_of (done (e, revision)) = e

-- The engine after a write from a delivery of depth 2, that is at depth 3.
abbrev written_engine : StoreEngine ℕ
written_engine = engine_of (set_entries patch 0 (some delivery) (new_engine initial))

abbrev write_depth : ℕ
write_depth = missed_depth written_engine (a_key ∷ []) 0

missed_depth_lem_example :
    ((write_depth ≡ 0)
      ⊎ ((key : Text) × (contains (a_key ∷ []) key ≡ true)
          × (0 < slot (slots_of written_engine.latest_revision_at_depth key) write_depth)))
    × ((key : Text) (d : ℕ)
        → contains (a_key ∷ []) key ≡ true
        → d ≤ max_cascade_depth
        → 0 < slot (slots_of written_engine.latest_revision_at_depth key) d
        → d ≤ write_depth)
missed_depth_lem_example = missed_depth_lem written_engine (a_key ∷ []) 0

patch-IsPatch : IsPatch patch
patch-IsPatch = one_entry refl (one_entry refl no_entry)

-- A delivery of a watch on the key that it writes.
abbrev echo : DeliveryContext
echo = record { depth = 2; same_engine = true; origin_keys = a_key ∷ []; live = 0 }

set_entries-thrown_iff_example : (set_entries patch 0 (some echo) (new_engine initial) ≡ thrown) ↔ (
    (false ≡ true)
    ⊎ (NamesUnknown initial patch
        ⊎ (((key : Text) × Changes initial patch key)
            × ((d : DeliveryContext) × (some echo ≡ some d) × IsBarred initial patch d))))
set_entries-thrown_iff_example =
    set_entries-thrown_iff patch 0 (some echo) (new_engine initial) patch-IsPatch

abbrev limits : Limits
limits = record { max_subscriptions_per_scope = 2; max_subscriptions = 3 }

abbrev spec : Spec
spec = record { keys = a_key ∷ []; revision = 0; scope = 7; aborted = false; name = b_key }

abbrev watched : Watched ℕ
watched = subscribe spec (new_watched initial)

abbrev late : Watched ℕ
late = record watched { engine = engine_of (set_entries patch 0 none watched.engine) }

abbrev registration : Registration
registration = record { keys = a_key ∷ []; name = b_key; scope = 7; depth = 0 }

watch_misses_nothing_example :
    (contains late.batch 1 ≡ true)
    ⊎ ((contains late.engine.dirty 1 ≡ true) × (late.engine.flush_scheduled ≡ true))
unfolding watch admit subscribe next_id attach mark_missed latest latest_from missed_depth
    missed_from deepest add_to_buckets set_entries changed_entries commit guard_fails write_all
    touch schedule deepen_all mark_all
watch_misses_nothing_example =
    watch_misses_nothing late 1 registration
      (writes patch 0 none 1 (watches limits spec (creates initial) refl) refl) refl refl
      (omega arith)
