-- ===== src/Observation/Sets.antt =====
-- What a call of `set` does to the values, to `latest` and to the dirty registrations, in the terms of
-- its patch (packages/observation/src/features/store/engine.ts: `set`, `#touch`, `latest`).
use get_modular.Base.{
  ℕ, ◌+◌, ◌≡◌, ◌⊎◌, ◌↔◌, List, true, number_key, text_key, Text, contains, lookup,
}
use get_modular.Observation.Engine.{StoreEngine, latest}
use get_modular.Observation.Index.{follows}
use get_modular.Observation.Patches.{Changes, patched}

-- The difference that a patch makes.
pub record IsPatched {V : Type 0} (entries : List (Text × V)) (e after : StoreEngine V)
    : Type 0 where
  pub some_change : (key : Text) × Changes e.values entries key
  pub next_commit : after.commits ≡ e.commits + 1
  pub new_values :
      (key : Text) → lookup key after.values ≡ patched (lookup key entries) (lookup key e.values)
  pub new_latest :
      (keys : List Text) (key : Text)
      → contains keys key ≡ true
      → Changes e.values entries key
      → latest after keys ≡ e.commits + 1
  pub old_latest :
      (keys : List Text)
      → ((key : Text) → contains keys key ≡ true → ¬ Changes e.values entries key)
      → latest after keys ≡ latest e keys
  pub new_dirty :
      (id : ℕ)
      → (contains after.dirty id ≡ true) ↔ (
          (contains e.dirty id ≡ true)
          ⊎ ((key : Text) × Changes e.values entries key × (follows e.registrations key id ≡ true)))
