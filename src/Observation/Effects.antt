-- ===== src/Observation/Effects.antt =====
-- What a write does to the values, to `latest` and to the dirty registrations
-- (packages/observation/src/features/store/engine.ts: `set`, `#touch`, `latest`).
use get_modular.Base.{
  ℕ, ◌+◌, ◌≤◌, ◌≡◌, ◌≢◌, ◌⊎◌, refl, List, [], ◌∷◌, Option, some, Bool, false, ◌||◌, arith,
  number_key, text_key, text_eqb, Text, contains, lookup, lookup-insert, inl, inr, Bool-cases, Key,
  if◌then◌else◌, ap, ◌∙◌, sym, max, subst,
}
use get_modular.Base.Outcome.{done}
use get_modular.Observation.Engine.{
  Registration, StoreEngine, DeliveryContext, get_or, touch, schedule, write_all, set_entries,
  changed_entries, latest, latest_from, depth_in, live_in, deepen_all,
}
use get_modular.Observation.Index.{
  IsIndexed, in_bucket, follows, get_or-insert, follows-deepen_all, contains-mark_all,
}
use get_modular.Observation.Reach.{Reaches, Reaches-IsIndexed}
use get_modular.Observation.Writes.{set_entries-commit, written, commit_cases, started-IsIndexed}

-- Whether one of the keys is written.
abbrev pub any_wrote : (Text → Bool) → List Text → Bool
any_wrote wrote [] = false
any_wrote wrote (key ∷ keys) = wrote key || any_wrote wrote keys

module _ {V : Type 0} where
  -- Whether the entries write a key, and what they leave at a key.
  abbrev pub writes : List (Text × V) → Text → Bool
  writes [] key = false
  writes ((x, v) ∷ changed) key = text_eqb x key || writes changed key

  abbrev pub value_after : List (Text × V) → Text → Option V → Option V
  value_after [] key before = before
  value_after ((x, v) ∷ changed) key before =
      value_after changed key (if text_eqb x key then some v else before)

  -- Whether a registration follows a key that the entries write.
  abbrev pub follows_written : List (ℕ × Registration) → List (Text × V) → ℕ → Bool
  follows_written registrations [] id = false
  follows_written registrations ((x, v) ∷ changed) id =
      follows registrations x id || follows_written registrations changed id

  follows_written-deepen_all :
      (changed : List (Text × V)) (depth : ℕ) (ids : List ℕ)
      (registrations : List (ℕ × Registration)) (id : ℕ)
      → follows_written (deepen_all depth ids registrations) changed id
        ≡ follows_written registrations changed id
  follows_written-deepen_all [] depth ids registrations id = refl
  follows_written-deepen_all ((x, v) ∷ changed) depth ids registrations id =
      rw
        (
          follows-deepen_all depth ids registrations x id,
          follows_written-deepen_all changed depth ids registrations id,
        )
        refl

  write_all-commits :
      (changed : List (Text × V)) (depth : ℕ) (live : Option ℕ) (e : StoreEngine V)
      → (write_all changed depth live e).commits ≡ e.commits
  unfolding write_all touch
  write_all-commits [] depth live e = refl
  write_all-commits ((x, v) ∷ changed) depth live e = write_all-commits changed depth live _

  write_all-values :
      (changed : List (Text × V)) (depth : ℕ) (live : Option ℕ) (e : StoreEngine V) (key : Text)
      → lookup key (write_all changed depth live e).values
        ≡ value_after changed key (lookup key e.values)
  unfolding write_all touch
  write_all-values [] depth live e key = refl
  write_all-values ((x, v) ∷ changed) depth live e key =
      write_all-values changed depth live _ key
      ∙ ap (value_after changed key) (lookup-insert x key v e.values)

  write_all-last_touched :
      (changed : List (Text × V)) (depth : ℕ) (live : Option ℕ) (e : StoreEngine V) (key : Text)
      → get_or 0 key (write_all changed depth live e).last_touched
        ≡ (if writes changed key then e.commits else get_or 0 key e.last_touched)
  unfolding write_all touch
  write_all-last_touched [] depth live e key = refl
  write_all-last_touched ((x, v) ∷ changed) depth live e key =
      write_all-last_touched changed depth live _ key
      ∙ ground (arith, get_or-insert 0 x key e.commits e.last_touched)

  write_all-dirty :
      (changed : List (Text × V)) (depth : ℕ) (live : Option ℕ) (e : StoreEngine V) (id : ℕ)
      → ((key : Text) → in_bucket e.buckets key id ≡ follows e.registrations key id)
      → contains (write_all changed depth live e).dirty id
        ≡ (contains e.dirty id || follows_written e.registrations changed id)
  unfolding write_all touch
  write_all-dirty [] depth live e id i = ground arith
  write_all-dirty ((x, v) ∷ changed) depth live e id i =
      let bucket = get_or [] x e.buckets in
      let kept : (key : Text)
          → follows (touch x depth live e).registrations key id ≡ follows e.registrations key id =
        λ key. follows-deepen_all depth bucket e.registrations key id in
      write_all-dirty changed depth live _ id (λ key. i key ∙ sym (kept key))
      ∙ ground (
        arith,
        contains-mark_all bucket e.dirty id,
        i x,
        follows_written-deepen_all changed depth bucket e.registrations id,
      )

-- `latest` when some keys are touched at a revision that is not exceeded.
module _ (before after : List (Text × ℕ)) (now : ℕ) (wrote : Text → Bool)
    (bounded : (key : Text) → get_or 0 key before ≤ now)
    (step : (key : Text)
      → get_or 0 key after ≡ (if wrote key then now else get_or 0 key before)) where
  latest_from-now : (keys : List Text) → latest_from after now keys ≡ now
  unfolding latest_from
  latest_from-now [] = refl
  latest_from-now (key ∷ keys) =
      let top : max now (get_or 0 key after) ≡ now = ground (arith, step key, bounded key) in
      ap (λ (r : ℕ). latest_from after r keys) top ∙ latest_from-now keys

  latest_from-touched :
      (keys : List Text) (r : ℕ)
      → r ≤ now
      → latest_from after r keys ≡ (if any_wrote wrote keys then now else latest_from before r keys)
  unfolding latest_from
  latest_from-touched [] r low = refl
  latest_from-touched (key ∷ keys) r low = elim (Bool-cases (wrote key)) [
    | inl here ↦
        let top : max r (get_or 0 key after) ≡ now = ground (arith, step key, bounded key, here) in
        rw here (ap (λ (s : ℕ). latest_from after s keys) top ∙ latest_from-now keys)
    | inr elsewhere ↦
        let top : max r (get_or 0 key after) ≡ max r (get_or 0 key before) =
          ground (arith, step key, elsewhere) in
        rw elsewhere (
          ap (λ (s : ℕ). latest_from after s keys) top
          ∙ latest_from-touched keys (max r (get_or 0 key before)) (ground (arith, bounded key)))
  ]

-- The difference that a write of the changed entries makes.
pub record IsWritten {V : Type 0} (changed : List (Text × V)) (e after : StoreEngine V)
    : Type 0 where
  pub next_commit : after.commits ≡ e.commits + 1
  pub new_values :
      (key : Text) → lookup key after.values ≡ value_after changed key (lookup key e.values)
  pub new_latest :
      (keys : List Text)
      → latest after keys
        ≡ (if any_wrote (writes changed) keys then e.commits + 1 else latest e keys)
  pub new_dirty :
      (id : ℕ)
      → contains after.dirty id
        ≡ (contains e.dirty id || follows_written e.registrations changed id)

module _ {V : Type 0} where
  pub written-IsWritten :
      (changed : List (Text × V)) (nodes : ℕ) (context : Option DeliveryContext) (e : StoreEngine V)
      → IsIndexed e
      → IsWritten changed e (written changed nodes context e)
  unfolding schedule latest
  written-IsWritten changed nodes context e i =
      let started : StoreEngine V = record e {
        walked = e.walked + nodes;
        commits = e.commits + 1;
      } in
      let j : IsIndexed started = started-IsIndexed nodes e i in
      let depth = depth_in context in
      let live = live_in context in
      record {
        next_commit = write_all-commits changed depth live started;
        new_values = write_all-values changed depth live started;
        new_latest = λ keys.
            latest_from-touched e.last_touched (write_all changed depth live started).last_touched
              (e.commits + 1) (writes changed) j.touched
              (write_all-last_touched changed depth live started) keys 0 (omega arith);
        new_dirty = λ id. write_all-dirty changed depth live started id (λ key. j.indexed key id);
      }

  module _ ⦃same : Key V⦄ where
    -- A call that returns leaves the state, or writes the changed entries.
    pub set_entries-IsWritten :
        (entries : List (Text × V)) (nodes : ℕ) (context : Option DeliveryContext)
        (e after : StoreEngine V) (revision : ℕ)
        → Reaches e
        → set_entries entries nodes context e ≡ done (after, revision)
        → let changed = changed_entries e.values entries in
          (revision ≡ after.commits)
          × (((changed ≡ []) × (after ≡ e)) ⊎ ((changed ≢ []) × IsWritten changed e after))
    set_entries-IsWritten entries nodes context e after revision r h =
        let changed = changed_entries e.values entries in
        let c = set_entries-commit entries nodes context e after revision h in
        elim (commit_cases changed nodes context e) [
          | inl t ↦ absurd (cc (t, c))
          | inr (inl (unchanged, d)) ↦ (cc (d, c), inl (unchanged, cc (d, c)))
          | inr (inr (some_changed, d)) ↦ (
            cc (d, c),
            inr (
              some_changed,
              subst (IsWritten changed e) (cc (d, c))
                  (written-IsWritten changed nodes context e (Reaches-IsIndexed r)),
            ),
          )
        ]
