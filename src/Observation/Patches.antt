-- ===== src/Observation/Patches.antt =====
-- The patch of a write, and which keys it changes
-- (packages/observation/src/features/store/engine.ts: `set`).
use get_modular.Base.{
  ◌≡◌, ◌≢◌, ◌↔◌, refl, List, [], ◌∷◌, Option, none, some, Bool, true, false, arith, number_key,
  text_key, text_eqb, text_eqb_iff, Text, lookup, inl, inr, Bool-cases, Key, if◌then◌else◌, ◌==◌,
  ap, ◌∙◌, sym,
}
use get_modular.Observation.Engine.{differs, changed_entries}
use get_modular.Observation.Effects.{writes, value_after}

-- The value that a patch leaves.
abbrev pub patched : {V : Type 0} → Option V → Option V → Option V
patched none before = before
patched (some value) before = some value

-- The entries of an object: no two of them have the same key.
pub data IsPatch {V : Type 0} : List (Text × V) → Type 0 where
  no_entry : IsPatch []
  one_entry :
      {key : Text} {value : V} {entries : List (Text × V)}
      → lookup key entries ≡ none
      → IsPatch entries
      → IsPatch ((key, value) ∷ entries)

-- The patch gives a key a value that it does not have.
pub record Changes {V : Type 0} (values entries : List (Text × V)) (key : Text) : Type 0 where
  pub value : V
  pub given : lookup key entries ≡ some value
  pub other : lookup key values ≢ some value

module _ {V : Type 0} where
  abbrev is_some : Option V → Bool
  is_some none = false
  is_some (some _) = true

  writes-lookup :
      (changed : List (Text × V)) (key : Text) → writes changed key ≡ is_some (lookup key changed)
  writes-lookup [] key = refl
  writes-lookup ((x, v) ∷ changed) key = ground (arith, writes-lookup changed key)

  pub value_after-lookup :
      (changed : List (Text × V)) (key : Text) (before : Option V)
      → IsPatch changed
      → value_after changed key before ≡ patched (lookup key changed) before
  value_after-lookup [] key before no_entry = refl
  value_after-lookup ((x, v) ∷ changed) key before (one_entry once rest) =
      elim (Bool-cases (text_eqb x key)) [
        | inl here ↦
            let gone : lookup key changed ≡ none =
              ap (λ k. lookup k changed) (sym ((text_eqb_iff x key).0 here)) ∙ once in
            rw here
              (value_after-lookup changed key (some v) rest ∙ ap (λ o. patched o (some v)) gone)
        | inr elsewhere ↦ rw elsewhere (value_after-lookup changed key before rest)
      ]

  module _ ⦃same : Key V⦄ (values : List (Text × V)) where
    differs_iff : (before : Option V) (v : V) → (differs before v ≡ true) ↔ (before ≢ some v)
    differs_iff none v = (λ h (q : none ≡ some v). cc (q), λ h. refl)
    differs_iff (some old) v = (
      λ h (q : some old ≡ some v).
          let e : old ≡ v = cc (q) in absurd (ground (arith, h, (same.same_iff old v).1 e)),
      λ h. ground (arith, h, same.same_iff old v),
    )

    -- What is left of the value that a patch gives.
    abbrev kept_if : Option V → Option V → Option V
    kept_if before none = none
    kept_if before (some v) = if differs before v then some v else none

    changed_entries-lookup :
        (entries : List (Text × V)) (key : Text)
        → IsPatch entries
        → lookup key (changed_entries values entries)
          ≡ kept_if (lookup key values) (lookup key entries)
    unfolding changed_entries
    changed_entries-lookup [] key no_entry = refl
    changed_entries-lookup ((x, v) ∷ entries) key (one_entry once rest) =
        let later = changed_entries-lookup entries key rest in
        elim (Bool-cases (text_eqb x key)) [
          | inl here ↦
              let k : x ≡ key = (text_eqb_iff x key).0 here in
              let gone : lookup key entries ≡ none = ap (λ j. lookup j entries) (sym k) ∙ once in
              let clear : lookup key (changed_entries values entries) ≡ none =
                later ∙ ap (kept_if (lookup key values)) gone in
              let moved : lookup x values ≡ lookup key values = ap (λ j. lookup j values) k in
              elim (Bool-cases (differs (lookup key values) v)) [
                | inl new ↦ ground (arith, here, new, moved, clear)
                | inr old ↦ ground (arith, here, old, moved, clear)
              ]
          | inr elsewhere ↦ elim (Bool-cases (differs (lookup x values) v)) [
            | inl new ↦ rw new (rw elsewhere later)
            | inr old ↦ rw old (rw elsewhere later)
          ]
        ]

    changed_entries-absent :
        (entries : List (Text × V)) (key : Text)
        → lookup key entries ≡ none
        → lookup key (changed_entries values entries) ≡ none
    unfolding changed_entries
    changed_entries-absent [] key h = refl
    changed_entries-absent ((x, v) ∷ entries) key h =
        let later = changed_entries-absent entries key in
        elim (Bool-cases (differs (lookup x values) v)) [
          | inl new ↦ rw new (ground (arith, h, later))
          | inr old ↦ rw old (ground (arith, h, later))
        ]

    pub changed_entries-IsPatch :
        (entries : List (Text × V)) → IsPatch entries → IsPatch (changed_entries values entries)
    unfolding changed_entries
    changed_entries-IsPatch [] no_entry = no_entry
    changed_entries-IsPatch ((x, v) ∷ entries) (one_entry once rest) =
        let later = changed_entries-IsPatch entries rest in
        elim (Bool-cases (differs (lookup x values) v)) [
          | inl new ↦ rw new (one_entry (changed_entries-absent entries x once) later)
          | inr old ↦ rw old later
        ]

    kept_if-is_some :
        (before given : Option V)
        → is_some (kept_if before given) ≡ true
        → (v : V) × (given ≡ some v) × (before ≢ some v)
    kept_if-is_some before none h = absurd (cc (h))
    kept_if-is_some before (some v) h = elim (Bool-cases (differs before v)) [
      | inl new ↦ (v, refl, (differs_iff before v).0 new)
      | inr old ↦ absurd (ground (arith, h, old))
    ]

    -- The changed entries write the keys that the patch changes.
    pub changed_entries-Changes :
        (entries : List (Text × V)) (key : Text)
        → IsPatch entries
        → (writes (changed_entries values entries) key ≡ true) ↔ Changes values entries key
    changed_entries-Changes entries key p =
        let counted : writes (changed_entries values entries) key
            ≡ is_some (kept_if (lookup key values) (lookup key entries)) =
          writes-lookup (changed_entries values entries) key
          ∙ ap is_some (changed_entries-lookup entries key p) in
        (
          λ h.
              let (v, given, other) =
                kept_if-is_some (lookup key values) (lookup key entries) (sym counted ∙ h) in
              record { value = v; given = given; other = other },
          λ c.
              let new : differs (lookup key values) c.value ≡ true =
                (differs_iff (lookup key values) c.value).1 c.other in
              counted ∙ ap (λ o. is_some (kept_if (lookup key values) o)) c.given ∙ rw new refl,
        )

    patched-kept_if :
        (before given : Option V) → patched (kept_if before given) before ≡ patched given before
    patched-kept_if before none = refl
    patched-kept_if none (some v) = refl
    patched-kept_if (some old) (some v) = elim (Bool-cases (old == v)) [
      | inl alike ↦ rw alike (ap (λ (x : V). some x) ((same.same_iff old v).0 alike))
      | inr new ↦ rw new refl
    ]

    pub changed_entries-patched :
        (entries : List (Text × V)) (key : Text)
        → IsPatch entries
        → value_after (changed_entries values entries) key (lookup key values)
          ≡ patched (lookup key entries) (lookup key values)
    changed_entries-patched entries key p =
        value_after-lookup (changed_entries values entries) key (lookup key values)
          (changed_entries-IsPatch entries p)
        ∙ ap (λ o. patched o (lookup key values)) (changed_entries-lookup entries key p)
        ∙ patched-kept_if (lookup key values) (lookup key entries)

    -- Whether there are changed entries.
    pub changed_entries-none :
        (entries : List (Text × V)) (key : Text)
        → IsPatch entries
        → changed_entries values entries ≡ []
        → ¬ Changes values entries key
    changed_entries-none entries key p unchanged c =
        let w = (changed_entries-Changes entries key p).1 c in
        absurd (cc (sym (ap (λ changed. writes changed key) unchanged) ∙ w))

    first_written :
        (changed : List (Text × V)) → changed ≢ [] → (key : Text) × (writes changed key ≡ true)
    first_written [] h = absurd (h refl)
    first_written ((x, v) ∷ changed) h = (x, ground (arith, text_eqb_iff x x))

    pub changed_entries-some :
        (entries : List (Text × V))
        → IsPatch entries
        → changed_entries values entries ≢ []
        → (key : Text) × Changes values entries key
    changed_entries-some entries p h =
        let (key, w) = first_written (changed_entries values entries) h in
        (key, (changed_entries-Changes entries key p).0 w)
