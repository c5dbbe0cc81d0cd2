-- ===== src/Composition/UniqueIndex.antt =====
-- What `uniqueIndex` of packages/core/src/features/composition-semantics/declaration-census.ts finds.
use get_modular.Base.{
  List, [], ◌∷◌, Option, none, some, ◌≡◌, refl, ap, ◌∙◌, ◌==◌, if◌then◌else◌, lookup, lookup-insert,
  Text, text_key, text_eqb_iff, Bool-cases, Option-cases, inl, inr,
}
use get_modular.Composition.Declarations.{Index, index_value, index_from, unique_index}

module _ {ℓ} {A : Type ℓ} (identity : A → Text) where
  -- The values of an identity, in order.
  pub matching : Text → List A → List A
  matching id [] = []
  matching id (v ∷ vs) = let rest = matching id vs in if identity v == id then v ∷ rest else rest

  -- An entry after some more values of its identity.
  after_values : Option (Option A) → List A → Option (Option A)
  after_values entry [] = entry
  after_values none (v ∷ []) = some (some v)
  after_values none (v ∷ w ∷ vs) = some none
  after_values (some e) (v ∷ vs) = some none

  -- No value, one, or an ambiguous identity.
  pub resolution : List A → Option (Option A)
  resolution [] = none
  resolution (v ∷ []) = some (some v)
  resolution (v ∷ w ∷ vs) = some none

  after_none : (vs : List A) → after_values none vs ≡ resolution vs
  unfolding after_values resolution
  after_none [] = refl
  after_none (v ∷ []) = refl
  after_none (v ∷ w ∷ vs) = refl

  -- The entry that one value of the identity leaves.
  abbrev next_entry : A → Option (Option A) → Option (Option A)
  next_entry v none = some (some v)
  next_entry v (some e) = some none

  lookup-index_value :
      (id : Text) (entries : Index A) (v : A)
      → lookup id (index_value identity entries v) ≡ (
          if identity v == id
          then next_entry v (lookup (identity v) entries)
          else lookup id entries)
  unfolding index_value
  lookup-index_value id entries v = elim (Option-cases (lookup (identity v) entries)) [
    | inl absent ↦ rw (absent, index_value) (lookup-insert (identity v) id (some v) entries)
    | inr (e, present) ↦ rw (present, index_value) (lookup-insert (identity v) id none entries)
  ]

  after_next :
      (v : A) (vs : List A) (entry : Option (Option A))
      → after_values (next_entry v entry) vs ≡ after_values entry (v ∷ vs)
  unfolding after_values
  after_next v [] none = refl
  after_next v (w ∷ vs) none = refl
  after_next v [] (some e) = refl
  after_next v (w ∷ vs) (some e) = refl

  lookup-index_from :
      (id : Text) (entries : Index A) (vs : List A)
      → lookup id (index_from identity entries vs)
        ≡ after_values (lookup id entries) (matching id vs)
  unfolding index_from matching after_values
  lookup-index_from id entries [] = refl
  lookup-index_from id entries (v ∷ vs) =
      lookup-index_from id (index_value identity entries v) vs
      ∙ ap (λ e. after_values e (matching id vs)) (lookup-index_value id entries v)
      ∙ elim (Bool-cases (identity v == id)) [
        | inl here ↦
            let same = (text_eqb_iff (identity v) id).0 here in
            rw (here, same) (after_next v (matching id vs) (lookup id entries))
        | inr elsewhere ↦ rw elsewhere refl
      ]

  -- The index knows an identity exactly as often as it occurs among the values: not at all, with its
  -- value when it occurs once, and as ambiguous when it occurs more often.
  pub unique_index_lem :
      (id : Text) (vs : List A) → lookup id (unique_index identity vs) ≡ resolution (matching id vs)
  unfolding unique_index
  unique_index_lem id vs = lookup-index_from id [] vs ∙ after_none (matching id vs)
