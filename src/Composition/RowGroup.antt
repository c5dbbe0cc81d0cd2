-- ===== src/Composition/RowGroup.antt =====
-- A group of binding records at one coordinate: `validateBindingRecords` of
-- packages/core/src/features/composition-semantics/binding-record.ts.
use get_modular.Base.{List, [], ◌∷◌, Bool, false, number_key, ◌≡◌, arith}
use get_modular.Composition.Wire.{Binding, Slot}
use get_modular.Composition.Declarations.{DeclarationCensus}
use get_modular.Composition.Profiles.{ProfileCensus}
use get_modular.Composition.BindingRecord.{validate_rows, validate_binding_records}
use get_modular.Composition.BindingSpec.{fits_slot, validate_binding_record_lem}

module _ (declarations : DeclarationCensus) (selected : ProfileCensus) (s : Slot) where
  -- The only record of its coordinate fits the slot.
  pub only_fits : List Binding → Bool
  only_fits (b ∷ []) = fits_slot declarations selected s b
  only_fits _ = false

  -- A group of records is valid exactly when it is a single record that fits the slot.
  pub validate_binding_records_lem :
      (bindings : List Binding)
      → (validate_binding_records declarations selected bindings s).valid ≡ only_fits bindings
  unfolding validate_binding_records validate_rows only_fits
  validate_binding_records_lem [] = ground arith
  validate_binding_records_lem (b ∷ []) =
      rw (validate_binding_record_lem declarations selected s b) (ground arith)
  validate_binding_records_lem (b ∷ b' ∷ bs) = ground arith
