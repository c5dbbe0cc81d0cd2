-- ===== src/Canonical/Properties.antt =====
-- What the code reads of the properties of a plain object and of an array: its keys in order, and the
-- values (packages/core/src/features/canonicalization/owned-jcs/factory.ts: `container`, `member`).
use get_modular.Base.{
  ℕ, zero, suc, ◌+◌, ◌≡◌, ◌⊎◌, inl, inr, refl, List, [], ◌∷◌, none, some, true, false, arith,
  number_key, text_key, text_eqb, text_eqb_iff, map, length, get_elem?, Text, text_lt, sort, lookup,
  keys, Bool-cases, ap, subst,
}
use get_modular.Base.Outcome.{done}
use get_modular.Canonical.Values.{
  JsValue, Heap, named, Descriptor, null_prototype, object_prototype, array_prototype, decimal,
}
use get_modular.Canonical.Machine.{
  container, member, descriptor_of, own_keys, frame_of, misplaced, length_name,
}
use get_modular.Canonical.Represents.{data_property, element_properties}
use get_modular.Canonical.Indices.{decimal_injective, decimal_not_length}

descriptor_of-members :
    (members : List (Text × JsValue)) (key : Text) (value : JsValue)
    → lookup key members ≡ some value
    → descriptor_of (map data_property members) key
      ≡ some (record { value = some value; enumerable = true })
descriptor_of-members [] key value h = absurd (cc (h))
descriptor_of-members ((k, v) ∷ members) key value h =
    let later = descriptor_of-members members key value in
    elim (Bool-cases (text_eqb k key)) [
      | inl same ↦
          let first : v ≡ value = ground (arith, same, h) in
          rw same (ap (λ (x : JsValue). some (record { value = some x; enumerable = true })) first)
      | inr other ↦ rw other (later (ground (arith, other, h)))
    ]

own_keys-members :
    (members : List (Text × JsValue))
    → own_keys false (map data_property members) ≡ done (keys members)
unfolding own_keys
own_keys-members [] = refl
own_keys-members ((k, v) ∷ members) = rw (own_keys-members members) refl

-- The keys of the elements of an array.
abbrev pub index_keys : ℕ → List JsValue → List Text
index_keys index [] = []
index_keys index (value ∷ values) = decimal index ∷ index_keys (index + 1) values

own_keys-elements :
    (index : ℕ) (values : List JsValue) (d : Descriptor)
    → own_keys true (element_properties index values ((named length_name, d) ∷ []))
      ≡ done (index_keys index values)
unfolding own_keys
own_keys-elements index [] d = refl
own_keys-elements index (value ∷ values) d =
    rw (own_keys-elements (index + 1) values d) (rw (unlike index) refl)
  where
    unlike : (n : ℕ) → text_eqb (decimal n) length_name ≡ false
    unlike n = elim (Bool-cases (text_eqb (decimal n) length_name)) [
      | inl same ↦ absurd (decimal_not_length n ((text_eqb_iff (decimal n) length_name).0 same))
      | inr other ↦ other
    ]

misplaced-index_keys :
    (index : ℕ) (values : List JsValue) → misplaced index (index_keys index values) ≡ false
unfolding misplaced
misplaced-index_keys index [] = refl
misplaced-index_keys index (value ∷ values) =
    rw ((text_eqb_iff (decimal index) (decimal index)).1 refl)
      (misplaced-index_keys (index + 1) values)

length-index_keys :
    (index : ℕ) (values : List JsValue) → length (index_keys index values) ≡ length values
length-index_keys index [] = refl
length-index_keys index (value ∷ values) = omega (arith, length-index_keys (index + 1) values)

descriptor_of-elements :
    (index : ℕ) (values : List JsValue) (d : Descriptor) (k : ℕ) (value : JsValue)
    → get_elem? values k ≡ some value
    → descriptor_of
        (element_properties index values ((named length_name, d) ∷ []))
        (decimal (index + k))
      ≡ some (record { value = some value; enumerable = true })
descriptor_of-elements index [] d k value h = absurd (cc (h))
descriptor_of-elements index (v ∷ values) d zero value h =
    rw ((text_eqb_iff (decimal index) (decimal (index + 0))).1 (ap decimal (omega arith)))
      (ap (λ (x : JsValue). some (record { value = some x; enumerable = true })) (cc (h)))
descriptor_of-elements index (v ∷ values) d (suc k) value h = rw (unlike) (
    subst
      (λ n.
        descriptor_of (element_properties (index + 1) values ((named length_name, d) ∷ []))
          (decimal n)
        ≡ some (record { value = some value; enumerable = true }))
      (omega arith) (descriptor_of-elements (index + 1) values d k value h))
  where
    unlike : text_eqb (decimal index) (decimal (index + suc k)) ≡ false
    unlike = elim (Bool-cases (text_eqb (decimal index) (decimal (index + suc k)))) [
      | inl same ↦ absurd (
          omega (
            arith,
            decimal_injective index (index + suc k)
                ((text_eqb_iff (decimal index) (decimal (index + suc k))).0 same),
          ))
      | inr other ↦ other
    ]

module _ (heap : Heap) (r : ℕ) where
  pub member-members :
      (members : List (Text × JsValue))
      → (heap r).properties ≡ map data_property members
      → (key : Text) (value : JsValue) → lookup key members ≡ some value
      → member heap r key ≡ done value
  unfolding member
  member-members members same key value h =
      rw (same) (rw (descriptor_of-members members key value h) refl)

  pub member-elements :
      (values : List JsValue) (d : Descriptor)
      → (heap r).properties ≡ element_properties 0 values ((named length_name, d) ∷ [])
      → (k : ℕ) (value : JsValue) → get_elem? values k ≡ some value
      → member heap r (decimal (0 + k)) ≡ done value
  unfolding member
  member-elements values d same k value h =
      rw (same) (rw (descriptor_of-elements 0 values d k value h) refl)

  pub container-members :
      (members : List (Text × JsValue))
      → (heap r).array_length ≡ none
      → ((heap r).prototype ≡ null_prototype) ⊎ ((heap r).prototype ≡ object_prototype)
      → (heap r).properties ≡ map data_property members
      → container heap r
        ≡ done (record { value = r; keys = sort text_lt (keys members); array = false; index = 0 })
  unfolding container frame_of
  container-members members a (inl p) same = rw (a, p, same) (rw (own_keys-members members) refl)
  container-members members a (inr p) same = rw (a, p, same) (rw (own_keys-members members) refl)

  pub container-elements :
      (values : List JsValue) (d : Descriptor)
      → (heap r).array_length ≡ some (length values)
      → (heap r).prototype ≡ array_prototype
      → (heap r).properties ≡ element_properties 0 values ((named length_name, d) ∷ [])
      → container heap r
        ≡ done (record { value = r; keys = index_keys 0 values; array = true; index = 0 })
  unfolding container frame_of
  container-elements values d a p same =
      rw (a, p, same)
        (rw (own_keys-elements 0 values d)
          (rw (misplaced-index_keys 0 values) (ground (arith, length-index_keys 0 values))))
