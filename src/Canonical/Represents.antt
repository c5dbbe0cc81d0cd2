-- ===== src/Canonical/Represents.antt =====
-- The values that stand for a JSON tree, by their properties alone
-- (packages/core/src/features/canonicalization/owned-jcs/factory.ts).
use get_modular.Base.{
  ℕ, ◌+◌, ◌≡◌, ◌⊎◌, List, [], ◌∷◌, some, none, Bool, true, false, contains, number_key, map, length,
  Text, Precedes,
}
use get_modular.Scanner.Text.{is_well_formed}
use get_modular.Canonical.Values.{
  JsNumber, JsValue, Heap, PropertyKey, named, Descriptor, null_prototype, object_prototype,
  array_prototype, decimal,
}
use get_modular.Canonical.Machine.{length_name}
use get_modular.Canonical.Trees.{
  Json, null, boolean, string, number, collection, Entries, nothing, entry,
}

-- A property that is enumerable and has a value.
abbrev pub data_property : Text × JsValue → PropertyKey × Descriptor
data_property (key, value) = (named key, record { value = some value; enumerable = true })

-- The own properties of an array: its elements from an index on, and what comes after them.
abbrev pub element_properties :
    ℕ → List JsValue → List (PropertyKey × Descriptor) → List (PropertyKey × Descriptor)
element_properties index [] after = after
element_properties index (value ∷ values) after =
    data_property (decimal index, value) ∷ element_properties (index + 1) values after

-- One of the members, and the others.
pub data Picks (key : Text) (value : JsValue)
    : List (Text × JsValue) → List (Text × JsValue) → Type 0 where
  here : {others : List (Text × JsValue)} → Picks key value ((key, value) ∷ others) others
  there :
      {k : Text} {v : JsValue} {members others : List (Text × JsValue)}
      → Picks key value members others
      → Picks key value ((k, v) ∷ members) ((k, v) ∷ others)

-- The key precedes the key of each of the members.
pub data IsBefore (key : Text) : List (Text × JsValue) → Type 0 where
  before_none : IsBefore key []
  before_all :
      {k : Text} {v : JsValue} {members : List (Text × JsValue)}
      → Precedes key k
      → IsBefore key members
      → IsBefore key ((k, v) ∷ members)

-- A value stands for a tree: its texts are well-formed, its numbers finite, its objects plain objects
-- and arrays with readable properties, and no object holds itself. The list names the objects round it.
-- The entries of the tree of an object are its members by ascending key.
mutual
  pub data Represents (heap : Heap) : List ℕ → JsValue → Json → Type 0 where
    a_null : {above : List ℕ} → Represents heap above JsValue.null_value null
    a_boolean : {above : List ℕ} {b : Bool} → Represents heap above (JsValue.boolean b) (boolean b)
    a_string :
        {above : List ℕ} {s : Text}
        → is_well_formed s ≡ true
        → Represents heap above (JsValue.string s) (string s)
    a_number :
        {above : List ℕ} {n : JsNumber}
        → n.is_finite ≡ true
        → Represents heap above (JsValue.number n) (number n.text)
    an_object :
        {above : List ℕ} {r : ℕ} {members : List (Text × JsValue)} {entries : Entries}
        → contains above r ≡ false
        → (heap r).array_length ≡ none
        → ((heap r).prototype ≡ null_prototype) ⊎ ((heap r).prototype ≡ object_prototype)
        → (heap r).properties ≡ map data_property members
        → Members heap (r ∷ above) members entries
        → Represents heap above (JsValue.object r) (collection false entries)
    an_array :
        {above : List ℕ} {r : ℕ} {values : List JsValue} {entries : Entries} (d : Descriptor)
        → contains above r ≡ false
        → (heap r).array_length ≡ some (length values)
        → (heap r).prototype ≡ array_prototype
        → (heap r).properties ≡ element_properties 0 values ((named length_name, d) ∷ [])
        → Elements heap (r ∷ above) 0 values entries
        → Represents heap above (JsValue.object r) (collection true entries)

  pub data Members (heap : Heap) : List ℕ → List (Text × JsValue) → Entries → Type 0 where
    no_member : {above : List ℕ} → Members heap above [] nothing
    least_member :
        {above : List ℕ} {key : Text} {value : JsValue} {members others : List (Text × JsValue)}
        {j : Json} {entries : Entries}
        → is_well_formed key ≡ true
        → Picks key value members others
        → IsBefore key others
        → Represents heap above value j
        → Members heap above others entries
        → Members heap above members (entry key j entries)

  pub data Elements (heap : Heap) : List ℕ → ℕ → List JsValue → Entries → Type 0 where
    no_element : {above : List ℕ} {index : ℕ} → Elements heap above index [] nothing
    next_element :
        {above : List ℕ} {index : ℕ} {value : JsValue} {values : List JsValue} {j : Json}
        {entries : Entries}
        → Represents heap above value j
        → Elements heap above (index + 1) values entries
        → Elements heap above index (value ∷ values) (entry (decimal index) j entries)
