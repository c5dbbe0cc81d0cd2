-- ===== src/Canonical/Values.antt =====
-- The JavaScript values that packages/core/src/features/canonicalization/owned-jcs/factory.ts inspects:
-- what `typeof`, `Object.getPrototypeOf`, `Reflect.ownKeys` and the property descriptors tell of them.
use get_modular.Base.{
  ℕ, zero, suc, ◌+◌, ◌/◌, ◌%◌, List, [], ◌∷◌, ◌++◌, Option, Bool, ltb, if◌then◌else◌, Text,
}

-- A number is known by whether it is finite and by its ECMAScript text.
pub record JsNumber : Type 0 where
  pub is_finite : Bool
  pub text : Text

-- An object is a reference; `other` stands for undefined, symbols, functions and big integers.
pub data JsValue : Type 0 where
  null_value other : JsValue
  boolean : Bool → JsValue
  string : Text → JsValue
  number : JsNumber → JsValue
  object : ℕ → JsValue

pub data PropertyKey : Type 0 where
  named : Text → PropertyKey
  symbol : PropertyKey

-- An accessor has no value.
pub record Descriptor : Type 0 where
  pub value : Option JsValue
  pub enumerable : Bool

pub data Prototype : Type 0 where
  null_prototype object_prototype array_prototype foreign_prototype : Prototype

-- `properties` are in the order of `Reflect.ownKeys`. An array has a length.
pub record JsObject : Type 0 where
  pub array_length : Option ℕ
  pub prototype : Prototype
  pub properties : List (PropertyKey × Descriptor)

-- The objects by their references.
abbrev pub Heap : Type 0
Heap = ℕ → JsObject

-- `String(index)`, on fuel above the index.
unfoldable pub decimal_from : ℕ → ℕ → Text
decimal_from zero n = []
decimal_from (suc fuel) n =
    let leading = decimal_from fuel (n / 10) in
    if ltb n 10 then (48 + n) ∷ [] else leading ++ (48 + n % 10) ∷ []

abbrev pub decimal : ℕ → Text
decimal n = decimal_from (suc n) n
