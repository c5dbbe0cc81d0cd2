-- ===== src/Canonical/Machine.antt =====
-- `member`, `container` and `canonicalize` of
-- packages/core/src/features/canonicalization/owned-jcs/factory.ts.
use get_modular.Base.{
  ℕ, zero, suc, ◌+◌, List, [], ◌∷◌, ◌++◌, Option, none, some, Bool, true, false, not, ◌&&◌, ◌||◌,
  ◌==◌, number_key, text_key, ltb, if◌then◌else◌, Text, text_lt, sort, get_elem?, length, contains,
}
use get_modular.Base.Outcome.{Outcome, done, thrown, out_of_fuel, ◌>>=◌, defined}
use get_modular.Scanner.Cursor.{join}
use get_modular.Canonical.Values.{
  JsValue, null_value, other, boolean, string, number, object, PropertyKey, named, symbol,
  Descriptor, Prototype, null_prototype, object_prototype, array_prototype, Heap, decimal,
}
use get_modular.Canonical.Writing.{quote, utf8}

-- `Object.getOwnPropertyDescriptor(value, key)`
abbrev pub descriptor_of : List (PropertyKey × Descriptor) → Text → Option Descriptor
descriptor_of [] key = none
descriptor_of ((named name, descriptor) ∷ rest) key =
    if name == key then some descriptor else descriptor_of rest key
descriptor_of ((symbol, descriptor) ∷ rest) key = descriptor_of rest key

abbrev pub member_value : Option Descriptor → Outcome JsValue
member_value none = thrown
member_value (some descriptor) = if descriptor.enumerable then defined descriptor.value else thrown

unfoldable pub member : Heap → ℕ → Text → Outcome JsValue
member heap value key = member_value (descriptor_of (heap value).properties key)

pub record ContainerFrame : Type 0 where
  pub value : ℕ
  pub keys : List Text
  pub array : Bool
  pub index : ℕ

pub data Frame : Type 0 where
  value_frame : JsValue → Frame
  container_frame : ContainerFrame → Frame

abbrev pub fits_prototype : Bool → Prototype → Bool
fits_prototype true array_prototype = true
fits_prototype false null_prototype = true
fits_prototype false object_prototype = true
fits_prototype _ _ = false

-- "length"
abbrev pub length_name : Text
length_name = 108 ∷ 101 ∷ 110 ∷ 103 ∷ 116 ∷ 104 ∷ []

-- The loop over the own keys.
unfoldable pub own_keys : Bool → List (PropertyKey × Descriptor) → Outcome (List Text)
own_keys array [] = done []
own_keys array ((symbol, descriptor) ∷ rest) = thrown
own_keys array ((named key, descriptor) ∷ rest) =
    own_keys array rest >>= λ keys. done (if array && key == length_name then keys else key ∷ keys)

-- `keys.some((key, index) => key !== String(index))`, from `index` on.
unfoldable pub misplaced : ℕ → List Text → Bool
misplaced index [] = false
misplaced index (key ∷ keys) = not (key == decimal index) || misplaced (index + 1) keys

-- The last argument is the length, if the value is an array.
unfoldable pub frame_of : ℕ → List Text → Option ℕ → Outcome ContainerFrame
unfolding misplaced
frame_of value keys (some array_length) =
    if not (length keys == array_length) || misplaced 0 keys
    then thrown
    else done (record { value = value; keys = keys; array = true; index = 0 })
frame_of value keys none =
    done (record { value = value; keys = sort text_lt keys; array = false; index = 0 })

abbrev pub is_array : Option ℕ → Bool
is_array none = false
is_array (some _) = true

unfoldable pub container : Heap → ℕ → Outcome ContainerFrame
unfolding own_keys frame_of
container heap value =
    let found = heap value in
    if fits_prototype (is_array found.array_length) found.prototype
    then (own_keys (is_array found.array_length) found.properties >>= λ keys.
        frame_of value keys found.array_length)
    else thrown

-- The last frame of the stack stands first.
pub record JcsState : Type 0 where
  pub chunks : List Text
  pub stack : List Frame
  pub ancestors : List ℕ

-- `ancestors.delete(value)`
abbrev pub delete : ℕ → List ℕ → List ℕ
delete value [] = []
delete value (a ∷ rest) = if a == value then delete value rest else a ∷ delete value rest

-- What precedes a member: a comma, and the key of an object.
unfoldable pub lead_in : ContainerFrame → Text → Outcome (List Text)
unfolding quote
lead_in frame key =
    let comma = if ltb 0 frame.index then (0x2c ∷ []) ∷ [] else [] in
    if frame.array
    then done comma
    else quote key >>= λ quoted. done (comma ++ quoted ∷ (0x3a ∷ []) ∷ [])

-- The branch of a container; the last argument is the key at its index.
unfoldable pub container_step :
    Heap → ContainerFrame → List Text → List Frame → List ℕ → Option Text → Outcome JcsState
unfolding lead_in member
container_step heap frame chunks rest ancestors none = done (record {
  chunks = chunks ++ ((if frame.array then 0x5d else 0x7d) ∷ []) ∷ [];
  stack = rest;
  ancestors = delete frame.value ancestors;
})
container_step heap frame chunks rest ancestors (some key) = lead_in frame key >>= λ lead.
    member heap frame.value key >>= λ value. done (record {
      chunks = chunks ++ lead;
      stack = value_frame value ∷ container_frame (record frame { index = frame.index + 1 }) ∷ rest;
      ancestors = ancestors;
    })

abbrev pub true_text : Text
true_text = 116 ∷ 114 ∷ 117 ∷ 101 ∷ []

abbrev pub false_text : Text
false_text = 102 ∷ 97 ∷ 108 ∷ 115 ∷ 101 ∷ []

abbrev pub null_text : Text
null_text = 110 ∷ 117 ∷ 108 ∷ 108 ∷ []

abbrev pub write : List Text → List Frame → List ℕ → Text → Outcome JcsState
write chunks rest ancestors text =
    done (record { chunks = chunks ++ text ∷ []; stack = rest; ancestors = ancestors })

-- The branches of a value.
unfoldable pub value_step : Heap → JsValue → List Text → List Frame → List ℕ → Outcome JcsState
unfolding quote container
value_step heap null_value chunks rest ancestors = write chunks rest ancestors null_text
value_step heap (string s) chunks rest ancestors = quote s >>= write chunks rest ancestors
value_step heap (boolean b) chunks rest ancestors =
    write chunks rest ancestors (if b then true_text else false_text)
value_step heap (number n) chunks rest ancestors =
    if not n.is_finite then thrown else write chunks rest ancestors n.text
value_step heap (object value) chunks rest ancestors =
    if contains ancestors value
    then thrown
    else (container heap value >>= λ next. done (record {
      chunks = chunks ++ ((if next.array then 0x5b else 0x7b) ∷ []) ∷ [];
      stack = container_frame next ∷ rest;
      ancestors = value ∷ ancestors;
    }))
value_step heap other chunks rest ancestors = thrown

unfoldable pub canonical_step : Heap → List Text → List ℕ → Frame → List Frame → Outcome JcsState
unfolding container_step value_step
canonical_step heap chunks ancestors (container_frame frame) rest =
    container_step heap frame chunks rest ancestors (get_elem? frame.keys frame.index)
canonical_step heap chunks ancestors (value_frame value) rest =
    value_step heap value chunks rest ancestors

-- `while (stack.length > 0)`, on fuel; the last argument is the stack.
unfoldable pub canonical_loop : ℕ → Heap → List Text → List ℕ → List Frame → Outcome (List Text)
unfolding canonical_step
canonical_loop zero heap chunks ancestors stack = out_of_fuel
canonical_loop (suc fuel) heap chunks ancestors [] = done chunks
canonical_loop (suc fuel) heap chunks ancestors (frame ∷ rest) =
    canonical_step heap chunks ancestors frame rest >>= λ s.
    canonical_loop fuel heap s.chunks s.ancestors s.stack

unfoldable pub canonicalize : ℕ → Heap → JsValue → Outcome (List ℕ)
unfolding canonical_loop utf8
canonicalize fuel heap value =
    canonical_loop fuel heap [] [] (value_frame value ∷ []) >>= λ chunks. done (utf8 (join chunks))
