-- ===== src/Canonical/Examples.antt =====
-- Concrete values and texts.
use get_modular.Base.{
  smaller, ℕ, ◌+◌, ◌≡◌, refl, List, [], ◌∷◌, none, some, true, false, arith, length, Text, inr,
}
use get_modular.Base.Outcome.{done}
use get_modular.Scanner.Strings.{string}
use get_modular.Scanner.Cursor.{token_at, decode_string, text}
use get_modular.Scanner.Text.{utf8_size, is_well_formed}
use get_modular.Scanner.Utf8.{encode}
use get_modular.Canonical.Values.{JsValue, JsObject, Heap, named, object_prototype}
use get_modular.Canonical.Writing.{quote, utf8}
use get_modular.Canonical.Machine.{canonicalize}
use get_modular.Canonical.Trees.{Json, collection, nothing, entry, print, rounds}
use get_modular.Canonical.Represents.{
  Represents, an_object, a_boolean, a_string, no_member, least_member, here, there, before_none,
  before_all,
}
use get_modular.Canonical.Serialization.{canonicalize_lem}
use get_modular.Canonical.Literals.{Stands}
use get_modular.Canonical.RoundTrip.{decode_string-quote}

abbrev b_key : Text
b_key = 98 ∷ []

abbrev a_key : Text
a_key = 97 ∷ []

-- {b: "é\n", a: true}
abbrev value_text : Text
value_text = 0xe9 ∷ 10 ∷ []

abbrev record_object : JsObject
record_object = record {
  array_length = none;
  prototype = object_prototype;
  properties =
      (named b_key, record { value = some (JsValue.string value_text); enumerable = true })
      ∷ (named a_key, record { value = some (JsValue.boolean true); enumerable = true })
      ∷ [];
}

abbrev heap : Heap
heap r = record_object

abbrev tree : Json
tree =
    collection false
      (entry a_key (Json.boolean true) (entry b_key (Json.string value_text) nothing))

tree_represented : Represents heap [] (JsValue.object 7) tree
unfolding is_well_formed
tree_represented =
    an_object {members = (b_key, JsValue.string value_text) ∷ (a_key, JsValue.boolean true) ∷ []}
      refl refl (inr refl) refl
      (least_member refl (there here) (before_all (smaller (omega arith)) before_none) a_boolean
        (least_member refl here before_none (a_string refl) no_member))

canonicalize_lem_example : canonicalize 9 heap (JsValue.object 7) ≡ done (utf8 (print tree))
unfolding rounds
canonicalize_lem_example =
    canonicalize_lem heap (JsValue.object 7) tree 9 tree_represented (omega arith)

-- The text of value_text, in front of a comma.
abbrev quoted_text : Text
quoted_text = 0x22 ∷ 0xe9 ∷ 0x5c ∷ 0x6e ∷ 0x22 ∷ []

abbrev quoted_bytes : List ℕ
quoted_bytes = 0x5b ∷ 0x22 ∷ 0xc3 ∷ 0xa9 ∷ 0x5c ∷ 0x6e ∷ 0x22 ∷ 0x2c ∷ []

value_quoted : quote value_text ≡ done quoted_text
unfolding quote
value_quoted = refl

quoted_in_place : Stands quoted_bytes 1 (utf8 quoted_text)
unfolding utf8 encode
quoted_in_place = (refl, (refl, (refl, (refl, (refl, (refl, tt))))))

decode_string-quote_example :
    (token_at quoted_bytes 1
      ≡ some (record {
        kind = string (utf8_size value_text) true;
        start = 1;
        stop = 1 + length (utf8 quoted_text);
      }))
    × (decode_string quoted_bytes 1 (1 + length (utf8 quoted_text)) ≡ some (text value_text))
decode_string-quote_example =
    decode_string-quote value_text quoted_text quoted_bytes 1 (omega arith, (omega arith, tt))
      value_quoted quoted_in_place
