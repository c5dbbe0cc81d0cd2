-- ===== src/Canonical/Trees.antt =====
-- JSON values as trees, their canonical text, and the values that stand for them
-- (packages/core/src/features/canonicalization/owned-jcs/factory.ts).
use get_modular.Base.{
  ℕ, ◌+◌, ◌≡◌, ◌⊎◌, List, [], ◌∷◌, ◌++◌, Bool, true, false, contains, number_key, if◌then◌else◌,
  Text,
}
use get_modular.Base.Outcome.{done}
use get_modular.Scanner.Cursor.{join}
use get_modular.Scanner.Text.{is_well_formed}
use get_modular.Canonical.Values.{JsNumber, JsValue, Heap}
use get_modular.Canonical.Writing.{stringify}
use get_modular.Canonical.Machine.{
  ContainerFrame, container, member, null_text, true_text, false_text,
}

-- The keys of an array are not written.
mutual
  pub data Json : Type 0 where
    null : Json
    boolean : Bool → Json
    string : Text → Json
    number : Text → Json
    collection : Bool → Entries → Json

  pub data Entries : Type 0 where
    nothing : Entries
    entry : Text → Json → Entries → Entries

-- The parts of the text of a value, and of the entries that follow `first` ones.
abbrev pub comma_unless : Bool → List Text
comma_unless first = if first then [] else (0x2c ∷ []) ∷ []

abbrev pub key_parts : Bool → Text → List Text
key_parts array key = if array then [] else stringify key ∷ (0x3a ∷ []) ∷ []

unfoldable mutual
  pub parts : Json → List Text
  parts null = null_text ∷ []
  parts (boolean b) = (if b then true_text else false_text) ∷ []
  parts (string s) = stringify s ∷ []
  parts (number n) = n ∷ []
  parts (collection array entries) =
      ((if array then 0x5b else 0x7b) ∷ [])
      ∷ (entry_parts array true entries ++ ((if array then 0x5d else 0x7d) ∷ []) ∷ [])

  pub entry_parts : Bool → Bool → Entries → List Text
  entry_parts array first nothing = []
  entry_parts array first (entry key value entries) =
      comma_unless first
      ++ (key_parts array key ++ (parts value ++ entry_parts array false entries))

-- The canonical text.
unfoldable pub print : Json → Text
unfolding parts
print j = join (parts j)

-- The rounds that a value and its entries take.
unfoldable mutual
  pub rounds : Json → ℕ
  rounds (collection array entries) = entry_rounds entries + 2
  rounds _ = 1

  pub entry_rounds : Entries → ℕ
  entry_rounds nothing = 0
  entry_rounds (entry key value entries) = rounds value + entry_rounds entries + 1

-- What the machine reads of a value is a tree; the list names the objects round it, and the keys are
-- those that the container has found, in order. Represents says it by the properties of the objects.
mutual
  pub data Denotes (heap : Heap) : List ℕ → JsValue → Json → Type 0 where
    of_null : {above : List ℕ} → Denotes heap above JsValue.null_value null
    of_boolean : {above : List ℕ} {b : Bool} → Denotes heap above (JsValue.boolean b) (boolean b)
    of_string :
        {above : List ℕ} {s : Text}
        → is_well_formed s ≡ true
        → Denotes heap above (JsValue.string s) (string s)
    of_number :
        {above : List ℕ} {n : JsNumber}
        → n.is_finite ≡ true
        → Denotes heap above (JsValue.number n) (number n.text)
    of_object :
        {above : List ℕ} {r : ℕ} {frame : ContainerFrame} {entries : Entries}
        → contains above r ≡ false
        → container heap r ≡ done frame
        → Holds heap (r ∷ above) r frame.array frame.keys entries
        → Denotes heap above (JsValue.object r) (collection frame.array entries)

  pub data Holds (heap : Heap) : List ℕ → ℕ → Bool → List Text → Entries → Type 0 where
    no_keys : {above : List ℕ} {r : ℕ} {array : Bool} → Holds heap above r array [] nothing
    with_key :
        {above : List ℕ} {r : ℕ} {array : Bool} {key : Text} {keys : List Text} {value : JsValue}
        {j : Json} {entries : Entries}
        → (array ≡ true) ⊎ (is_well_formed key ≡ true)
        → member heap r key ≡ done value
        → Denotes heap above value j
        → Holds heap above r array keys entries
        → Holds heap above r array (key ∷ keys) (entry key j entries)
