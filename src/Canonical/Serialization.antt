-- ===== src/Canonical/Serialization.antt =====
-- The canonical text of a JSON value
-- (packages/core/src/features/canonicalization/owned-jcs/factory.ts: `canonicalize`).
use get_modular.Base.{
  ℕ, suc, ◌+◌, ◌<◌, ◌≡◌, inl, inr, refl, List, [], some, true, false, arith, Text, lookup, keys,
  sort, text_lt, text_key, get_elem?, subst, sym, ap, ◌∙◌,
}
use get_modular.Base.Outcome.{done}
use get_modular.Canonical.Values.{JsValue, Heap, decimal}
use get_modular.Canonical.Writing.{utf8}
use get_modular.Canonical.Machine.{member, canonicalize}
use get_modular.Canonical.Trees.{
  Json, Entries, print, rounds, Denotes, Holds, of_null, of_boolean, of_string, of_number,
  of_object, no_keys, with_key,
}
use get_modular.Canonical.Represents.{
  Represents, a_null, a_boolean, a_string, a_number, an_object, an_array, Members, no_member,
  least_member, Elements, no_element, next_element,
}
use get_modular.Canonical.Picking.{Picks-sort, Picks-lookup, Picks-others}
use get_modular.Canonical.Properties.{
  index_keys, member-members, member-elements, container-members, container-elements,
}
use get_modular.Canonical.Refinement.{canonicalize-Denotes}

mutual
  unfolding sort

  Represents-Denotes :
      (heap : Heap) {above : List ℕ} {value : JsValue} {j : Json}
      → Represents heap above value j
      → Denotes heap above value j
  Represents-Denotes heap a_null = of_null
  Represents-Denotes heap a_boolean = of_boolean
  Represents-Denotes heap (a_string formed) = of_string formed
  Represents-Denotes heap (a_number finite) = of_number finite
  Represents-Denotes heap (an_object {r} {members} fresh plain prototype same held) =
      of_object fresh (container-members heap r members plain prototype same)
        (Members-Holds heap r held (member-members heap r members same))
  Represents-Denotes heap (an_array {r} {values} d fresh sized prototype same held) =
      of_object fresh (container-elements heap r values d sized prototype same)
        (Elements-Holds heap r held (member-elements heap r values d same))

  Members-Holds :
      (heap : Heap) (r : ℕ) {above : List ℕ} {members : List (Text × JsValue)} {entries : Entries}
      → Members heap above members entries
      → ((key : Text) (value : JsValue)
          → lookup key members ≡ some value
          → member heap r key ≡ done value)
      → Holds heap above r false (sort text_lt (keys members)) entries
  Members-Holds heap r no_member reads = no_keys
  Members-Holds heap r {above} {entries}
        (least_member {key} {value} formed picked before first rest) reads =
      subst (λ (ks : List Text). Holds heap above r false ks entries)
        (sym (Picks-sort picked before))
        (with_key (inr formed) (reads key value (Picks-lookup picked before))
          (Represents-Denotes heap first)
          (Members-Holds heap r rest (λ k v h. reads k v (Picks-others picked before k v h))))

  Elements-Holds :
      (heap : Heap) (r : ℕ) {above : List ℕ} {index : ℕ} {values : List JsValue} {entries : Entries}
      → Elements heap above index values entries
      → ((k : ℕ) (value : JsValue)
          → get_elem? values k ≡ some value
          → member heap r (decimal (index + k)) ≡ done value)
      → Holds heap above r true (index_keys index values) entries
  Elements-Holds heap r no_element reads = no_keys
  Elements-Holds heap r {index} (next_element {value} first rest) reads =
      with_key (inl refl) (ap (λ n. member heap r (decimal n)) (omega arith) ∙ reads 0 value refl)
        (Represents-Denotes heap first)
        (Elements-Holds heap r rest
          (λ k v h. ap (λ n. member heap r (decimal n)) (omega arith) ∙ reads (suc k) v h))

-- For every value that stands for a tree, the machine returns the UTF-8 form of the canonical text of
-- the tree, in which the members of an object stand by ascending key, with any fuel above its rounds:
-- one for each scalar, two for each container, and one for each member.
pub canonicalize_lem :
    (heap : Heap) (value : JsValue) (j : Json) (fuel : ℕ)
    → Represents heap [] value j
    → rounds j < fuel
    → canonicalize fuel heap value ≡ done (utf8 (print j))
canonicalize_lem heap value j fuel represented enough =
    canonicalize-Denotes heap value j fuel (Represents-Denotes heap represented) enough
