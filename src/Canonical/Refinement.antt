-- ===== src/Canonical/Refinement.antt =====
-- The stack machine writes the canonical text
-- (packages/core/src/features/canonicalization/owned-jcs/factory.ts: `canonicalize`).
use get_modular.Base.{
  ℕ, zero, suc, ◌+◌, ◌-◌, ◌<◌, ◌≡◌, ◌⊎◌, inl, inr, refl, List, [], ◌∷◌, ◌++◌, Option, none, some,
  Bool, true, false, not, arith, number_key, ltb, if◌then◌else◌, Text, get_elem?, drop, contains,
  subst, sym, ap, ◌∙◌, Bool-cases, lt→ltb,
}
use mathlib.Core.List.{append_assoc}
use get_modular.Base.Outcome.{Outcome, done, ◌>>=◌, bind_done}
use get_modular.Scanner.Cursor.{join}
use get_modular.Scanner.Text.{is_well_formed}
use get_modular.Canonical.Values.{JsNumber, JsValue, Heap}
use get_modular.Canonical.Writing.{stringify, utf8}
use get_modular.Canonical.Machine.{
  JcsState, ContainerFrame, Frame, value_frame, container_frame, member, container, frame_of,
  own_keys, fits_prototype, is_array, null_text, true_text, false_text, canonical_step,
  container_step, value_step, canonical_loop, canonicalize,
}
use get_modular.Canonical.Trees.{
  Json, Entries, parts, entry_parts, print, rounds, entry_rounds, Denotes, Holds, of_null,
  of_boolean, of_string, of_number, of_object, no_keys, with_key, key_parts, comma_unless,
}
use get_modular.Canonical.Rounds.{
  Runs, Runs-cast, Runs-loop, Runs-trans, Writes, at, close_round, get_elem?-drop,
  get_elem?-drop_empty, lead_in-parts, moves, stays, well_formed_lem,
}

module _ (heap : Heap) where
  member_round :
      (frame : ContainerFrame) (first : Bool) (rest : List Frame) (above : List ℕ) (key : Text)
      (value : JsValue) (chunks : List Text)
      → get_elem? frame.keys frame.index ≡ some key
      → ltb 0 frame.index ≡ not first
      → (frame.array ≡ true) ⊎ (is_well_formed key ≡ true)
      → member heap frame.value key ≡ done value
      → Runs heap 1 (at chunks (container_frame frame ∷ rest) above) (
          at
            (chunks ++ (comma_unless first ++ key_parts frame.array key))
            (value_frame value ∷ container_frame (record frame { index = frame.index + 1 }) ∷ rest)
            above)
  unfolding canonical_step container_step
  member_round frame first rest above key value chunks e i formed found =
      moves (container_frame frame) rest refl
        (rw (e, container_step) (rw (lead_in-parts heap frame first key i formed) (rw found refl)))
        stays

  value_round :
      (value : JsValue) (rest : List Frame) (above : List ℕ) (text : Text) (chunks : List Text)
      → value_step heap value chunks rest above ≡ done (at (chunks ++ text ∷ []) rest above)
      → Runs heap 1
          (at chunks (value_frame value ∷ rest) above)
          (at (chunks ++ text ∷ []) rest above)
  unfolding canonical_step
  value_round value rest above text chunks step = moves (value_frame value) rest refl step stays

  module _ (rest : List Frame) (above : List ℕ) (chunks : List Text) where
    abbrev Written : JsValue → Text → Type 0
    Written value text =
        value_step heap value chunks rest above ≡ done (at (chunks ++ text ∷ []) rest above)

    null_step : Written JsValue.null_value null_text
    unfolding value_step
    null_step = refl

    boolean_step : (b : Bool) → Written (JsValue.boolean b) (if b then true_text else false_text)
    unfolding value_step
    boolean_step b = refl

    string_step : (s : Text) → is_well_formed s ≡ true → Written (JsValue.string s) (stringify s)
    unfolding value_step
    string_step s w = rw (well_formed_lem s ∙ w, value_step) refl

    number_step : (n : JsNumber) → n.is_finite ≡ true → Written (JsValue.number n) n.text
    unfolding value_step
    number_step n f = rw (f, value_step) refl

  open_round :
      (r : ℕ) (frame : ContainerFrame) (rest : List Frame) (above : List ℕ) (chunks : List Text)
      → contains above r ≡ false
      → container heap r ≡ done frame
      → Runs heap 1 (at chunks (value_frame (JsValue.object r) ∷ rest) above) (
          at
            (chunks ++ ((if frame.array then 0x5b else 0x7b) ∷ []) ∷ [])
            (container_frame frame ∷ rest)
            (r ∷ above))
  unfolding canonical_step value_step
  open_round r frame rest above chunks fresh opened =
      moves (value_frame (JsValue.object r)) rest refl (rw (fresh) (rw (opened) refl)) stays

  Runs-end :
      {n : ℕ} {s : JcsState} (rest : List Frame) (above : List ℕ) (chunks written : List Text)
      → Runs heap n s (at chunks rest above)
      → chunks ≡ written
      → Runs heap n s (at written rest above)
  Runs-end {n} {s} rest above chunks written r e =
      subst (λ (c : List Text). Runs heap n s (at c rest above)) e r

  frame_of-frame :
      (r : ℕ) (keys : List Text) (array_length : Option ℕ) (frame : ContainerFrame)
      → frame_of r keys array_length ≡ done frame
      → (frame.value ≡ r) × (frame.index ≡ 0)
  unfolding frame_of
  frame_of-frame r keys (some n) frame h = ground arith
  frame_of-frame r keys none frame h = ground arith

  container-frame :
      (r : ℕ) (frame : ContainerFrame)
      → container heap r ≡ done frame
      → frame ≡ record { value = r; keys = frame.keys; array = frame.array; index = 0 }
  unfolding container frame_of
  container-frame r frame h =
      elim (Bool-cases (fits_prototype (is_array (heap r).array_length) (heap r).prototype)) [
        | inl fits ↦
            let (keys, _, g) =
              bind_done (own_keys (is_array (heap r).array_length) (heap r).properties)
                (λ keys. frame_of r keys (heap r).array_length) (ground arith) in
            let (v, i) = frame_of-frame r keys (heap r).array_length frame g in
            λ k. record { value = v k; keys = frame.keys; array = frame.array; index = i k }
        | inr unfit ↦ absurd (ground arith)
      ]

next_drop :
    (index : ℕ) (all others : List Text)
    → drop (suc index) all ≡ others
    → drop (index + 1) all ≡ others
next_drop index all others h =
    let same : suc index ≡ index + 1 = omega arith in subst (λ (k : ℕ). drop k all ≡ others) same h

mutual
  unfolding parts rounds

  Denotes-Writes :
      (heap : Heap) (above : List ℕ) (value : JsValue) (j : Json)
      → Denotes heap above value j
      → (rest : List Frame)
      → Writes heap (rounds j) above (value_frame value ∷ rest) (parts j) rest above
  Denotes-Writes heap above _ _ of_null rest chunks =
      value_round heap JsValue.null_value rest above _ chunks (null_step heap rest above chunks)
  Denotes-Writes heap above _ _ (of_boolean {b}) rest chunks =
      value_round heap (JsValue.boolean b) rest above _ chunks
        (boolean_step heap rest above chunks b)
  Denotes-Writes heap above _ _ (of_string {s} w) rest chunks =
      value_round heap (JsValue.string s) rest above _ chunks
        (string_step heap rest above chunks s w)
  Denotes-Writes heap above _ _ (of_number {n} f) rest chunks =
      value_round heap (JsValue.number n) rest above _ chunks
        (number_step heap rest above chunks n f)
  Denotes-Writes heap above _ _ (of_object {r} {frame} {entries} fresh opened held) rest chunks =
      let opening : List Text = ((if frame.array then 0x5b else 0x7b) ∷ []) ∷ [] in
      let closing : List Text = ((if frame.array then 0x5d else 0x7d) ∷ []) ∷ [] in
      let inner =
        Holds-Writes heap above r frame.array frame.keys entries held fresh frame.keys 0 true rest
          refl refl (chunks ++ opening) in
      let same = container-frame heap r frame opened in
      Runs-cast heap
        (Runs-trans heap (open_round heap r frame rest above chunks fresh opened) (
          Runs-end heap rest above _ _
            (subst
              (λ (fr : ContainerFrame).
                Runs heap (suc (entry_rounds entries))
                  (at (chunks ++ opening) (container_frame fr ∷ rest) (r ∷ above))
                  (at ((chunks ++ opening) ++ (entry_parts frame.array true entries ++ closing))
                    rest above))
              (sym same) inner)
            (append_assoc chunks opening (entry_parts frame.array true entries ++ closing))))
        (omega arith)

  Holds-Writes :
      (heap : Heap) (above : List ℕ) (r : ℕ) (array : Bool) (keys : List Text) (entries : Entries)
      → Holds heap (r ∷ above) r array keys entries
      → contains above r ≡ false
      → (all : List Text) (index : ℕ) (first : Bool) (rest : List Frame) → drop index all ≡ keys
      → ltb 0 index ≡ not first
      → Writes heap
          (suc (entry_rounds entries))
          (r ∷ above)
          (container_frame (record { value = r; keys = all; array = array; index = index }) ∷ rest)
          (entry_parts array first entries ++ ((if array then 0x5d else 0x7d) ∷ []) ∷ [])
          rest
          above
  Holds-Writes heap above r array keys entries no_keys fresh all index first rest e i chunks =
      close_round heap (record { value = r; keys = all; array = array; index = index }) rest above
        (get_elem?-drop_empty all index e) fresh chunks
  Holds-Writes heap above r array keys entries
        (with_key {key} {keys = others} {value} {j} {entries = more} formed found d held) fresh all
        index first rest e i chunks =
      let frame : ContainerFrame = record { value = r; keys = all; array = array; index = index } in
      let moved : ContainerFrame = record {
        value = r;
        keys = all;
        array = array;
        index = index + 1;
      } in
      let lead : List Text = comma_unless first ++ key_parts array key in
      let closing : List Text = ((if array then 0x5d else 0x7d) ∷ []) ∷ [] in
      let (here, beyond) = get_elem?-drop all index key others e in
      Runs-cast heap
        (Runs-trans heap
          (member_round heap frame first rest (r ∷ above) key value chunks here i formed found)
          (Runs-trans heap
            (Denotes-Writes heap (r ∷ above) value j d (container_frame moved ∷ rest)
              (chunks ++ lead))
            (Runs-end heap rest above _ _
              (Holds-Writes heap above r array others more held fresh all (index + 1) false rest
                (next_drop index all others beyond) (lt→ltb 0 (index + 1) (omega arith))
                ((chunks ++ lead) ++ parts j))
              (simp append_assoc))))
        (omega arith)

-- What the machine reads of a value decides what it returns, with any fuel above its rounds.
pub canonicalize-Denotes :
    (heap : Heap) (value : JsValue) (j : Json) (fuel : ℕ)
    → Denotes heap [] value j
    → rounds j < fuel
    → canonicalize fuel heap value ≡ done (utf8 (print j))
unfolding canonicalize canonical_loop print
canonicalize-Denotes heap value j zero d enough = absurd (omega arith)
canonicalize-Denotes heap value j (suc fuel) d enough =
    let run =
      Runs-loop heap (suc (fuel - rounds j)) (Denotes-Writes heap [] value j d [] []) (suc fuel)
        (omega arith) in
    ap (λ (m : Outcome (List Text)). m >>= λ chunks. done (utf8 (join chunks))) run
