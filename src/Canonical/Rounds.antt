-- ===== src/Canonical/Rounds.antt =====
-- Runs of the stack machine over the rounds of its loop
-- (packages/core/src/features/canonicalization/owned-jcs/factory.ts: `canonicalize`).
use get_modular.Base.{
  ℕ, zero, suc, ◌+◌, ◌≡◌, ◌⊎◌, inl, inr, refl, List, [], ◌∷◌, ◌++◌, none, some, Bool, true, false,
  not, arith, number_key, ltb, if◌then◌else◌, Text, get_elem?, drop, contains, subst, ap, ◌∙◌,
  Bool-cases,
}
use get_modular.Base.Outcome.{Outcome, done, ◌>>=◌}
use get_modular.Scanner.Text.{is_well_formed}
use get_modular.Canonical.Values.{Heap}
use get_modular.Canonical.Writing.{well_formed, quote, stringify}
use get_modular.Canonical.Machine.{
  JcsState, ContainerFrame, Frame, container_frame, lead_in, delete, canonical_step, container_step,
  canonical_loop,
}
use get_modular.Canonical.Trees.{key_parts, comma_unless}

-- The test of the code is that of the texts that the scanner calls well-formed.
pub well_formed_lem : (s : Text) → well_formed s ≡ is_well_formed s
unfolding well_formed is_well_formed
well_formed_lem [] = refl
well_formed_lem (a ∷ []) = ground arith
well_formed_lem (a ∷ b ∷ rest) = ground (arith, well_formed_lem rest, well_formed_lem (b ∷ rest))

pub quote-stringify : (s : Text) → is_well_formed s ≡ true → quote s ≡ done (stringify s)
unfolding quote
quote-stringify s h = rw (well_formed_lem s ∙ h, quote) refl

delete-absent : (r : ℕ) (above : List ℕ) → contains above r ≡ false → delete r above ≡ above
delete-absent r [] h = refl
delete-absent r (a ∷ above) h = ground (arith, delete-absent r above)

delete-fresh : (r : ℕ) (above : List ℕ) → contains above r ≡ false → delete r (r ∷ above) ≡ above
delete-fresh r above h = ground (arith, delete-absent r above)

module _ {A : Type 0} where
  pub get_elem?-drop :
      (xs : List A) (i : ℕ) (x : A) (rest : List A)
      → drop i xs ≡ x ∷ rest
      → (get_elem? xs i ≡ some x) × (drop (suc i) xs ≡ rest)
  get_elem?-drop [] zero x rest h = absurd (cc)
  get_elem?-drop [] (suc i) x rest h = absurd (cc)
  get_elem?-drop (y ∷ xs) zero x rest h = (cc, cc)
  get_elem?-drop (y ∷ xs) (suc i) x rest h = get_elem?-drop xs i x rest h

  pub get_elem?-drop_empty : (xs : List A) (i : ℕ) → drop i xs ≡ [] → get_elem? xs i ≡ none
  get_elem?-drop_empty [] i h = refl
  get_elem?-drop_empty (y ∷ xs) zero h = absurd (cc)
  get_elem?-drop_empty (y ∷ xs) (suc i) h = get_elem?-drop_empty xs i h

abbrev pub at : List Text → List Frame → List ℕ → JcsState
at chunks stack above = record { chunks = chunks; stack = stack; ancestors = above }

module _ (heap : Heap) where
  -- So many rounds of the loop.
  pub data Runs : ℕ → JcsState → JcsState → Type 0 where
    stays : {s : JcsState} → Runs 0 s s
    moves :
        {n : ℕ} {s t u : JcsState} (frame : Frame) (rest : List Frame)
        → s.stack ≡ frame ∷ rest
        → canonical_step heap s.chunks s.ancestors frame rest ≡ done t
        → Runs n t u
        → Runs (suc n) s u

  pub Runs-cast : {m n : ℕ} {s t : JcsState} → Runs m s t → m ≡ n → Runs n s t
  Runs-cast {s} {t} r e = subst (λ (k : ℕ). Runs k s t) e r

  pub Runs-trans : {m n : ℕ} {s t u : JcsState} → Runs m s t → Runs n t u → Runs (m + n) s u
  Runs-trans stays r = Runs-cast r (omega arith)
  Runs-trans (moves frame rest e step q) r =
      Runs-cast (moves frame rest e step (Runs-trans q r)) (omega arith)

  loop_step :
      (fuel : ℕ) (s t : JcsState) (frame : Frame) (rest : List Frame)
      → s.stack ≡ frame ∷ rest
      → canonical_step heap s.chunks s.ancestors frame rest ≡ done t
      → canonical_loop (suc fuel) heap s.chunks s.ancestors s.stack
        ≡ canonical_loop fuel heap t.chunks t.ancestors t.stack
  unfolding canonical_loop
  loop_step fuel s t frame rest e step =
      ap (canonical_loop (suc fuel) heap s.chunks s.ancestors) e
      ∙ ap
          (λ (m : Outcome JcsState).
            m >>= λ u. canonical_loop fuel heap u.chunks u.ancestors u.stack)
          step

  pub Runs-loop :
      (fuel : ℕ) {n : ℕ} {s t : JcsState}
      → Runs n s t
      → (k : ℕ) → k ≡ n + fuel
      → canonical_loop k heap s.chunks s.ancestors s.stack
        ≡ canonical_loop fuel heap t.chunks t.ancestors t.stack
  Runs-loop fuel {s} stays k e =
      ap (λ (g : ℕ). canonical_loop g heap s.chunks s.ancestors s.stack) (omega arith)
  Runs-loop fuel {s} (moves frame rest e step q) zero h = absurd (omega arith)
  Runs-loop fuel {s} (moves {t} frame rest e step q) (suc k) h =
      loop_step k s t frame rest e step ∙ Runs-loop fuel q k (omega arith)

  abbrev pub Writes : ℕ → List ℕ → List Frame → List Text → List Frame → List ℕ → Type 0
  Writes n above stack added rest after =
      (chunks : List Text) → Runs n (at chunks stack above) (at (chunks ++ added) rest after)

  pub one :
      (frame : Frame) (rest : List Frame) (above after : List ℕ) (added : List Text)
      (chunks : List Text)
      → canonical_step heap chunks above frame rest ≡ done (at (chunks ++ added) rest after)
      → Runs 1 (at chunks (frame ∷ rest) above) (at (chunks ++ added) rest after)
  one frame rest above after added chunks step = moves frame rest refl step stays

  -- The end of a container, and a member of it.
  pub close_round :
      (frame : ContainerFrame) (rest : List Frame) (above : List ℕ)
      → get_elem? frame.keys frame.index ≡ none
      → contains above frame.value ≡ false
      → Writes 1
          (frame.value ∷ above)
          (container_frame frame ∷ rest)
          (((if frame.array then 0x5d else 0x7d) ∷ []) ∷ [])
          rest
          above
  unfolding canonical_step container_step
  close_round frame rest above e fresh chunks =
      moves (container_frame frame) rest refl
        (rw (e, container_step) (rw (delete-fresh frame.value above fresh) refl)) stays

  commas :
      (first : Bool)
      → done (if not first then (0x2c ∷ []) ∷ [] else []) ≡ done (comma_unless first ++ [])
  commas true = refl
  commas false = refl

  commas_and :
      (first : Bool) (key : Text)
      → done ((if not first then (0x2c ∷ []) ∷ [] else []) ++ stringify key ∷ (0x3a ∷ []) ∷ [])
        ≡ done (comma_unless first ++ stringify key ∷ (0x3a ∷ []) ∷ [])
  commas_and true key = refl
  commas_and false key = refl

  pub lead_in-parts :
      (frame : ContainerFrame) (first : Bool) (key : Text)
      → ltb 0 frame.index ≡ not first
      → (frame.array ≡ true) ⊎ (is_well_formed key ≡ true)
      → lead_in frame key ≡ done (comma_unless first ++ key_parts frame.array key)
  unfolding lead_in
  lead_in-parts frame first key e formed = elim (Bool-cases frame.array) [
    | inl array ↦ rw (e, array, lead_in) (commas first)
    | inr record_like ↦ elim formed [
      | inl array ↦ absurd (cc)
      | inr w ↦ rw (e, record_like, well_formed_lem key ∙ w, lead_in) (commas_and first key)
    ]
  ]
