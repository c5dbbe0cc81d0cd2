-- ===== src/Documents/Integers/Admission.antt =====
-- The verdict on a number (packages/core/src/features/input-admission/raw-integer.ts: `admitRawInteger`).
use get_modular.Base.{
  ℕ, ◌+◌, ◌-◌, ◌*◌, ◌^◌, ◌≤◌, ◌<◌, ◌≡◌, ◌≢◌, ◌↔◌, inl, inr, refl, List, [], ◌∷◌, ◌++◌, Bool, true,
  false, min, length, arith, ap, ◌∙◌, sym, subst, number_key, ◌==◌, Bool-cases, if◌then◌else◌, ltb,
  ltb→lt, eqb_iff,
}
use native.Mathlib.Nat.{pow-le-pow_right}
use get_modular.Base.Outcome.{Outcome, done, Returns, returns}
use get_modular.Documents.Integers.{
  ExactInteger, admitted, refused, invalid_type, invalid_format, admit_digits,
}
use get_modular.Documents.Integers.Decimal.{worth, zeros, worth-append, worth-zeros, worth_bound}
use get_modular.Documents.Integers.Spelling.{
  Number, IsMagnitude, IsVerdict, integer, not_integer, too_large, max_safe_integer, signed,
}
use get_modular.Documents.Integers.Runs.{Found}
use get_modular.Documents.Integers.Digits.{materialize_integer-worth, exceeds_safe_integer_lem}
use get_modular.Documents.Integers.Powers.{indivisible, multiple, shifted_below, shifted_above}

-- What capping the exponent leaves: the exact shifts, or a shift that stays far below or far above.
pub data Capped (raised lowered up down : ℕ) : Type 0 where
  exact : raised ≡ up → lowered ≡ down → Capped raised lowered up down
  far_below : raised ≡ up → lowered ≤ down → raised < lowered → Capped raised lowered up down
  far_above : lowered ≡ down → raised ≤ up → lowered + 17 ≤ raised → Capped raised lowered up down

pub exponent-Capped :
    (lowers : Bool) (ex limit trailing fraction : ℕ)
    → trailing + 17 ≤ limit
    → fraction + 17 ≤ limit
    → Capped
        ((if lowers then 0 else min limit ex) + trailing)
        (fraction + (if lowers then min limit ex else 0))
        ((if lowers then 0 else ex) + trailing)
        (fraction + (if lowers then ex else 0))
exponent-Capped lowers ex limit trailing fraction room room' = elim (Bool-cases (ltb limit ex)) [
  | inr small ↦
      let same : min limit ex ≡ ex = ground (arith, small) in
      exact (ap (λ (t : ℕ). (if lowers then 0 else t) + trailing) same)
        (ap (λ (t : ℕ). fraction + (if lowers then t else 0)) same)
  | inl large ↦ beyond lowers (ltb→lt limit ex large)
]
  where
    beyond :
        (lowers : Bool)
        → limit < ex
        → Capped
            ((if lowers then 0 else min limit ex) + trailing)
            (fraction + (if lowers then min limit ex else 0))
            ((if lowers then 0 else ex) + trailing)
            (fraction + (if lowers then ex else 0))
    beyond true large = far_below refl (omega (arith, large)) (omega (arith, room, large))
    beyond false large = far_above refl (omega (arith, large)) (omega (arith, room', large))

pub not_less : (a b : ℕ) → ltb a b ≡ false → b ≤ a
not_less a b h = ground (arith, h)

worth_some : (ds : List ℕ) → 0 < worth 0 ds → 0 < length ds
worth_some [] h = h
worth_some (d ∷ ds) h = omega arith

fifteen_digits : (m size : ℕ) → m < 10 ^ size → size ≤ 15 → m ≤ max_safe_integer
fifteen_digits m size small few = omega (arith, small, pow-le-pow_right {n = 10} (omega arith) few)

-- A number whose digits are a core and zeros, and whose exact shifts are `up` and `down`.
module _ (n : Number) (bytes : List ℕ) (start end significant trailing up down : ℕ)
    (f : Found bytes start significant trailing end (worth 0 (n.whole ++ n.fraction)))
    (shifts : (m : ℕ) → IsMagnitude n m ↔ (worth 0 f.core * 10 ^ up ≡ m * 10 ^ down)) where
  core_positive : 0 < worth 0 f.core
  core_positive = omega (arith, f.last_digit)

  some_core : 0 < length f.core
  some_core = worth_some f.core core_positive

  fractional : up < down → IsVerdict n (refused invalid_type)
  fractional less =
      not_integer (λ m h. indivisible (worth 0 f.core) m up down f.last_digit less ((shifts m).0 h))

  whole-IsMagnitude : down ≤ up → IsMagnitude n (worth 0 f.core * 10 ^ (up - down))
  whole-IsMagnitude more = (shifts _).1 (multiple (worth 0 f.core) up down more)

  many_digits : down ≤ up → 16 < length f.core + (up - down) → IsVerdict n (refused invalid_format)
  many_digits more many = too_large _ (whole-IsMagnitude more) (
      omega
        (arith, shifted_above (worth 0 f.core) (length f.core) (up - down) 16 f.first_digit many))

  verdict_on :
      (exceeds : Bool) (m : ℕ)
      → (exceeds ≡ true → IsVerdict n (refused invalid_format))
      → (exceeds ≡ false → IsVerdict n (admitted (signed n.negative m)))
      → Returns
          (IsVerdict n)
          (if exceeds then done (refused invalid_format) else done (admitted (signed n.negative m)))
  verdict_on true m over within = returns (over refl)
  verdict_on false m over within = returns (within refl)

  admit_digits-IsVerdict :
      down ≤ up
      → length f.core + (up - down) ≤ 16
      → Returns
          (IsVerdict n)
          (admit_digits bytes n.negative start (length f.core) (length f.core + (up - down)))
  unfolding admit_digits
  admit_digits-IsVerdict more few =
      let k = up - down in
      let m = worth 0 (f.core ++ zeros k) in
      let product : m ≡ worth 0 f.core * 10 ^ k =
        worth-append 0 f.core (zeros k) ∙ worth-zeros (worth 0 f.core) k in
      let magnitude : IsMagnitude n m =
        subst (λ (t : ℕ). IsMagnitude n t) (sym product) (whole-IsMagnitude more) in
      let positive : m ≢ 0 = λ (z : m ≡ 0). omega (
        arith,
        z,
        product,
        shifted_above (worth 0 f.core) (length f.core) k 0 f.first_digit (omega (arith, some_core)),
      ) in
      let read =
        materialize_integer-worth bytes start end k f.core (zeros trailing) f.all_digits f.run
          (length f.core + k) refl in
      elim (Bool-cases ((length f.core + k) == 16)) [
        | inl full ↦
            let over =
              exceeds_safe_integer_lem bytes start end k f.core (zeros trailing) f.all_digits f.run
                ((eqb_iff (length f.core + k) 16).0 full) in
            rw (full, over, read, admit_digits)
              (verdict_on (ltb max_safe_integer m) m
                (λ e. too_large m magnitude (ltb→lt max_safe_integer m e))
                (λ e. integer m magnitude (not_less max_safe_integer m e) (λ _. positive)))
        | inr short ↦
            let small : m < 10 ^ (length f.core + k) = omega (
              arith,
              product,
              shifted_below (worth 0 f.core) (length f.core) k (worth_bound f.core f.all_digits),
            ) in
            let fits : m ≤ max_safe_integer =
              fifteen_digits m (length f.core + k) small (ground (arith, short, few)) in
            rw (short, read, admit_digits)
              (verdict_on false m (λ e. cc (e)) (λ e. integer m magnitude fits (λ _. positive)))
      ]

  -- What `admit_shifted` does, with its differences worked out.
  abbrev pub by_shift : ℕ → ℕ → ℕ → Outcome ExactInteger
  by_shift size raised lowered =
      if ltb raised lowered
      then done (refused invalid_type)
      else if ltb 16 (size + (raised - lowered))
      then done (refused invalid_format)
      else admit_digits bytes n.negative start size (size + (raised - lowered))

  above_limit :
      (raised lowered : ℕ)
      → (raised ≤ up)
      → lowered ≡ down
      → ltb raised lowered ≡ false
      → ltb 16 (length f.core + (raised - lowered)) ≡ true
      → IsVerdict n (refused invalid_format)
  above_limit raised lowered le same ordered many =
      let ordered_le = not_less raised lowered ordered in
      many_digits (omega (arith, le, same, ordered_le))
        (omega (arith, ltb→lt 16 (length f.core + (raised - lowered)) many, le, same, ordered_le))

  pub by_shift-IsVerdict :
      (raised lowered : ℕ)
      → Capped raised lowered up down
      → Returns (IsVerdict n) (by_shift (length f.core) raised lowered)
  by_shift-IsVerdict raised lowered c = elim (Bool-cases (ltb raised lowered)) [
    | inl less ↦ rw less (returns (fractional (below c (ltb→lt raised lowered less))))
    | inr ordered ↦ elim (Bool-cases (ltb 16 (length f.core + (raised - lowered)))) [
      | inl many ↦ rw (ordered, many) (returns (over c ordered many))
      | inr few ↦ rw (ordered, few) (kept c (not_less raised lowered ordered) (not_less 16 _ few))
    ]
  ]
    where
      below : Capped raised lowered up down → raised < lowered → up < down
      below (exact a b) less = omega (arith, a, b, less)
      below (far_below a b h) less = omega (arith, a, b, less)
      below (far_above a b h) less = absurd (omega (arith, h, less))

      over :
          Capped raised lowered up down
          → ltb raised lowered ≡ false
          → ltb 16 (length f.core + (raised - lowered)) ≡ true
          → IsVerdict n (refused invalid_format)
      over (exact a b) ordered many = above_limit raised lowered (omega (arith, a)) b ordered many
      over (far_below a b h) ordered many =
          absurd (omega (arith, h, not_less raised lowered ordered))
      over (far_above a b h) ordered many = above_limit raised lowered b a ordered many

      kept :
          Capped raised lowered up down
          → lowered ≤ raised
          → length f.core + (raised - lowered) ≤ 16
          → Returns (IsVerdict n) (
              admit_digits bytes n.negative start
                (length f.core)
                (length f.core + (raised - lowered)))
      kept (exact a b) ordered few =
          subst
            (λ (t : ℕ).
              Returns (IsVerdict n)
                (admit_digits bytes n.negative start (length f.core) (length f.core + t)))
            (omega (arith, a, b))
            (admit_digits-IsVerdict (omega (arith, a, b, ordered)) (omega (arith, a, b, few)))
      kept (far_below a b h) ordered few = absurd (omega (arith, h, ordered))
      kept (far_above a b h) ordered few = absurd (omega (arith, h, few))
