-- ===== src/Documents/Integers/Digits.antt =====
-- What the digits from the significant start on are worth: `materializeInteger` and `exceedsSafeInteger`
-- of packages/core/src/features/input-admission/raw-integer.ts.
use get_modular.Base.{
  ℕ, zero, suc, ◌+◌, ◌*◌, ◌^◌, ◌≤◌, ◌<◌, ◌≡◌, inl, inr, refl, List, [], ◌∷◌, ◌++◌, Bool, true,
  false, length, arith, ap, ◌∙◌, sym, number_key, Bool-cases, if◌then◌else◌, ltb, ltb→lt, lt→ltb,
  length-append,
}
use native.Mathlib.Nat.{mul-le-mul_right}
use get_modular.Base.Outcome.{done}
use get_modular.Documents.Integers.{
  normalized_digit, limit_digit, exceeds_from, exceeds_safe_integer, materialize_from,
  materialize_integer,
}
use get_modular.Documents.Integers.Decimal.{
  worth, zeros, AllDigits, worth_split, worth_bound, worth_head,
}
use get_modular.Documents.Integers.Spelling.{max_safe_integer}
use get_modular.Documents.Integers.Runs.{
  RunAt, digit, over_point, AllDigits-append, AllDigits-zeros, length-zeros,
}

ltb_not : (m n : ℕ) → n ≤ m → ltb m n ≡ false
ltb_not m n h = ground (arith, h)

-- Digits of one length, compared from the first on.
abbrev above : List ℕ → List ℕ → Bool
above [] xs = false
above (l ∷ ls) [] = false
above (l ∷ ls) (x ∷ xs) =
    let rest = above ls xs in if ltb l x then true else if ltb x l then false else rest

-- The first digits decide, unless they are equal.
first_decides :
    (l x p m n : ℕ)
    → m < p
    → n < p
    → (if ltb l x then true else if ltb x l then false else ltb m n) ≡ ltb (l * p + m) (x * p + n)
first_decides l x p m n below_m below_n = elim (Bool-cases (ltb l x)) [
  | inl less ↦
      let product : suc l * p ≤ x * p = mul-le-mul_right p (ltb→lt l x less) in
      rw less (sym (lt→ltb _ _ (omega (arith, product, below_m))))
  | inr more ↦ elim (Bool-cases (ltb x l)) [
    | inl greater ↦
        let product : suc x * p ≤ l * p = mul-le-mul_right p (ltb→lt x l greater) in
        rw (more, greater) (sym (ltb_not _ _ (omega (arith, product, below_n))))
    | inr equal ↦
        let same : l ≡ x = ground (arith, more, equal) in
        let product : l * p ≡ x * p = ap (λ (t : ℕ). t * p) same in
        rw (more, equal) (ground (arith, product))
  ]
]

above-worth :
    (ls xs : List ℕ)
    → length ls ≡ length xs
    → AllDigits ls
    → AllDigits xs
    → above ls xs ≡ ltb (worth 0 ls) (worth 0 xs)
above-worth [] [] same a b = refl
above-worth [] (x ∷ xs) same a b = absurd (omega (arith, same))
above-worth (l ∷ ls) [] same a b = absurd (omega (arith, same))
above-worth (l ∷ ls) (x ∷ xs) same (al, a) (bx, b) =
    let size : length ls ≡ length xs = omega (arith, same) in
    let power : 10 ^ length ls ≡ 10 ^ length xs = ap (λ (n : ℕ). 10 ^ n) size in
    let low = worth_bound ls a in
    let high = worth_bound xs b in
    let left : worth 0 (l ∷ ls) ≡ l * 10 ^ length ls + worth 0 ls =
      worth_head l ls ∙ worth_split l ls in
    let right : worth 0 (x ∷ xs) ≡ x * 10 ^ length ls + worth 0 xs =
      worth_head x xs ∙ worth_split x xs ∙ ap (λ (p : ℕ). x * p + worth 0 xs) (sym power) in
    ap (λ (t : Bool). if ltb l x then true else if ltb x l then false else t)
      (above-worth ls xs size a b)
    ∙ first_decides l x (10 ^ length ls) (worth 0 ls) (worth 0 xs) low (omega (arith, high, power))
    ∙ sym (
        ap (λ (m : ℕ). ltb m (worth 0 (x ∷ xs))) left
        ∙ ap (λ (n : ℕ). ltb (l * 10 ^ length ls + worth 0 ls) n) right)

by_tests :
    (above below rest : Bool)
    → (if above then done true else if below then done false else done rest)
      ≡ done (if above then true else if below then false else rest)
by_tests true below rest = refl
by_tests false true rest = refl
by_tests false false rest = refl

module _ (bytes : List ℕ) (significant : ℕ) where
  next_digit :
      {p stop d : ℕ} {ds : List ℕ} (index : ℕ)
      → RunAt bytes p (d ∷ ds) stop
      → index < significant
      → (q : ℕ) × (normalized_digit bytes p index significant ≡ done (d, q)) × RunAt bytes q ds stop
  unfolding normalized_digit
  next_digit {p} index (digit e run) early = (p + 1, ground (arith, e, early), run)
  next_digit {p} index (over_point dot e run) early =
      (p + 1 + 1, ground (arith, dot, e, early), run)

  padding :
      (p index : ℕ) → significant ≤ index → normalized_digit bytes p index significant ≡ done (0, p)
  unfolding normalized_digit
  padding p index late = ground (arith, late)

  -- The digits that `normalizedDigit` returns from a cursor and an index on.
  data Stream : ℕ → ℕ → List ℕ → Type 0 where
    stops : {p index : ℕ} → Stream p index []
    yields :
        {p q index x : ℕ} {xs : List ℕ}
        → normalized_digit bytes p index significant ≡ done (x, q)
        → Stream q (index + 1) xs
        → Stream p index (x ∷ xs)

  zeros-Stream : (k p index : ℕ) → significant ≤ index → Stream p index (zeros k)
  zeros-Stream zero p index late = stops
  zeros-Stream (suc k) p index late =
      yields (padding p index late) (zeros-Stream k p (index + 1) (omega (arith, late)))

  -- They are the significant digits, and then zeros.
  run-Stream :
      (p stop index k : ℕ) (ds rest : List ℕ)
      → RunAt bytes p (ds ++ rest) stop
      → index + length ds ≡ significant
      → Stream p index (ds ++ zeros k)
  run-Stream p stop index k [] rest run size = zeros-Stream k p index (omega (arith, size))
  run-Stream p stop index k (d ∷ ds) rest run size =
      let (q, e, run) = next_digit index run (omega (arith, size)) in
      yields e (run-Stream q stop (index + 1) k ds rest run (omega (arith, size)))

  materialize_from-worth :
      {p index : ℕ} {xs : List ℕ} (value : ℕ)
      → Stream p index xs
      → materialize_from bytes significant (length xs) p index value ≡ done (worth value xs)
  unfolding materialize_from
  materialize_from-worth value stops = refl
  materialize_from-worth value (yields {x} e xs) = rw e (materialize_from-worth (value * 10 + x) xs)

  -- The limit's digits from an index on.
  abbrev LimitsFrom : ℕ → List ℕ → Type 0
  LimitsFrom index [] = Unit {0}
  LimitsFrom index (l ∷ ls) = (limit_digit index ≡ l) × LimitsFrom (index + 1) ls

  exceeds_from-above :
      (ls : List ℕ) {p index : ℕ} {xs : List ℕ}
      → LimitsFrom index ls
      → length ls ≡ length xs
      → Stream p index xs
      → exceeds_from bytes significant (length xs) p index ≡ done (above ls xs)
  unfolding exceeds_from
  exceeds_from-above [] limits same stops = refl
  exceeds_from-above [] limits same (yields e further) = absurd (omega (arith, same))
  exceeds_from-above (l ∷ ls) limits same stops = absurd (omega (arith, same))
  exceeds_from-above (l ∷ ls) (limit, limits) same (yields {x} {xs} e further) =
      rw (e, limit, exceeds_from-above ls limits (omega (arith, same)) further)
        (by_tests (ltb l x) (ltb x l) (above ls xs))

abbrev limits : List ℕ
limits = 9 ∷ 0 ∷ 0 ∷ 7 ∷ 1 ∷ 9 ∷ 9 ∷ 2 ∷ 5 ∷ 4 ∷ 7 ∷ 4 ∷ 0 ∷ 9 ∷ 9 ∷ 1 ∷ []

limits-AllDigits : AllDigits limits
limits-AllDigits = ground arith

-- What is read of a core of significant digits that zeros follow.
module _ (bytes : List ℕ) (start stop k : ℕ) (core rest : List ℕ) (all : AllDigits core)
    (run : RunAt bytes start (core ++ rest) stop) where
  pub length-padded : length (core ++ zeros k) ≡ length core + k
  length-padded = length-append core (zeros k) ∙ omega (arith, length-zeros k)

  pub materialize_integer-worth :
      (n : ℕ)
      → n ≡ length core + k
      → materialize_integer bytes start (length core) n ≡ done (worth 0 (core ++ zeros k))
  unfolding materialize_integer
  materialize_integer-worth n h =
      ap (λ (m : ℕ). materialize_from bytes (length core) m start 0 0) (h ∙ sym length-padded)
      ∙ materialize_from-worth bytes (length core) 0
          (run-Stream bytes (length core) start stop 0 k core rest run (omega arith))

  pub exceeds_safe_integer_lem :
      length core + k ≡ 16
      → exceeds_safe_integer bytes start (length core)
        ≡ done (ltb max_safe_integer (worth 0 (core ++ zeros k)))
  unfolding exceeds_safe_integer
  exceeds_safe_integer_lem h =
      let size : length (core ++ zeros k) ≡ 16 = length-padded ∙ h in
      let stream = run-Stream bytes (length core) start stop 0 k core rest run (omega arith) in
      ap (λ (m : ℕ). exceeds_from bytes (length core) m start 0) (sym size)
      ∙ exceeds_from-above bytes (length core) limits (ground arith) (sym size) stream
      ∙ ap done (
          above-worth limits (core ++ zeros k) (sym size) limits-AllDigits
            (AllDigits-append core (zeros k) all (AllDigits-zeros k)))
