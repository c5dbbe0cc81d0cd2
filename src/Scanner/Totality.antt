-- ===== src/Scanner/Totality.antt =====
-- The rounds of the string loop, its end, and the spans of its tokens
-- (packages/core/src/features/raw-scanner/owned-iterative/scanner.ts: `scanString`).
use get_modular.Base.{
  ℕ, zero, suc, ◌+◌, ◌≤◌, ◌<◌, ◌≡◌, refl, List, Option, none, some, Bool, true, false, arith,
  number_key, ltb, leb, get_elem?, inl, inr, Bool-cases, ltb→lt, ◌||◌, not, ◌⊎◌, ◌∙◌, sym,
}
use get_modular.Scanner.Bytes.{is_byte}
use get_modular.Scanner.Strings.{
  string, invalid_token, StringState, scan_string_unit, scanned, invalid_at, ScannedUnit,
  next_state, append_string_unit, account_string_unit, account_unit, close_string, string_loop,
  Scan, string_token, last_chunk, scan_string, initial_state,
}
use get_modular.Scanner.Units.{scan_string_unit_bounds, scan_string_unit_at}

pub ScannedUnit-cases :
    (r : ScannedUnit)
    → ((u : ℕ) × (next : ℕ) × (r ≡ scanned u next)) ⊎ ((at : ℕ) × (r ≡ invalid_at at))
ScannedUnit-cases (scanned u next) = inl (u, next, refl)
ScannedUnit-cases (invalid_at at) = inr (at, refl)

-- Accounting and appending leave the position alone.
pub next_state-position :
    (state : StringState) (unit next : ℕ) → (next_state state unit next).position ≡ next
unfolding next_state append_string_unit account_string_unit account_unit
next_state-position state unit next = ground arith

pub close_string-position : (state : StringState) → (close_string state).position ≡ state.position
unfolding close_string
close_string-position state = ground arith

module _ (bytes : List ℕ) (start limit : ℕ) where
  -- What one round of the loop does: the input is over, the string closes, it is broken, or a unit is
  -- read and the loop goes on.
  pub data Round (fuel : ℕ) (state : StringState) : Type 0 where
    over :
        limit ≤ state.position
        → string_loop (suc fuel) bytes start limit state
          ≡ some (invalid_token start limit limit, state.chunks)
        → Round fuel state
    closes :
        state.position < limit
        → is_byte 0x22 (get_elem? bytes state.position) ≡ true
        → string_loop (suc fuel) bytes start limit state
          ≡ some (string_token start (close_string state), last_chunk state)
        → Round fuel state
    breaks :
        (at : ℕ)
        → state.position < limit
        → scan_string_unit bytes state.position limit ≡ invalid_at at
        → string_loop (suc fuel) bytes start limit state
          ≡ some (invalid_token start at limit, state.chunks)
        → Round fuel state
    reads :
        (unit next : ℕ)
        → state.position < limit
        → is_byte 0x22 (get_elem? bytes state.position) ≡ false
        → scan_string_unit bytes state.position limit ≡ scanned unit next
        → string_loop (suc fuel) bytes start limit state
          ≡ string_loop fuel bytes start limit (next_state state unit next)
        → Round fuel state

  pub round : (fuel : ℕ) (state : StringState) → Round fuel state
  unfolding string_loop
  round fuel state = elim (Bool-cases (ltb state.position limit)) [
    | inr past ↦ over (ground arith) (rw (past, string_loop) refl)
    | inl more ↦ elim (Bool-cases (is_byte 0x22 (get_elem? bytes state.position))) [
      | inl quote ↦
          closes (ltb→lt state.position limit more) quote (rw (more, string_loop) (rw quote refl))
      | inr other ↦ elim (ScannedUnit-cases (scan_string_unit bytes state.position limit)) [
        | inl (u, next, e) ↦
            reads u next (ltb→lt state.position limit more) other e
              (rw (more, string_loop) (rw other (rw e refl)))
        | inr (at, e) ↦
            breaks at (ltb→lt state.position limit more) e
              (rw (more, string_loop) (rw other (rw e refl)))
      ]
    ]
  ]

  pub string_loop_zero : (state : StringState) → string_loop 0 bytes start limit state ≡ none
  unfolding string_loop
  string_loop_zero state = refl

  -- With fuel for the bytes that are left the loop returns.
  pub string_loop_total :
      (fuel : ℕ) (state : StringState)
      → state.position ≤ limit
      → limit < state.position + fuel
      → (r : Scan) × (string_loop fuel bytes start limit state ≡ some r)
  string_loop_total zero state p h = absurd (omega arith)
  string_loop_total (suc fuel) state p h = elim (round fuel state) [
    | over _ e ↦ (_, e)
    | closes _ _ e ↦ (_, e)
    | breaks at _ _ e ↦ (_, e)
    | reads u next lt _ s e ↦
        let b = scan_string_unit_bounds bytes state.position limit u next s in
        let (r, f) =
          string_loop_total fuel (next_state state u next)
            (omega (arith, next_state-position state u next))
            (omega (arith, next_state-position state u next)) in
        (r, e ∙ f)
  ]

  -- A string token ends behind the state that the loop started in, and within the limit.
  pub string_loop-span :
      (fuel : ℕ) (state : StringState) (r : Scan) (n : ℕ) (w : Bool)
      → string_loop fuel bytes start limit state ≡ some r
      → r.0.kind ≡ string n w
      → (r.0.start ≡ start) × (state.position < r.0.stop) × (r.0.stop ≤ limit)
  unfolding invalid_token
  string_loop-span zero state r n w h k = absurd (cc (string_loop_zero state))
  string_loop-span (suc fuel) state r n w h k = elim (round fuel state) [
    | over _ e ↦ absurd (ground arith)
    | closes lt _ e ↦ ground (arith, close_string-position state)
    | breaks at _ _ e ↦ absurd (ground arith)
    | reads u next lt _ s e ↦
        let b = scan_string_unit_bounds bytes state.position limit u next s in
        let c = string_loop-span fuel (next_state state u next) r n w (sym e ∙ h) k in
        (c.0, omega (arith, next_state-position state u next), c.2)
  ]

module _ (bytes : List ℕ) (start limit : ℕ) where
  -- Whatever token the loop yields, it covers a byte and lies within the limit.
  pub string_loop-covers :
      (fuel : ℕ) (state : StringState) (r : Scan)
      → start < limit
      → start < state.position
      → string_loop fuel bytes start limit state ≡ some r
      → (r.0.start ≡ start) × (start < r.0.stop) × (r.0.stop ≤ limit)
  unfolding invalid_token
  string_loop-covers zero state r l p h = absurd (cc (string_loop_zero bytes start limit state))
  string_loop-covers (suc fuel) state r l p h = elim (round bytes start limit fuel state) [
    | over _ e ↦ ground arith
    | closes lt _ e ↦ ground (arith, close_string-position state)
    | breaks at lt q e ↦ ground (arith, scan_string_unit_at bytes state.position limit at lt q)
    | reads u next lt _ s e ↦
        let b = scan_string_unit_bounds bytes state.position limit u next s in
        string_loop-covers fuel (next_state state u next) r l
          (omega (arith, next_state-position state u next)) (sym e ∙ h)
  ]

-- `scanString` returns, whatever the bytes are.
pub scan_string_total :
    (bytes : List ℕ) (start limit : ℕ) (chunks : Option (List (List ℕ)))
    → (r : Scan) × (scan_string bytes start limit chunks ≡ some r)
unfolding scan_string
scan_string_total bytes start limit chunks =
    elim (Bool-cases (leb limit start || not (is_byte 0x22 (get_elem? bytes start)))) [
      | inl bad ↦ ((invalid_token start start limit, chunks), rw (bad, scan_string) refl)
      | inr good ↦
          let (r, e) =
            string_loop_total bytes start limit (limit + 1) (initial_state start chunks)
              (ground arith) (omega arith) in
          (r, rw (good, scan_string) e)
    ]

-- A string token starts where it was asked for, has two quotation marks and ends within the limit.
pub scan_string-span :
    (bytes : List ℕ) (start limit : ℕ) (chunks : Option (List (List ℕ))) (r : Scan) (n : ℕ)
    (w : Bool)
    → scan_string bytes start limit chunks ≡ some r
    → r.0.kind ≡ string n w
    → (r.0.start ≡ start)
      × (start + 2 ≤ r.0.stop)
      × (r.0.stop ≤ limit)
      × (string_loop (limit + 1) bytes start limit (initial_state start chunks) ≡ some r)
      × (is_byte 0x22 (get_elem? bytes start) ≡ true)
unfolding scan_string invalid_token
scan_string-span bytes start limit chunks r n w h k =
    elim (Bool-cases (leb limit start || not (is_byte 0x22 (get_elem? bytes start)))) [
      | inl bad ↦ absurd (ground arith)
      | inr good ↦
          let loop : string_loop (limit + 1) bytes start limit (initial_state start chunks)
              ≡ some r =
            ground arith in
          ground (
            arith,
            loop,
            string_loop-span bytes start limit (limit + 1) (initial_state start chunks) r n w loop
                k,
          )
    ]

pub scan_string-covers :
    (bytes : List ℕ) (start limit : ℕ) (chunks : Option (List (List ℕ))) (r : Scan)
    → start < limit
    → scan_string bytes start limit chunks ≡ some r
    → (r.0.start ≡ start) × (start < r.0.stop) × (r.0.stop ≤ limit)
unfolding scan_string invalid_token
scan_string-covers bytes start limit chunks r l h =
    elim (Bool-cases (leb limit start || not (is_byte 0x22 (get_elem? bytes start)))) [
      | inl bad ↦ ground arith
      | inr good ↦
          string_loop-covers bytes start limit (limit + 1) (initial_state start chunks) r l
            (omega arith) (ground arith)
    ]
