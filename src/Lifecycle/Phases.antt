-- ===== src/Lifecycle/Phases.antt =====
-- How the phase of a generation may move (packages/lifecycle-kernel/src/features/lifecycle/kernel.ts).
use get_modular.Base.{
  ℕ, ◌+◌, ◌-◌, ◌≡◌, ◌⊎◌, refl, List, [], ◌∷◌, Bool, true, false, Option, none, some, arith, lookup,
  insert, lookup-insert, Option-cases, inl, inr, number_key,
}
use get_modular.Lifecycle.Kernel.{
  Kernel, GenerationRecord, Phase, retired, active, staged, quiescing, retiring, activate, quiesce,
  resume, retire, finish_retirement, begin_call, retain_custody, stage, release,
}
use get_modular.Lifecycle.Trace.{
  Op, stages, elsewhere, activates, quiesces, resumes, retires, begins, retains, releases, finishes,
  step, run,
}
use get_modular.Lifecycle.Counts.{Inv}
use get_modular.Lifecycle.Theorems.{step-Inv}

-- The moves of the phase that one call may make, staying included.
abbrev pub may_move : Phase → Phase → Bool
may_move staged staged = true
may_move staged active = true
may_move staged retiring = true
may_move active active = true
may_move active quiescing = true
may_move active retiring = true
may_move quiescing quiescing = true
may_move quiescing active = true
may_move quiescing retiring = true
may_move retiring retiring = true
may_move retiring retired = true
may_move retired retired = true
may_move _ _ = false

-- The generation is still known, in a phase that one call may lead to.
abbrev pub Moves : Phase → Option GenerationRecord → Type 0
Moves p none = ⊥
Moves p (some r) = may_move p r.phase ≡ true

module _ (k : Kernel) (g : ℕ) (r : GenerationRecord) (e : lookup g k.generations ≡ some r) where
  stays : Moves r.phase (lookup g k.generations)
  stays = rw e (same r.phase)
    where
      same : (p : Phase) → may_move p p ≡ true
      same staged = refl
      same active = refl
      same quiescing = refl
      same retiring = refl
      same retired = refl

  writes :
      (j : ℕ) (s t : GenerationRecord)
      → lookup j k.generations ≡ some s
      → may_move s.phase t.phase ≡ true
      → Moves r.phase (lookup g (insert j t k.generations))
  writes j s t f m = ground (arith, lookup-insert j g t k.generations, stays)

  activate-Moves : (j : ℕ) → Moves r.phase (lookup g (activate k j).0.generations)
  unfolding activate
  activate-Moves j = elim (Option-cases (lookup j k.generations)) [
    | inl f ↦ rw (f, activate) stays
    | inr (s, f) ↦
        rw (f, activate) (ground (arith, stays, writes j s (record s { phase = active }) f))
  ]

  quiesce-Moves : (j : ℕ) → Moves r.phase (lookup g (quiesce k j).0.generations)
  unfolding quiesce
  quiesce-Moves j = elim (Option-cases (lookup j k.generations)) [
    | inl f ↦ rw (f, quiesce) stays
    | inr (s, f) ↦
        rw (f, quiesce) (ground (arith, stays, writes j s (record s { phase = quiescing }) f))
  ]

  resume-Moves : (j : ℕ) → Moves r.phase (lookup g (resume k j).0.generations)
  unfolding resume
  resume-Moves j = elim (Option-cases (lookup j k.generations)) [
    | inl f ↦ rw (f, resume) stays
    | inr (s, f) ↦
        rw (f, resume) (ground (arith, stays, writes j s (record s { phase = active }) f))
  ]

  retire-Moves : (j : ℕ) → Moves r.phase (lookup g (retire k j).0.generations)
  unfolding retire
  retire-Moves j = elim (Option-cases (lookup j k.generations)) [
    | inl f ↦ rw (f, retire) stays
    | inr (s, f) ↦
        rw (f, retire) (ground (arith, stays, writes j s (record s { phase = retiring }) f))
  ]

  finish_retirement-Moves : (j : ℕ) → Moves r.phase (lookup g (finish_retirement k j).0.generations)
  unfolding finish_retirement
  finish_retirement-Moves j = elim (Option-cases (lookup j k.generations)) [
    | inl f ↦ rw (f, finish_retirement) stays
    | inr (s, f) ↦
        rw (f, finish_retirement)
          (ground (arith, stays, writes j s (record s { phase = retired }) f))
  ]

  begin_call-Moves : (j : ℕ) → Moves r.phase (lookup g (begin_call k j).0.generations)
  unfolding begin_call
  begin_call-Moves j = elim (Option-cases (lookup j k.generations)) [
    | inl f ↦ rw (f, begin_call) stays
    | inr (s, f) ↦
        rw (f, begin_call) (ground (arith, stays, writes j s (record s { calls = s.calls + 1 }) f))
  ]

  retain_custody-Moves : (j : ℕ) → Moves r.phase (lookup g (retain_custody k j).0.generations)
  unfolding retain_custody
  retain_custody-Moves j = elim (Option-cases (lookup j k.generations)) [
    | inl f ↦ rw (f, retain_custody) stays
    | inr (s, f) ↦
        rw (f, retain_custody)
          (ground (arith, stays, writes j s (record s { custody = s.custody + 1 }) f))
  ]

  release-Moves : (l : ℕ) → Moves r.phase (lookup g (release k l).0.generations)
  unfolding release
  release-Moves l = elim (Option-cases (lookup l k.leases)) [
    | inl f ↦ rw (f, release) stays
    | inr (lease, f) ↦
        rw (f, release)
          (elim (Option-cases (lookup lease.generation k.generations)) [
            | inl q ↦ ground (arith, stays)
            | inr (s, q) ↦ ground (
              arith,
              stays,
              writes lease.generation s (record s { calls = s.calls - 1 }) q,
              writes lease.generation s (record s { custody = s.custody - 1 }) q,
            )
          ])
  ]

-- A call leaves each generation in its phase or moves it along the table: from `staged`, `active` and
-- `quiescing` to `retiring`, from `retiring` to `retired`, and never back.
pub step-Moves :
    (k : Kernel) (o : Op) (g : ℕ) (r : GenerationRecord)
    → Inv k
    → lookup g k.generations ≡ some r
    → Moves r.phase (lookup g (step k o).generations)
unfolding step stage
step-Moves k stages g r h e = ground (
  arith,
  stays k g r e,
  h.fresh_generation g,
  lookup-insert k.next_object g (record { phase = staged; calls = 0; custody = 0 }) k.generations,
)
step-Moves k elsewhere g r h e = stays k g r e
step-Moves k (activates j) g r h e = activate-Moves k g r e j
step-Moves k (quiesces j) g r h e = quiesce-Moves k g r e j
step-Moves k (resumes j) g r h e = resume-Moves k g r e j
step-Moves k (retires j) g r h e = retire-Moves k g r e j
step-Moves k (begins j) g r h e = begin_call-Moves k g r e j
step-Moves k (retains j) g r h e = retain_custody-Moves k g r e j
step-Moves k (releases l) g r h e = release-Moves k g r e l
step-Moves k (finishes j) g r h e = finish_retirement-Moves k g r e j

-- The generation is known and withdrawn from use.
abbrev pub IsWithdrawn : Option GenerationRecord → Type 0
IsWithdrawn none = ⊥
IsWithdrawn (some r) = (r.phase ≡ retiring) ⊎ (r.phase ≡ retired)

step-IsWithdrawn :
    (k : Kernel) (o : Op) (g : ℕ)
    → Inv k
    → IsWithdrawn (lookup g k.generations)
    → IsWithdrawn (lookup g (step k o).generations)
step-IsWithdrawn k o g h w = elim (Option-cases (lookup g k.generations)) [
  | inl e ↦ absurd (rw e at w)
  | inr (r, e) ↦ ground (arith, step-Moves k o g r h e)
]

-- Withdrawal is final, whatever calls follow.
pub run-IsWithdrawn :
    (k : Kernel) (os : List Op) (g : ℕ)
    → Inv k
    → IsWithdrawn (lookup g k.generations)
    → IsWithdrawn (lookup g (run k os).generations)
unfolding run
run-IsWithdrawn k [] g h w = w
run-IsWithdrawn k (o ∷ os) g h w =
    run-IsWithdrawn (step k o) os g (step-Inv k o h) (step-IsWithdrawn k o g h w)
