-- ===== src/Lifecycle/Drain.antt =====
-- Draining a withdrawn generation
-- (packages/lifecycle-kernel/src/features/lifecycle/kernel.ts: `release`, `finishRetirement`).
use get_modular.Base.{
  ℕ, ◌-◌, ◌≡◌, ◌⊎◌, List, [], ◌∷◌, true, Option, none, some, arith, lookup, lookup-insert,
  Option-cases, Bool-cases, inl, inr, number_key, ◌==◌, map, keys, contains, contains-keys, eqb_iff,
  total-zero,
}
use get_modular.Lifecycle.Kernel.{
  Kernel, LeaseRecord, LeaseKind, call, custodial, GenerationRecord, Phase, retired, retiring,
  finish_retirement, release, accepted,
}
use get_modular.Lifecycle.Trace.{releases, step, run, open_weight, open_leases}
use get_modular.Lifecycle.Counts.{Inv, release-Inv}
use get_modular.Lifecycle.Theorems.{finish_retirement_iff}

-- No open lease stands under the identity.
abbrev IsClosed : Option LeaseRecord → Type 0
IsClosed none = Unit
IsClosed (some v) = v.released ≡ true

release-IsClosed :
    (k : Kernel) (j l : ℕ)
    → IsClosed (lookup l k.leases)
    → IsClosed (lookup l (release k j).0.leases)
unfolding release
release-IsClosed k j l c = elim (Option-cases (lookup j k.leases)) [
  | inl e ↦ rw (e, release) c
  | inr (w, e) ↦ ground (arith, lookup-insert j l (record w { released = true }) k.leases)
]

release-IsClosed_self : (k : Kernel) (l : ℕ) → IsClosed (lookup l (release k l).0.leases)
unfolding release
release-IsClosed_self k l = elim (Option-cases (lookup l k.leases)) [
  | inl e ↦ rw (e, release) (rw e tt)
  | inr (w, e) ↦ ground (arith, lookup-insert l l (record w { released = true }) k.leases)
]

abbrev pub release_all : Kernel → List ℕ → Kernel
release_all k ls = run k (map releases ls)

release_all-IsClosed :
    (k : Kernel) (ls : List ℕ) (l : ℕ)
    → IsClosed (lookup l k.leases) ⊎ (contains ls l ≡ true)
    → IsClosed (lookup l (release_all k ls).leases)
unfolding run step
release_all-IsClosed k [] l c = ground arith
release_all-IsClosed k (j ∷ js) l c = release_all-IsClosed (release k j).0 js l (elim c [
  | inl now ↦ inl (release-IsClosed k j l now)
  | inr later ↦ elim (Bool-cases (j == l)) [
    | inl same ↦ inl (rw (← (eqb_iff j l).0 same) (release-IsClosed_self k j))
    | inr other ↦ inr (ground arith)
  ]
])

release_all-Inv : (k : Kernel) (ls : List ℕ) → Inv k → Inv (release_all k ls)
unfolding run step
release_all-Inv k [] h = h
release_all-Inv k (l ∷ ls) h = release_all-Inv (release k l).0 ls (release-Inv k h l)

abbrev HasPhase : Phase → Option GenerationRecord → Type 0
HasPhase p none = ⊥
HasPhase p (some r) = r.phase ≡ p

release-phase :
    (k : Kernel) (l g : ℕ) (p : Phase)
    → HasPhase p (lookup g k.generations)
    → HasPhase p (lookup g (release k l).0.generations)
unfolding release
release-phase k l g p h = elim (Option-cases (lookup l k.leases)) [
  | inl e ↦ rw (e, release) h
  | inr (w, e) ↦ elim (Option-cases (lookup w.generation k.generations)) [
    | inl f ↦ ground arith
    | inr (r, f) ↦ ground (
      arith,
      lookup-insert w.generation g (record r { calls = r.calls - 1 }) k.generations,
      lookup-insert w.generation g (record r { custody = r.custody - 1 }) k.generations,
    )
  ]
]

release_all-phase :
    (k : Kernel) (ls : List ℕ) (g : ℕ) (p : Phase)
    → HasPhase p (lookup g k.generations)
    → HasPhase p (lookup g (release_all k ls).generations)
unfolding run step
release_all-phase k [] g p h = h
release_all-phase k (l ∷ ls) g p h =
    release_all-phase (release k l).0 ls g p (release-phase k l g p h)

all-IsClosed : (k : Kernel) (l : ℕ) → IsClosed (lookup l (release_all k (keys k.leases)).leases)
all-IsClosed k l =
    release_all-IsClosed k (keys k.leases) l (elim (Option-cases (lookup l k.leases)) [
      | inl e ↦ inl (rw e tt)
      | inr (v, e) ↦ inr (contains-keys l v k.leases e)
    ])

-- After every lease that the kernel knows has been released, in the order in which they were given
-- out, a retiring generation can be finished.
pub release_all-finish_retirement :
    (k : Kernel) (g : ℕ) (r : GenerationRecord)
    → Inv k
    → lookup g k.generations ≡ some r
    → r.phase ≡ retiring
    → (finish_retirement (release_all k (keys k.leases)) g).1 ≡ accepted retired
release_all-finish_retirement k g r h e p =
    elim (Option-cases (lookup g (release_all k (keys k.leases)).generations)) [
      | inl f ↦ absurd (ground (arith, kept))
      | inr (s, f) ↦
          (finish_retirement_iff (release_all k (keys k.leases)) g s inv f (ground (arith, kept))).1
            (none_open call, none_open custodial)
    ]
  where
    kept : HasPhase retiring (lookup g (release_all k (keys k.leases)).generations)
    kept = release_all-phase k (keys k.leases) g retiring (ground arith)

    inv : Inv (release_all k (keys k.leases))
    inv = release_all-Inv k (keys k.leases) h

    none_open : (kind : LeaseKind) → open_leases kind g (release_all k (keys k.leases)) ≡ 0
    none_open kind =
        total-zero (open_weight kind g) (release_all k (keys k.leases)).leases inv.distinct
          (λ l v q. ground (arith, all-IsClosed k l))
