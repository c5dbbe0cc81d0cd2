-- ===== src/Lifecycle/Revocation.antt =====
-- The identity of a lease, and its authority over the retirement of its generation
-- (packages/lifecycle-kernel/src/features/lifecycle/kernel.ts: `checkCall`, `retire`).
use get_modular.Base.{
  ℕ, ◌+◌, ◌≡◌, ◌⊎◌, subst, ◌∙◌, List, [], ◌∷◌, true, false, if◌then◌else◌, Option, none, some,
  arith, lookup, insert, lookup-insert, Option-cases, inl, inr, number_key,
}
use get_modular.Lifecycle.Kernel.{
  Kernel, LeaseRecord, LeaseKind, call, custodial, GenerationRecord, quiescing, retiring, activate,
  quiesce, resume, retire, finish_retirement, begin_call, retain_custody, stage, release, accepted,
  refused, check_call, admitted, revoked, released_lease, Refusal,
}
use get_modular.Lifecycle.Trace.{
  Op, stages, elsewhere, activates, quiesces, resumes, retires, begins, retains, releases, finishes,
  step, run,
}
use get_modular.Lifecycle.Counts.{Inv, retire-Inv}
use get_modular.Lifecycle.Theorems.{step-Inv}
use get_modular.Lifecycle.Phases.{IsWithdrawn, run-IsWithdrawn}

-- The lease is still known, of the same kind and generation, and released if it was.
abbrev Keeps : LeaseRecord → Option LeaseRecord → Type 0
Keeps v none = ⊥
Keeps v (some w) =
    (w.kind ≡ v.kind) × (w.generation ≡ v.generation) × (v.released ≡ true → w.released ≡ true)

Keeps-trans :
    (v w : LeaseRecord) (o : Option LeaseRecord) → Keeps v (some w) → Keeps w o → Keeps v o
Keeps-trans v w none p q = q
Keeps-trans v w (some x) p q = ground arith

module _ (k : Kernel) (h : Inv k) (l : ℕ) (v : LeaseRecord) (e : lookup l k.leases ≡ some v) where
  opened-Keeps :
      (kind : LeaseKind) (g : ℕ)
      → Keeps v (
          lookup l (
            insert k.next_object
              (record { kind = kind; generation = g; released = false })
              k.leases))
  opened-Keeps kind g = ground (
    arith,
    h.fresh_lease l,
    lookup-insert k.next_object l (record { kind = kind; generation = g; released = false })
        k.leases,
  )

  step-Keeps : (o : Op) → Keeps v (lookup l (step k o).leases)
  unfolding step stage activate quiesce resume retire begin_call retain_custody release
      finish_retirement
  step-Keeps stages = ground arith
  step-Keeps elsewhere = ground arith
  step-Keeps (activates g) = ground arith
  step-Keeps (quiesces g) = ground arith
  step-Keeps (resumes g) = ground arith
  step-Keeps (retires g) = ground arith
  step-Keeps (begins g) = ground (arith, opened-Keeps call g)
  step-Keeps (retains g) = ground (arith, opened-Keeps custodial g)
  step-Keeps (releases j) = elim (Option-cases (lookup j k.leases)) [
    | inl f ↦ ground arith
    | inr (w, f) ↦ ground (arith, lookup-insert j l (record w { released = true }) k.leases)
  ]
  step-Keeps (finishes g) = ground arith

run-Keeps :
    (k : Kernel) (os : List Op) (l : ℕ) (v : LeaseRecord)
    → Inv k
    → lookup l k.leases ≡ some v
    → Keeps v (lookup l (run k os).leases)
unfolding run
run-Keeps k [] l v h e = ground arith
run-Keeps k (o ∷ os) l v h e = elim (Option-cases (lookup l (step k o).leases)) [
  | inl f ↦ absurd (ground (arith, step-Keeps k h l v e o))
  | inr (w, f) ↦
      Keeps-trans v w (lookup l (run (step k o) os).leases) (ground (arith, step-Keeps k h l v e o))
        (run-Keeps (step k o) os l w (step-Inv k o h) f)
]

retire-IsWithdrawn :
    (k : Kernel) (g : ℕ) (r : GenerationRecord)
    → lookup g k.generations ≡ some r
    → IsWithdrawn (lookup g (retire k g).0.generations)
unfolding retire
retire-IsWithdrawn k g r e =
    ground (arith, lookup-insert g g (record r { phase = retiring }) k.generations)

retire-leases : (k : Kernel) (g l : ℕ) → lookup l (retire k g).0.leases ≡ lookup l k.leases
unfolding retire
retire-leases k g l = ground arith

-- What `checkCall` says of a call lease whose generation is withdrawn.
abbrev pub refusal_of : LeaseRecord → Refusal
refusal_of v = if v.released then released_lease else revoked

check_call-withdrawn :
    (k : Kernel) (l : ℕ) (v : LeaseRecord)
    → lookup l k.leases ≡ some v
    → v.kind ≡ call
    → IsWithdrawn (lookup v.generation k.generations)
    → check_call k l ≡ refused (refusal_of v)
unfolding check_call
check_call-withdrawn k l v e c w = ground arith

-- Once a known generation is retired, no call lease on it is admitted again, whatever calls follow:
-- `checkCall` refuses it as released or as revoked.
pub retire_revokes :
    (k : Kernel) (g l : ℕ) (r : GenerationRecord) (v : LeaseRecord) (os : List Op)
    → Inv k
    → lookup g k.generations ≡ some r
    → lookup l k.leases ≡ some v
    → v.kind ≡ call
    → v.generation ≡ g
    → (check_call (run (retire k g).0 os) l ≡ refused released_lease)
      ⊎ (check_call (run (retire k g).0 os) l ≡ refused revoked)
retire_revokes k g l r v os h e f c q =
    elim (Option-cases (lookup l (run (retire k g).0 os).leases)) [
      | inl none_left ↦ absurd (ground (arith, kept))
      | inr (w, found) ↦ ground (
        arith,
        kept,
        check_call-withdrawn (run (retire k g).0 os) l w found (ground (arith, kept)) (
            subst (λ (j : ℕ). IsWithdrawn (lookup j (run (retire k g).0 os).generations))
              (ground (arith, kept)) gone),
      )
    ]
  where
    kept : Keeps v (lookup l (run (retire k g).0 os).leases)
    kept = run-Keeps (retire k g).0 os l v (retire-Inv k h g) (retire-leases k g l ∙ f)

    gone : IsWithdrawn (lookup g (run (retire k g).0 os).generations)
    gone = run-IsWithdrawn (retire k g).0 os g (retire-Inv k h g) (retire-IsWithdrawn k g r e)

-- A new call lease is admitted, and stays admitted while its generation quiesces or resumes.
pub begin_call-check_call :
    (k : Kernel) (g l : ℕ)
    → Inv k
    → (begin_call k g).1 ≡ accepted l
    → (check_call (begin_call k g).0 l ≡ accepted admitted)
      × (check_call (quiesce (begin_call k g).0 g).0 l ≡ accepted admitted)
unfolding begin_call check_call quiesce
begin_call-check_call k g l h a = elim (Option-cases (lookup g k.generations)) [
  | inl e ↦ absurd (ground arith)
  | inr (r, e) ↦
      let s = record r { calls = r.calls + 1 } in
      ground (
        arith,
        lookup-insert g g s k.generations,
        lookup-insert g g (record s { phase = quiescing }) (insert g s k.generations),
        lookup-insert k.next_object k.next_object
            (record { kind = call; generation = g; released = false }) k.leases,
      )
]
