-- ===== src/Lifecycle/Theorems.antt =====
-- What holds of the lifecycle kernel after any history
-- (packages/lifecycle-kernel/src/features/lifecycle/kernel.ts).
use get_modular.Base.{
  ℕ, suc, ◌≡◌, ◌≢◌, ◌↔◌, refl, List, [], ◌∷◌, true, false, none, some, arith, lookup, lookup-insert,
  Option-cases, inl, inr, number_key,
}
use get_modular.Lifecycle.Kernel.{
  Kernel, LeaseRecord, call, custodial, GenerationRecord, retired, retiring, finish_retirement,
  release, create_lifecycle_kernel, accepted, now_released, already_released, uncount,
}
use get_modular.Lifecycle.Trace.{
  Op, stages, elsewhere, activates, quiesces, resumes, retires, begins, retains, releases, finishes,
  step, run, open_leases,
}
use get_modular.Lifecycle.Counts.{
  Inv, counter, activate-Inv, quiesce-Inv, resume-Inv, retire-Inv, finish_retirement-Inv,
  begin_call-Inv, retain_custody-Inv, stage-Inv, elsewhere-Inv, release-Inv, open_lease-counted,
}

-- Every operation keeps the bookkeeping of the kernel consistent: the counters of each generation are
-- the numbers of its open leases, and a retired generation has none.
pub step-Inv : (k : Kernel) (o : Op) → Inv k → Inv (step k o)
unfolding step
step-Inv k stages h = stage-Inv k h
step-Inv k elsewhere h = elsewhere-Inv k h
step-Inv k (activates g) h = activate-Inv k h g
step-Inv k (quiesces g) h = quiesce-Inv k h g
step-Inv k (resumes g) h = resume-Inv k h g
step-Inv k (retires g) h = retire-Inv k h g
step-Inv k (begins g) h = begin_call-Inv k h g
step-Inv k (retains g) h = retain_custody-Inv k h g
step-Inv k (releases l) h = release-Inv k h l
step-Inv k (finishes g) h = finish_retirement-Inv k h g

create_lifecycle_kernel-Inv : (n : ℕ) → Inv (create_lifecycle_kernel n)
unfolding create_lifecycle_kernel
create_lifecycle_kernel-Inv n = record {
  fresh_generation = λ g le. refl;
  distinct = tt;
  fresh_lease = λ l le. refl;
  counted = λ kind g. refl;
  retired_idle = λ g r e p. cc;
}

run_from-Inv : (k : Kernel) (os : List Op) → Inv k → Inv (run k os)
unfolding run
run_from-Inv k [] h = h
run_from-Inv k (o ∷ os) h = run_from-Inv (step k o) os (step-Inv k o h)

-- So it is after every history of a new kernel.
pub run-Inv : (n : ℕ) (os : List Op) → Inv (run (create_lifecycle_kernel n) os)
run-Inv n os = run_from-Inv (create_lifecycle_kernel n) os (create_lifecycle_kernel-Inv n)

-- A retirement is finished exactly when no call and no custody lease is open on the generation.
pub finish_retirement_iff :
    (k : Kernel) (g : ℕ) (r : GenerationRecord)
    → Inv k
    → lookup g k.generations ≡ some r
    → r.phase ≡ retiring
    → ((finish_retirement k g).1 ≡ accepted retired)
      ↔ ((open_leases call g k ≡ 0) × (open_leases custodial g k ≡ 0))
unfolding finish_retirement
finish_retirement_iff k g r h e p = ground (arith, h.counted call g, h.counted custodial g)

-- Releasing an open lease takes one off its counter, which is positive.
pub release-exact :
    (k : Kernel) (l : ℕ) (lease : LeaseRecord)
    → Inv k
    → lookup l k.leases ≡ some lease
    → lease.released ≡ false
    → (r : GenerationRecord) × (lookup lease.generation k.generations ≡ some r)
      × (suc (counter lease.kind (uncount lease.kind r)) ≡ counter lease.kind r)
      × (lookup lease.generation (release k l).0.generations ≡ some (uncount lease.kind r))
      × ((release k l).1 ≡ accepted now_released)
unfolding release
release-exact k l lease h e o =
    let (r, f, c) = open_lease-counted k h l lease e o in
    (
      r,
      f,
      ground arith,
      ground (
        arith,
        lookup-insert lease.generation lease.generation (uncount lease.kind r) k.generations,
      ),
      ground arith,
    )

-- A second release changes nothing and says so.
pub release-release :
    (k : Kernel) (l : ℕ)
    → lookup l k.leases ≢ none
    → release (release k l).0 l ≡ ((release k l).0, accepted already_released)
unfolding release
release-release k l h = elim (Option-cases (lookup l k.leases)) [
  | inl e ↦ absurd (h e)
  | inr (lease, e) ↦ ground (arith, lookup-insert l l (record lease { released = true }) k.leases)
]
